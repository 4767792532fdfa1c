-- ===== src/Splitd/Validate.antt =====
-- splitd/src/model.rs: what `SplitConfig::validate` accepts, and in which form.
use proton_vpn_omarchy_core.Base.{
  ℕ, suc, ◌≤◌, Bool, true, false, not, String, List, [], ◌∷◌, ◌++◌, some, ◌≡◌, refl, ap, subst, ◌∙◌,
  inl, inr, arith, length, ltb, any, keep, All, All-append, All-mono, is_empty, trim, or_else,
  map_some, if◌then◌else◌, Bool-cases, Option-cases,
}
use proton_vpn_omarchy_core.Splitd.Config.{
  ◌>>=◌, Networks, SplitConfig, Checked, valid, invalid, max_paths, max_ip_ranges, normalize,
  is_bad_value, is_blank, parse_ip_range, canonical_ip_range, canonical_all, validate_ip_ranges,
  validate,
}
use proton_vpn_omarchy_core.Splitd.Normalize.{
  IsNormal, normalize-IsNormal, normalize-of_normal, normalize-length, normalize-All,
}

-- What the `ipnet` crate promises: a network is read back from its display, which is a plain text,
-- and the network of a network is itself.
pub record NetworkLaws (nets : Networks) : Type 0 where
  pub trunc_trunc : (n : nets.Net) → nets.trunc (nets.trunc n) ≡ nets.trunc n
  pub parse_show : (n : nets.Net) → nets.parse_net (nets.show n) ≡ some n
  pub trim_show : (n : nets.Net) → trim (nets.show n) ≡ nets.show n
  pub show_filled : (n : nets.Net) → is_empty (nets.show n) ≡ false
  pub show_good : (n : nets.Net) → is_bad_value (nets.show n) ≡ false

-- A chain that succeeds has succeeded in each part.
valid-of_bind :
    {A B : Type 0} (m : Checked A) (f : A → Checked B) (b : B)
    → (m >>= f) ≡ valid b
    → (a : A) × (m ≡ valid a) × (f a ≡ valid b)
valid-of_bind (valid a) f b h = (a, refl, h)
valid-of_bind (invalid e) f b h = absurd (let no : ⊥ = cc in no)

-- A guard that has let a value pass.
guard-passed :
    {A : Type 0} (b : Bool) (e : String) (rest : Checked A) (a : A)
    → (if b then invalid e else rest) ≡ valid a
    → (b ≡ false) × (rest ≡ valid a)
guard-passed true e rest a h = absurd (let no : ⊥ = cc in no)
guard-passed false e rest a h = (refl, h)

le-of_ltb : (k n : ℕ) → ltb k n ≡ false → n ≤ k
le-of_ltb k n h = ground arith

ltb-of_le : (k n : ℕ) → n ≤ k → ltb k n ≡ false
ltb-of_le k n h = ground arith

valid_inj : {A : Type 0} (a b : A) → valid a ≡ valid b → a ≡ b
valid_inj a b h = cc

any-false-All :
    (p : String → Bool) (vs : List String) → any p vs ≡ false → All (λ v. p v ≡ false) vs
unfolding any
any-false-All p [] h = tt
any-false-All p (v ∷ vs) h = elim (Bool-cases (p v)) [
  | inl e ↦ absurd (let h' = rw e at h in let no : ⊥ = cc in no)
  | inr e ↦ (e, any-false-All p vs (rw e at h))
]

any-of_All : (p : String → Bool) (vs : List String) → All (λ v. p v ≡ false) vs → any p vs ≡ false
unfolding any
any-of_All p [] h = refl
any-of_All p (v ∷ vs) h = rw h.0 (any-of_All p vs h.1)

keep-length : (p : String → Bool) (vs : List String) → length (keep p vs) ≤ length vs
unfolding keep
keep-length p [] = omega arith
keep-length p (v ∷ vs) = ground (arith, keep-length p vs)

keep-of_All : (p : String → Bool) (vs : List String) → All (λ v. p v ≡ true) vs → keep p vs ≡ vs
unfolding keep
keep-of_All p [] h = refl
keep-of_All p (v ∷ vs) h = rw h.0 (ap (λ ws. v ∷ ws) (keep-of_All p vs h.1))

All-of-append : (P : String → Type 0) (xs ys : List String) → All P (xs ++ ys) → All P xs × All P ys
All-of-append P [] ys h = (tt, h)
All-of-append P (x ∷ xs) ys h = let rest = All-of-append P xs ys h.1 in ((h.0, rest.0), rest.1)

module _ (nets : Networks) (laws : NetworkLaws nets) where
  open nets use {Net, show, trunc, parse_net, parse_address, host}

  -- A text that displays a network in its truncated form.
  abbrev IsCanonical : String → Type 0
  IsCanonical v = (n : Net) × (v ≡ show (trunc n))

  canonical_ip_range-IsCanonical :
      (v : String) (r : String) → canonical_ip_range nets v ≡ valid r → IsCanonical r
  unfolding canonical_ip_range parse_ip_range
  canonical_ip_range-IsCanonical v r h =
      elim (Option-cases (or_else (parse_net (trim v)) (map_some host (parse_address (trim v))))) [
        | inl e ↦
            absurd
              (let h' = rw (e, canonical_ip_range, parse_ip_range) at h in let no : ⊥ = cc in no)
        | inr (n, e) ↦
            let h' = rw (e, canonical_ip_range, parse_ip_range) at h in
            (n, (let same : r ≡ show (trunc n) = cc in same))
      ]

  canonical_all-IsCanonical :
      (vs rs : List String)
      → canonical_all nets vs ≡ valid rs
      → All IsCanonical rs × (length rs ≡ length vs)
  unfolding canonical_all
  canonical_all-IsCanonical [] [] h = (tt, refl)
  canonical_all-IsCanonical [] (r ∷ rs) h = absurd (let no : ⊥ = cc in no)
  canonical_all-IsCanonical (v ∷ vs) rs h =
      let first = valid-of_bind (canonical_ip_range nets v) _ rs h in
      let others = valid-of_bind (canonical_all nets vs) _ rs first.2 in
      let rest = canonical_all-IsCanonical vs others.0 others.1 in
      let same = valid_inj (first.0 ∷ others.0) rs others.2 in
      subst (λ ts. All IsCanonical ts × (length ts ≡ length (v ∷ vs))) same
        ((canonical_ip_range-IsCanonical v first.0 first.1, rest.0), ap suc rest.1)

  -- A canonical text is accepted and kept.
  canonical_ip_range-of_canonical :
      (v : String) → IsCanonical v → canonical_ip_range nets v ≡ valid v
  unfolding canonical_ip_range parse_ip_range
  canonical_ip_range-of_canonical v (n, e) =
      rw
        (
          e,
          laws.trim_show (trunc n),
          laws.parse_show (trunc n),
          laws.trunc_trunc n,
          canonical_ip_range,
          parse_ip_range,
        )
        refl

  canonical_all-of_canonical :
      (vs : List String) → All IsCanonical vs → canonical_all nets vs ≡ valid vs
  unfolding canonical_all
  canonical_all-of_canonical [] h = refl
  canonical_all-of_canonical (v ∷ vs) h =
      rw (canonical_ip_range-of_canonical v h.0, canonical_all-of_canonical vs h.1) refl

  -- The IP ranges that validation leaves.
  abbrev pub IsRanges : List String → Type 0
  IsRanges rs = All IsCanonical rs × IsNormal rs × (length rs ≤ max_ip_ranges)

  validate_ip_ranges-IsRanges :
      (vs rs : List String) → validate_ip_ranges nets vs ≡ valid rs → IsRanges rs
  unfolding validate_ip_ranges
  validate_ip_ranges-IsRanges vs rs h =
      let few = guard-passed (ltb max_ip_ranges (length vs)) _ _ rs h in
      let good = guard-passed (any is_bad_value vs) _ _ rs few.1 in
      let ranges =
        valid-of_bind (canonical_all nets (keep (λ v. not (is_blank v)) vs)) _ rs good.1 in
      let canonical =
        canonical_all-IsCanonical (keep (λ v. not (is_blank v)) vs) ranges.0 ranges.1 in
      subst IsRanges (valid_inj (normalize ranges.0) rs ranges.2) (
        normalize-All IsCanonical ranges.0 canonical.0,
        (normalize-IsNormal ranges.0 "").0,
        omega (
          arith,
          normalize-length ranges.0,
          canonical.1,
          keep-length (λ v. not (is_blank v)) vs,
          le-of_ltb max_ip_ranges (length vs) few.0,
        ),
      )

  validate_ip_ranges-of_ranges :
      (rs : List String) → IsRanges rs → validate_ip_ranges nets rs ≡ valid rs
  unfolding validate_ip_ranges
  validate_ip_ranges-of_ranges rs (canonical, normal, few) =
      let not_many = ltb-of_le max_ip_ranges (length rs) few in
      let good : any is_bad_value rs ≡ false =
        any-of_All is_bad_value rs
          (All-mono rs (λ v c. ap is_bad_value c.1 ∙ laws.show_good (trunc c.0)) canonical) in
      let filled : keep (λ v. not (is_blank v)) rs ≡ rs = keep-of_All _ rs (
        All-mono rs
          (λ v c.
            ap (λ w. not (is_blank w)) c.1
            ∙ ap (λ w. not (is_empty w)) (laws.trim_show (trunc c.0))
            ∙ ap not (laws.show_filled (trunc c.0)))
          canonical) in
      rw
        (
          not_many,
          good,
          filled,
          canonical_all-of_canonical rs canonical,
          normalize-of_normal rs normal,
        )
        refl

  -- What validation leaves of a configuration.
  abbrev pub IsValid : SplitConfig → Type 0
  IsValid c =
      IsRanges c.ip_ranges
      × IsNormal c.app_paths
      × (length c.app_paths ≤ max_paths)
      × All (λ v. is_bad_value v ≡ false) c.app_paths

  validate-IsValid : (c d : SplitConfig) → validate nets c ≡ valid d → IsValid d
  unfolding validate
  validate-IsValid c d h =
      let paths = guard-passed (ltb max_paths (length c.app_paths)) _ _ d h in
      let ranges = guard-passed (ltb max_ip_ranges (length c.ip_ranges)) _ _ d paths.1 in
      let good = guard-passed (any is_bad_value (c.app_paths ++ c.ip_ranges)) _ _ d ranges.1 in
      let checked = valid-of_bind (validate_ip_ranges nets c.ip_ranges) _ d good.1 in
      let sound =
        All-of-append (λ v. is_bad_value v ≡ false) c.app_paths c.ip_ranges
          (any-false-All is_bad_value (c.app_paths ++ c.ip_ranges) good.0) in
      subst IsValid
        (valid_inj
          (record { mode = c.mode; app_paths = normalize c.app_paths; ip_ranges = checked.0 }) d
          checked.2)
        (
          validate_ip_ranges-IsRanges c.ip_ranges checked.0 checked.1,
          (normalize-IsNormal c.app_paths "").0,
          omega (
            arith,
            normalize-length c.app_paths,
            le-of_ltb max_paths (length c.app_paths) paths.0,
          ),
          normalize-All (λ v. is_bad_value v ≡ false) c.app_paths sound.0,
        )

  validate-of_valid : (d : SplitConfig) → IsValid d → validate nets d ≡ valid d
  unfolding validate
  validate-of_valid d (ranges, normal, few, good) =
      let all_good = any-of_All is_bad_value (d.app_paths ++ d.ip_ranges) (
        All-append (λ v. is_bad_value v ≡ false) d.app_paths d.ip_ranges good
          (All-mono d.ip_ranges (λ v c. ap is_bad_value c.1 ∙ laws.show_good (trunc c.0))
            ranges.0)) in
      rw
        (
          validate_ip_ranges-of_ranges d.ip_ranges ranges,
          ltb-of_le max_paths (length d.app_paths) few,
          ltb-of_le max_ip_ranges (length d.ip_ranges) ranges.2,
          all_good,
          normalize-of_normal d.app_paths normal,
        )
        refl

  -- A configuration that validation gives out is valid, and validation leaves it as it is: its
  -- ranges are displays of truncated networks, neither of its lists has an empty or a repeated
  -- value or more than 256 of them, and no path is too
  -- long or has a NUL. (The ipnet crate reads back what it displays.)
  pub validate-again :
      (c d : SplitConfig) → validate nets c ≡ valid d → IsValid d × (validate nets d ≡ valid d)
  validate-again c d h = let good = validate-IsValid c d h in (good, validate-of_valid d good)
