-- ===== src/Store/Fresh.antt =====
-- agent/src/store.rs: the identifiers and names that are made are new, and the loops that look for
-- them end.
use text.Mathlib.TextLemmas.{append_cancel_left, append_cancel_right}
use native.Mathlib.Nat.{pow-suc}
use proton_vpn_omarchy_core.Base.{
  ℕ, zero, suc, ◌+◌, ◌*◌, ◌/◌, ◌%◌, ◌^◌, ◌≤◌, ◌<◌, Bool, true, false, String, List, Option, none,
  some, ◌≡◌, refl, sym, ap, subst, ◌∙◌, inl, inr, arith, any, length, str_eq_iff, ltb, Bool-cases,
  Option-cases, pigeonhole,
}
use proton_vpn_omarchy_core.Json.{Value, text_of}
use proton_vpn_omarchy_core.Operations.Ids.{hex, hex_digit, digit_value, digit_value-hex_digit}
use proton_vpn_omarchy_core.Store.File.{has_text, is_text}
use proton_vpn_omarchy_core.Store.Ids.{padded_hex, id_at, first_free, has_id, unique_id}

-- The value of hexadecimal digits, read from the left.
hex_value : ℕ → String → ℕ
hex_value acc String.[] = acc
hex_value acc (String.◌∷◌ c s) = hex_value (acc * 16 + digit_value c) s

shifted : (a p n : ℕ) → (a * p + n / 16) * 16 + n % 16 ≡ a * (p * 16) + n
shifted a p n = grind arith

hex_value-hex :
    (acc k n : ℕ) (rest : String)
    → n < 16 ^ k
    → hex_value acc (hex k n rest) ≡ hex_value (acc * 16 ^ k + n) rest
unfolding hex hex_value
hex_value-hex acc zero n rest h = ap (λ a. hex_value a rest) (same acc n h)
  where
    same : (a n : ℕ) → n < 16 ^ 0 → a ≡ a * 16 ^ 0 + n
    same a n h = grind arith
hex_value-hex acc (suc k) n rest h =
    hex_value-hex acc k (n / 16) (String.◌∷◌ (hex_digit (n % 16)) rest)
      (omega (arith, pow-suc 16 k))
    ∙ ap (λ a. hex_value a rest)
        (ap (λ d. (acc * 16 ^ k + n / 16) * 16 + d) (digit_value-hex_digit (n % 16) (omega arith))
          ∙ shifted acc (16 ^ k) n
          ∙ ap (λ p. acc * p + n) (sym (pow-suc 16 k)))

hex_value-hex-zero : (k n : ℕ) → n < 16 ^ k → hex_value 0 (hex k n String.[]) ≡ n
unfolding hex_value
hex_value-hex-zero k n h = hex_value-hex 0 k n String.[] h ∙ plain (16 ^ k) n
  where
    plain : (p n : ℕ) → 0 * p + n ≡ n
    plain p n = omega arith

hex_value-padded_hex : (fuel k n : ℕ) → n < 16 ^ (k + fuel) → hex_value 0 (padded_hex fuel k n) ≡ n
unfolding padded_hex
hex_value-padded_hex zero k n h =
    hex_value-hex-zero k n (omega (arith, h, ap (λ e. 16 ^ e) (plus_zero k)))
  where
    plus_zero : (k : ℕ) → k + 0 ≡ k
    plus_zero k = omega arith
hex_value-padded_hex (suc fuel) k n h = elim (Bool-cases (ltb n (16 ^ k))) [
  | inl e ↦
      let same : padded_hex (suc fuel) k n ≡ hex k n String.[] = rw (e, padded_hex) refl in
      ap (hex_value 0) same ∙ hex_value-hex-zero k n (less n (16 ^ k) e)
  | inr e ↦
      let same : padded_hex (suc fuel) k n ≡ padded_hex fuel (suc k) n = rw (e, padded_hex) refl in
      ap (hex_value 0) same
      ∙ hex_value-padded_hex fuel (suc k) n (subst (λ e. n < 16 ^ e) (plus_suc k fuel) h)
]
  where
    less : (m n : ℕ) → ltb m n ≡ true → m < n
    less m n e = ground arith

    plus_suc : (k f : ℕ) → k + suc f ≡ suc k + f
    plus_suc k f = omega arith

-- Different numbers give different identifiers.
id_at-injective :
    (prefix : String) (now i j : ℕ)
    → i < 2 ^ 64
    → j < 2 ^ 64
    → id_at prefix now i ≡ id_at prefix now j
    → i ≡ j
unfolding id_at
id_at-injective prefix now i j hi hj e =
    let tails = append_cancel_left "-" _ _ (
      append_cancel_left (padded_hex 0 16 now) _ _
        (append_cancel_left "-" _ _ (append_cancel_left prefix _ _ e))) in
    let same = append_cancel_right (padded_hex 12 4 i) (padded_hex 12 4 j) String.[] tails in
    sym (hex_value-padded_hex 12 4 i hi) ∙ ap (hex_value 0) same ∙ hex_value-padded_hex 12 4 j hj

-- The search among candidates: what it finds is a candidate that no value has, and it ends before
-- it has tried one more than there are values.
module _ {A : Type 0} (taken_by : String → A → Bool) (candidate : ℕ → String)
    (values : List A) where
  abbrev pub IsFree : String → Type 0
  IsFree s = any (taken_by s) values ≡ false

  first_free-some :
      (fuel start : ℕ) (s : String)
      → first_free taken_by candidate values fuel start ≡ some s
      → IsFree s × ((i : ℕ) × (s ≡ candidate i) × (start ≤ i) × (i < start + fuel))
  unfolding first_free
  first_free-some zero start s e = absurd (let no : ⊥ = cc in no)
  first_free-some (suc fuel) start s e =
      elim (Bool-cases (any (taken_by (candidate start)) values)) [
        | inl hit ↦
            let found = first_free-some fuel (suc start) s (rw hit at e) in
            (found.0, (found.1.0, found.1.1, omega (arith, found.1.2), omega (arith, found.1.3)))
        | inr free ↦
            let e' = rw free at e in
            let same : candidate start ≡ s = cc in
            (subst IsFree same free, (start, sym same, omega arith, omega arith))
      ]

  first_free-none :
      (fuel start : ℕ)
      → first_free taken_by candidate values fuel start ≡ none
      → (i : ℕ) → i < fuel
      → any (taken_by (candidate (start + i))) values ≡ true
  unfolding first_free
  first_free-none zero start e i h = absurd (omega arith)
  first_free-none (suc fuel) start e i h =
      elim (Bool-cases (any (taken_by (candidate start)) values)) [
        | inl hit ↦ of_index i h hit (first_free-none fuel (suc start) (rw hit at e))
        | inr free ↦ absurd (let e' = rw free at e in let no : ⊥ = cc in no)
      ]
    where
      of_index :
          (i : ℕ)
          → i < suc fuel
          → any (taken_by (candidate start)) values ≡ true
          → ((j : ℕ) → j < fuel → any (taken_by (candidate (suc start + j))) values ≡ true)
          → any (taken_by (candidate (start + i))) values ≡ true
      of_index zero h hit rest =
          subst (λ k. any (taken_by (candidate k)) values ≡ true) (omega arith) hit
      of_index (suc j) h hit rest =
          subst (λ k. any (taken_by (candidate k)) values ≡ true) (omega arith)
            (rest j (omega arith))

  -- With more tries than values, the search succeeds, if no value is taken by two candidates.
  pub first_free-ends :
      (fuel start : ℕ)
      → length values < fuel
      → ((x : A) (i j : ℕ)
          → i < fuel
          → j < fuel
          → taken_by (candidate (start + i)) x ≡ true
          → taken_by (candidate (start + j)) x ≡ true
          → i ≡ j)
      → (s : String) × (first_free taken_by candidate values fuel start ≡ some s)
        × IsFree s
        × ((i : ℕ) × (s ≡ candidate i) × (start ≤ i) × (i < start + fuel))
  first_free-ends fuel start h once =
      elim (Option-cases (first_free taken_by candidate values fuel start)) [
        | inl e ↦ absurd (
            let all =
              pigeonhole (λ i. taken_by (candidate (start + i))) fuel values once
                (first_free-none fuel start e) in
            omega arith)
        | inr (s, e) ↦ let found = first_free-some fuel start s e in (s, e, found.0, found.1)
      ]

is_text-once : (o : Option String) (s t : String) → is_text o s ≡ true → is_text o t ≡ true → s ≡ t
is_text-once none s t p q = absurd (let no : ⊥ = cc in no)
is_text-once (some u) s t p q = sym ((str_eq_iff u s).0 p) ∙ (str_eq_iff u t).0 q

pub has_text-once :
    (key s t : String) (v : Value) → has_text key s v ≡ true → has_text key t v ≡ true → s ≡ t
unfolding has_text
has_text-once key s t v p q = is_text-once (text_of v key) s t p q

-- The loop of `unique_id` ends, with one try more than there are entries at most, and what it gives
-- is the identifier of no entry. (There are fewer entries than a 64-bit number counts.)
pub unique_id-IsFree :
    (prefix : String) (now : ℕ) (values : List Value)
    → length values + 1 < 2 ^ 64
    → (any (has_id (unique_id prefix now values)) values ≡ false)
      × ((i : ℕ) × (unique_id prefix now values ≡ id_at prefix now i) × (i ≤ length values))
unfolding unique_id
unique_id-IsFree prefix now values h =
    let (s, e, free, (i, is, low, high)) =
      first_free-ends has_id (id_at prefix now) values (suc (length values)) 0 (omega arith)
        (λ v i j hi hj p q.
          let same =
            id_at-injective prefix now (0 + i) (0 + j) (omega arith) (omega arith)
              (has_text-once "id" (id_at prefix now (0 + i)) (id_at prefix now (0 + j)) v p q) in
          omega arith) in
    rw e (free, (i, is, omega arith))
