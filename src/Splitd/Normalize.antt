-- ===== src/Splitd/Normalize.antt =====
-- splitd/src/model.rs: what `normalize` makes of a list of values.
use proton_vpn_omarchy_core.Base.{
  ◌≤◌, ◌+◌, true, false, ◌&&◌, ◌||◌, not, String, List, [], ◌∷◌, ◌++◌, ◌≡◌, ◌≢◌, ◌⊎◌, refl, sym, ap,
  subst, ◌∙◌, inl, inr, arith, length, any, All, Pairwise, Pairwise-snoc, All-append, str_eq,
  str_eq_iff, str_eq_of_ne, is_empty, append-nil, append_assoc, if-both, Bool-cases,
}
use proton_vpn_omarchy_core.Splitd.Config.{has_value, normalize, normalize_onto, push_new}

-- No value is empty and no value stands twice.
abbrev pub IsNormal : List String → Type 0
IsNormal vs = All (λ v. is_empty v ≡ false) vs × Pairwise ◌≢◌ vs

All-of_has_value-false :
    (v : String) (vs : List String) → has_value v vs ≡ false → All (λ w. v ≢ w) vs
unfolding has_value any
All-of_has_value-false v [] h = tt
All-of_has_value-false v (w ∷ vs) h = elim (Bool-cases (str_eq v w)) [
  | inl same ↦ absurd (let h' = rw same at h in let no : ⊥ = cc in no)
  | inr other ↦ (
    (λ e. let hit = (str_eq_iff v w).1 e in let no : ⊥ = cc in no),
    All-of_has_value-false v vs (rw other at h),
  )
]

has_value-of_All : (v : String) (vs : List String) → All (λ w. v ≢ w) vs → has_value v vs ≡ false
unfolding has_value any
has_value-of_All v [] h = refl
has_value-of_All v (w ∷ vs) h = rw (str_eq_of_ne v w h.0) (has_value-of_All v vs h.1)

has_value-append :
    (v : String) (xs ys : List String) → has_value v (xs ++ ys) ≡ (has_value v xs || has_value v ys)
unfolding has_value any
has_value-append v [] ys = refl
has_value-append v (x ∷ xs) ys = ground (arith, has_value-append v xs ys)

push_new-IsNormal : (acc : List String) (v : String) → IsNormal acc → IsNormal (push_new acc v)
unfolding push_new
push_new-IsNormal acc v h = elim (Bool-cases (is_empty v)) [
  | inl e ↦ rw (e, push_new) h
  | inr e ↦ elim (Bool-cases (has_value v acc)) [
    | inl f ↦ rw (e, f, push_new) h
    | inr f ↦
        rw (e, f, push_new)
          (
            All-append (λ w. is_empty w ≡ false) acc (v ∷ []) h.0 (e, tt),
            Pairwise-snoc ◌≢◌ acc v (λ a b ne same. ne (sym same)) h.1
                (All-of_has_value-false v acc f),
          )
  ]
]

normalize_onto-IsNormal : (acc vs : List String) → IsNormal acc → IsNormal (normalize_onto acc vs)
unfolding normalize_onto
normalize_onto-IsNormal acc [] h = h
normalize_onto-IsNormal acc (v ∷ vs) h =
    normalize_onto-IsNormal (push_new acc v) vs (push_new-IsNormal acc v h)

-- Of a list that is normal, an entry in the middle is not empty and not among those before it.
middle-new :
    (acc vs : List String) (v : String)
    → IsNormal (acc ++ v ∷ vs)
    → (is_empty v ≡ false) × All (λ w. v ≢ w) acc
middle-new [] vs v h = (h.0.0, tt)
middle-new (x ∷ acc) vs v h =
    let rest = middle-new acc vs v (h.0.1, h.1.1) in
    (rest.0, ((λ same. All-middle acc vs v h.1.0 (sym same)), rest.1))
  where
    All-middle :
        (acc vs : List String) (v : String) {x : String} → All (λ w. x ≢ w) (acc ++ v ∷ vs) → x ≢ v
    All-middle [] vs v h = h.0
    All-middle (y ∷ acc) vs v h = All-middle acc vs v h.1

-- A list that is normal with what stands before it is taken over as it is.
normalize_onto-of_normal :
    (acc vs : List String) → IsNormal (acc ++ vs) → normalize_onto acc vs ≡ acc ++ vs
unfolding normalize_onto push_new
normalize_onto-of_normal acc [] h = sym (append-nil acc)
normalize_onto-of_normal acc (v ∷ vs) h =
    let new = middle-new acc vs v h in
    let pushed : push_new acc v ≡ acc ++ v ∷ [] =
      rw (new.0, has_value-of_All v acc new.1, push_new) refl in
    rw pushed (
      normalize_onto-of_normal (acc ++ v ∷ []) vs
        (subst IsNormal (sym (append_assoc acc (v ∷ []) vs)) h)
      ∙ append_assoc acc (v ∷ []) vs)

has_value-push_new :
    (v : String) (acc : List String) (w : String)
    → has_value v (push_new acc w) ≡ (has_value v acc || (not (is_empty v) && str_eq v w))
unfolding push_new has_value any
has_value-push_new v acc w = elim (Bool-cases (is_empty w)) [
  | inl e ↦ rw (e, push_new) (unchanged (λ same. rw same (inl e)))
  | inr e ↦ elim (Bool-cases (has_value w acc)) [
    | inl f ↦ rw (e, f, push_new) (unchanged (λ same. rw same (inr f)))
    | inr f ↦
        rw (e, f, push_new)
          (has_value-append v acc (w ∷ []) ∙ ap (λ b. has_value v acc || b) (added e))
  ]
]
  where
    added : is_empty w ≡ false → (str_eq v w || false) ≡ (not (is_empty v) && str_eq v w)
    added e = elim (Bool-cases (str_eq v w)) [
      | inl f ↦ let same = (str_eq_iff v w).0 f in rw (f, ap is_empty same ∙ e) refl
      | inr f ↦ rw f (ground arith)
    ]

    unchanged :
        (v ≡ w → (is_empty v ≡ true) ⊎ (has_value v acc ≡ true))
        → has_value v acc ≡ (has_value v acc || (not (is_empty v) && str_eq v w))
    unchanged h = elim (Bool-cases (str_eq v w)) [
      | inl e ↦ elim (h ((str_eq_iff v w).0 e)) [ inl a ↦ rw a (ground arith) | inr a ↦ rw a refl ]
      | inr e ↦ rw e (ground arith)
    ]

has_value-normalize_onto :
    (v : String) (acc vs : List String)
    → has_value v (normalize_onto acc vs)
      ≡ (has_value v acc || (not (is_empty v) && has_value v vs))
unfolding normalize_onto has_value any
has_value-normalize_onto v acc [] = ground arith
has_value-normalize_onto v acc (w ∷ vs) =
    ground (arith, has_value-normalize_onto v (push_new acc w) vs, has_value-push_new v acc w)

-- The normal form of a list holds the values of the list that are not empty, each once, and is its
-- own normal form.
pub normalize-IsNormal :
    (vs : List String) (v : String)
    → IsNormal (normalize vs)
      × (has_value v (normalize vs) ≡ (not (is_empty v) && has_value v vs))
      × (normalize (normalize vs) ≡ normalize vs)
unfolding normalize any
normalize-IsNormal vs v =
    let normal = normalize_onto-IsNormal [] vs (tt, tt) in
    (normal, has_value-normalize_onto v [] vs, normalize_onto-of_normal [] (normalize vs) normal)

pub normalize-of_normal : (vs : List String) → IsNormal vs → normalize vs ≡ vs
unfolding normalize
normalize-of_normal vs h = normalize_onto-of_normal [] vs h

push_new-length : (acc : List String) (v : String) → length (push_new acc v) ≤ length acc + 1
unfolding push_new
push_new-length acc v =
    if-both (λ vs. length vs ≤ length acc + 1) (not (is_empty v) && not (has_value v acc))
      (acc ++ v ∷ []) acc (length-snoc acc) (omega arith)
  where
    length-snoc : (acc : List String) → length (acc ++ v ∷ []) ≤ length acc + 1
    length-snoc [] = omega arith
    length-snoc (x ∷ acc) = omega (arith, length-snoc acc)

normalize_onto-length :
    (acc vs : List String) → length (normalize_onto acc vs) ≤ length acc + length vs
unfolding normalize_onto
normalize_onto-length acc [] = omega arith
normalize_onto-length acc (v ∷ vs) =
    omega (arith, push_new-length acc v, normalize_onto-length (push_new acc v) vs)

pub normalize-length : (vs : List String) → length (normalize vs) ≤ length vs
unfolding normalize
normalize-length vs = omega (arith, normalize_onto-length [] vs)

push_new-All :
    (P : String → Type 0) (acc : List String) (v : String)
    → All P acc
    → P v
    → All P (push_new acc v)
unfolding push_new
push_new-All P acc v h p =
    if-both (All P) (not (is_empty v) && not (has_value v acc)) _ _
      (All-append P acc (v ∷ []) h (p, tt)) h

normalize_onto-All :
    (P : String → Type 0) (acc vs : List String)
    → All P acc
    → All P vs
    → All P (normalize_onto acc vs)
unfolding normalize_onto
normalize_onto-All P acc [] h k = h
normalize_onto-All P acc (v ∷ vs) h k =
    normalize_onto-All P (push_new acc v) vs (push_new-All P acc v h k.0) k.1

pub normalize-All : (P : String → Type 0) (vs : List String) → All P vs → All P (normalize vs)
unfolding normalize
normalize-All P vs h = normalize_onto-All P [] vs tt h
