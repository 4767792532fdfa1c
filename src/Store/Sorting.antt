-- ===== src/Store/Sorting.antt =====
-- Lists that are filtered and sorted, as agent/src/store.rs does with recents.
use proton_vpn_omarchy_core.Base.{
  ℕ, zero, suc, ◌≤◌, Bool, true, false, List, [], ◌∷◌, ◌++◌, ◌≡◌, refl, ap, subst, inl, inr, ◌⊎◌,
  arith, length, take, keep, All, All-mono, All-Memᴰ, Pairwise, Memᴰ, if-both, Bool-cases,
}
use mathlib.Core.List.Memᴰ.{head, tail}
use proton_vpn_omarchy_core.Store.Recents.{insert_sorted, sort}

module _ {A : Type 0} where
  pub keep-All : (P : A → Type 0) (p : A → Bool) (xs : List A) → All P xs → All P (keep p xs)
  unfolding keep
  keep-All P p [] h = tt
  keep-All P p (x ∷ xs) h =
      if-both (All P) (p x) (x ∷ keep p xs) (keep p xs) (h.0, keep-All P p xs h.1)
        (keep-All P p xs h.1)

  pub keep-holds : (p : A → Bool) (xs : List A) → All (λ x. p x ≡ true) (keep p xs)
  unfolding keep
  keep-holds p [] = tt
  keep-holds p (x ∷ xs) = elim (Bool-cases (p x)) [
    | inl e ↦ rw (e, keep) (e, keep-holds p xs)
    | inr e ↦ rw (e, keep) (keep-holds p xs)
  ]

  pub keep-of_All : (p : A → Bool) (xs : List A) → All (λ x. p x ≡ true) xs → keep p xs ≡ xs
  unfolding keep
  keep-of_All p [] h = refl
  keep-of_All p (x ∷ xs) h = rw h.0 (ap (λ ys. x ∷ ys) (keep-of_All p xs h.1))

  pub keep-of_none : (p : A → Bool) (xs : List A) → All (λ x. p x ≡ false) xs → keep p xs ≡ []
  unfolding keep
  keep-of_none p [] h = refl
  keep-of_none p (x ∷ xs) h = rw h.0 (keep-of_none p xs h.1)

  pub keep-append : (p : A → Bool) (xs ys : List A) → keep p (xs ++ ys) ≡ keep p xs ++ keep p ys
  unfolding keep
  keep-append p [] ys = refl
  keep-append p (x ∷ xs) ys = elim (Bool-cases (p x)) [
    | inl e ↦ rw (e, keep) (ap (λ zs. x ∷ zs) (keep-append p xs ys))
    | inr e ↦ rw (e, keep) (keep-append p xs ys)
  ]

  pub keep-Memᴰ : (p : A → Bool) (xs : List A) (x : A) → Memᴰ x xs → p x ≡ true → Memᴰ x (keep p xs)
  unfolding keep
  keep-Memᴰ p [] x mem e = elim mem [ ]
  keep-Memᴰ p (y ∷ ys) x (head same) e =
      let f : p y ≡ true = subst (λ z. p z ≡ true) same e in rw f (head same)
  keep-Memᴰ p (y ∷ ys) x (tail mem) e =
      if-both (Memᴰ x) (p y) (y ∷ keep p ys) (keep p ys) (tail (keep-Memᴰ p ys x mem e))
        (keep-Memᴰ p ys x mem e)

  pub length-keep-le : (p : A → Bool) (xs : List A) → length (keep p xs) ≤ length xs
  unfolding keep
  length-keep-le p [] = omega arith
  length-keep-le p (x ∷ xs) =
      if-both (λ ys. length ys ≤ suc (length xs)) (p x) (x ∷ keep p xs) (keep p xs)
        (omega (arith, length-keep-le p xs)) (omega (arith, length-keep-le p xs))

  pub length-keep-keep-le :
      (p q : A → Bool) (xs : List A) → length (keep p (keep q xs)) ≤ length (keep p xs)
  unfolding keep
  length-keep-keep-le p q [] = omega arith
  length-keep-keep-le p q (x ∷ xs) = ground (arith, length-keep-keep-le p q xs)

  pub take-of_short : (n : ℕ) (xs : List A) → length xs ≤ n → take n xs ≡ xs
  take-of_short zero [] h = refl
  take-of_short zero (x ∷ xs) h = absurd (omega arith)
  take-of_short (suc n) [] h = refl
  take-of_short (suc n) (x ∷ xs) h = ap (λ ys. x ∷ ys) (take-of_short n xs (omega arith))

  pub All-of_All_mem : (P : A → Type 0) (xs : List A) → ((x : A) → Memᴰ x xs → P x) → All P xs
  All-of_All_mem P [] f = tt
  All-of_All_mem P (x ∷ xs) f = (f x (head refl), All-of_All_mem P xs (λ y mem. f y (tail mem)))

  pub Memᴰ-append_left : (x : A) (xs ys : List A) → Memᴰ x xs → Memᴰ x (xs ++ ys)
  Memᴰ-append_left x [] ys mem = elim mem [ ]
  Memᴰ-append_left x (z ∷ xs) ys (head e) = head e
  Memᴰ-append_left x (z ∷ xs) ys (tail mem) = tail (Memᴰ-append_left x xs ys mem)

  pub Memᴰ-append_right : (x : A) (xs ys : List A) → Memᴰ x ys → Memᴰ x (xs ++ ys)
  Memᴰ-append_right x [] ys mem = mem
  Memᴰ-append_right x (z ∷ xs) ys mem = tail (Memᴰ-append_right x xs ys mem)

  pub Pairwise-take :
      (R : A → A → Type 0) (n : ℕ) (xs : List A) → Pairwise R xs → Pairwise R (take n xs)
  Pairwise-take R zero xs h = tt
  Pairwise-take R (suc n) [] h = tt
  Pairwise-take R (suc n) (x ∷ xs) h = (all n xs h.0, Pairwise-take R n xs h.1)
    where
      all : (n : ℕ) (xs : List A) → All (R x) xs → All (R x) (take n xs)
      all zero xs h = tt
      all (suc n) [] h = tt
      all (suc n) (y ∷ ys) h = (h.0, all n ys h.1)

  -- Of a list in order, an entry is among the first or behind every one of them.
  pub take-or_after :
      (R : A → A → Type 0) (n : ℕ) (xs : List A) (x : A)
      → Pairwise R xs
      → Memᴰ x xs
      → Memᴰ x (take n xs) ⊎ ((length (take n xs) ≡ n) × All (λ y. R y x) (take n xs))
  take-or_after R zero xs x h mem = inr (refl, tt)
  take-or_after R (suc n) [] x h mem = elim mem [ ]
  take-or_after R (suc n) (y ∷ ys) x h (head e) = inl (head e)
  take-or_after R (suc n) (y ∷ ys) x h (tail mem) = elim (take-or_after R n ys x h.1 mem) [
    | inl m ↦ inl (tail m)
    | inr k ↦ inr (ap suc k.0, (All-Memᴰ (R y) ys x h.0 mem, k.1))
  ]

module _ {A : Type 0} (before : A → A → Bool) where
  pub insert_sorted-All :
      (P : A → Type 0) (x : A) (xs : List A) → P x → All P xs → All P (insert_sorted before x xs)
  unfolding insert_sorted
  insert_sorted-All P x [] p h = (p, tt)
  insert_sorted-All P x (y ∷ ys) p h =
      if-both (All P) (before x y) (x ∷ y ∷ ys) (y ∷ insert_sorted before x ys) (p, h)
        (h.0, insert_sorted-All P x ys p h.1)

  pub sort-All : (P : A → Type 0) (xs : List A) → All P xs → All P (sort before xs)
  unfolding sort
  sort-All P [] h = tt
  sort-All P (x ∷ xs) h = insert_sorted-All P x (sort before xs) h.0 (sort-All P xs h.1)

  insert_sorted-Memᴰ-new : (x y : A) (xs : List A) → x ≡ y → Memᴰ x (insert_sorted before y xs)
  unfolding insert_sorted
  insert_sorted-Memᴰ-new x y [] e = head e
  insert_sorted-Memᴰ-new x y (z ∷ zs) e =
      if-both (Memᴰ x) (before y z) (y ∷ z ∷ zs) (z ∷ insert_sorted before y zs) (head e)
        (tail (insert_sorted-Memᴰ-new x y zs e))

  insert_sorted-Memᴰ-old : (x y : A) (xs : List A) → Memᴰ x xs → Memᴰ x (insert_sorted before y xs)
  unfolding insert_sorted
  insert_sorted-Memᴰ-old x y [] mem = elim mem [ ]
  insert_sorted-Memᴰ-old x y (z ∷ zs) (head e) =
      if-both (Memᴰ x) (before y z) (y ∷ z ∷ zs) (z ∷ insert_sorted before y zs) (tail (head e))
        (head e)
  insert_sorted-Memᴰ-old x y (z ∷ zs) (tail mem) =
      if-both (Memᴰ x) (before y z) (y ∷ z ∷ zs) (z ∷ insert_sorted before y zs) (tail (tail mem))
        (tail (insert_sorted-Memᴰ-old x y zs mem))

  pub sort-Memᴰ : (x : A) (xs : List A) → Memᴰ x xs → Memᴰ x (sort before xs)
  unfolding sort
  sort-Memᴰ x [] mem = elim mem [ ]
  sort-Memᴰ x (y ∷ ys) (head e) = insert_sorted-Memᴰ-new x y (sort before ys) e
  sort-Memᴰ x (y ∷ ys) (tail mem) = insert_sorted-Memᴰ-old x y (sort before ys) (sort-Memᴰ x ys mem)

  abbrev pub Before : A → A → Type 0
  Before x y = before x y ≡ true

  module _ (total : (x y : A) → before x y ≡ false → before y x ≡ true)
      (trans : (x y z : A) → before x y ≡ true → before y z ≡ true → before x z ≡ true) where
    insert_sorted-Pairwise :
        (x : A) (xs : List A) → Pairwise Before xs → Pairwise Before (insert_sorted before x xs)
    unfolding insert_sorted
    insert_sorted-Pairwise x [] h = (tt, tt)
    insert_sorted-Pairwise x (y ∷ ys) h = elim (Bool-cases (before x y)) [
      | inl e ↦ rw (e, insert_sorted) ((e, All-mono ys (λ z k. trans x y z e k) h.0), h)
      | inr e ↦
          rw (e, insert_sorted)
            (insert_sorted-All (Before y) x ys (total x y e) h.0, insert_sorted-Pairwise x ys h.1)
    ]

    pub sort-Pairwise : (xs : List A) → Pairwise Before (sort before xs)
    unfolding sort
    sort-Pairwise [] = tt
    sort-Pairwise (x ∷ xs) = insert_sorted-Pairwise x (sort before xs) (sort-Pairwise xs)

  insert_sorted-first :
      (x : A) (xs : List A) → All (Before x) xs → insert_sorted before x xs ≡ x ∷ xs
  unfolding insert_sorted
  insert_sorted-first x [] h = refl
  insert_sorted-first x (y ∷ ys) h = rw h.0 refl

  -- A list in order stays as it is.
  pub sort-of_sorted : (xs : List A) → Pairwise Before xs → sort before xs ≡ xs
  unfolding sort
  sort-of_sorted [] h = refl
  sort-of_sorted (x ∷ xs) h = rw (sort-of_sorted xs h.1) (insert_sorted-first x xs h.0)
