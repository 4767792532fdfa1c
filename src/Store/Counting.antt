-- ===== src/Store/Counting.antt =====
-- How many entries of a list pass a test, as lists are sorted, cut and changed in agent/src/store.rs.
use proton_vpn_omarchy_core.Base.{
  ℕ, zero, suc, ◌+◌, ◌≤◌, Bool, true, false, not, List, [], ◌∷◌, ◌++◌, ◌≡◌, refl, ◌∙◌, inl, inr,
  arith, length, take, keep, any, update_first, Bool-cases,
}
use proton_vpn_omarchy_core.Store.Recents.{sort, insert_sorted}
use proton_vpn_omarchy_core.Store.Sorting.{length-keep-keep-le}

module _ {A : Type 0} (p : A → Bool) where
  unfoldable pub count : List A → ℕ
  unfolding keep
  count xs = length (keep p xs)

  count-insert_sorted :
      (before : A → A → Bool) (x : A) (xs : List A)
      → count (insert_sorted before x xs) ≡ count (x ∷ xs)
  unfolding count insert_sorted keep
  count-insert_sorted before x [] = refl
  count-insert_sorted before x (y ∷ ys) = ground (arith, count-insert_sorted before x ys)

  count-cons : (x : A) (xs ys : List A) → count xs ≡ count ys → count (x ∷ xs) ≡ count (x ∷ ys)
  unfolding count keep
  count-cons x xs ys h = ground arith

  pub count-sort : (before : A → A → Bool) (xs : List A) → count (sort before xs) ≡ count xs
  unfolding count sort keep
  count-sort before [] = refl
  count-sort before (x ∷ xs) =
      count-insert_sorted before x (sort before xs)
      ∙ count-cons x (sort before xs) xs (count-sort before xs)

  pub count-take : (n : ℕ) (xs : List A) → count (take n xs) ≤ count xs
  unfolding count keep
  count-take zero xs = omega arith
  count-take (suc n) [] = omega arith
  count-take (suc n) (x ∷ xs) = ground (arith, count-take n xs)

  pub count-append : (xs ys : List A) → count (xs ++ ys) ≡ count xs + count ys
  unfolding count keep
  count-append [] ys = omega arith
  count-append (x ∷ xs) ys = ground (arith, count-append xs ys)

  pub count-split :
      (q r : A → Bool) (xs : List A)
      → ((x : A) → r x ≡ not (q x))
      → count (keep q xs) + count (keep r xs) ≡ count xs
  unfolding count keep
  count-split q r [] h = refl
  count-split q r (x ∷ xs) h = ground (arith, h x, count-split q r xs h)

  pub count-hit : (x : A) (xs : List A) → p x ≡ true → count (x ∷ xs) ≡ count xs + 1
  unfolding count keep
  count-hit x xs h = ground arith

  pub count-miss : (x : A) (xs : List A) → p x ≡ false → count (x ∷ xs) ≡ count xs
  unfolding count keep
  count-miss x xs h = ground arith

  pub count-others : (xs : List A) → count (keep (λ x. not (p x)) xs) ≡ 0
  unfolding count keep
  count-others [] = refl
  count-others (x ∷ xs) = ground (arith, count-others xs)

  pub count-keep-le : (q : A → Bool) (xs : List A) → count (keep q xs) ≤ count xs
  unfolding count
  count-keep-le q xs = length-keep-keep-le p q xs

  pub count-update_first :
      (f : A → Bool) (u : A → A) (xs : List A)
      → ((x : A) → f x ≡ true → p (u x) ≡ p x)
      → count (update_first f u xs) ≡ count xs
  unfolding count keep update_first
  count-update_first f u [] h = refl
  count-update_first f u (x ∷ xs) h = elim (Bool-cases (f x)) [
    | inl e ↦ rw (e, update_first) (ground (arith, h x e))
    | inr e ↦ rw (e, update_first) (count-cons x _ _ (count-update_first f u xs h))
  ]

  pub count-of_none : (xs : List A) → any p xs ≡ false → count xs ≡ 0
  unfolding count keep any
  count-of_none [] h = refl
  count-of_none (x ∷ xs) h = ground (arith, count-of_none xs)
