-- ===== src/Base/Pigeonhole.antt =====
-- More candidates than there are values: one is free.
use Prim.Native.Nat.{ℕ, zero, suc, ◌≤◌, ◌<◌}
use mathlib.Core.Path.{◌≡◌, refl, ap}
use mathlib.Core.Logic.{inl, inr}
use mathlib.Core.Bool.{Bool, true}
use mathlib.Core.List.{List, [], ◌∷◌}
use native.Mathlib.Omega.{arith}
use proton_vpn_omarchy_core.Base.Tests.{Bool-cases}
use proton_vpn_omarchy_core.Base.Lists.{length, any, remove_first}

module _ {A : Type 0} where
  any-remove_first :
      (p q : A → Bool) (xs : List A)
      → ((x : A) → p x ≡ true → q x ≡ true → ⊥)
      → any p xs ≡ true
      → any p (remove_first q xs) ≡ true
  unfolding any remove_first
  any-remove_first p q [] apart h = h
  any-remove_first p q (x ∷ xs) apart h = elim (Bool-cases (q x)) [
    | inl e ↦
        rw (e, remove_first)
          (elim (Bool-cases (p x)) [ inl f ↦ absurd (apart x f e) | inr f ↦ rw f at h ])
    | inr e ↦
        rw (e, remove_first)
          (elim (Bool-cases (p x)) [
            | inl f ↦ rw f refl
            | inr f ↦ rw f (any-remove_first p q xs apart (rw f at h))
          ])
  ]

  length-remove_first :
      (q : A → Bool) (xs : List A) → any q xs ≡ true → length xs ≡ suc (length (remove_first q xs))
  unfolding any remove_first
  length-remove_first q [] h = absurd (let no : ⊥ = cc in no)
  length-remove_first q (x ∷ xs) h = elim (Bool-cases (q x)) [
    | inl e ↦ rw (e, remove_first) refl
    | inr e ↦ rw (e, remove_first) (ap suc (length-remove_first q xs (rw e at h)))
  ]

  -- If each number below `n` hits a value, and no value is hit by two, there are `n` values.
  pub pigeonhole :
      (hits : ℕ → A → Bool) (n : ℕ) (xs : List A)
      → ((x : A) (i j : ℕ) → i < n → j < n → hits i x ≡ true → hits j x ≡ true → i ≡ j)
      → ((i : ℕ) → i < n → any (hits i) xs ≡ true)
      → n ≤ length xs
  pigeonhole hits zero xs once h = omega arith
  pigeonhole hits (suc n) xs once h =
      let here = h n (omega arith) in
      let rest = remove_first (hits n) xs in
      let shorter = length-remove_first (hits n) xs here in
      let fewer =
        pigeonhole hits n rest (λ x i j hi hj. once x i j (omega arith) (omega arith))
          (λ i hi.
            any-remove_first (hits i) (hits n) xs
              (λ x p q. let same = once x i n (omega arith) (omega arith) p q in omega arith)
              (h i (omega arith))) in
      omega (arith, fewer, shorter)
