-- ===== src/Base/Passing.antt =====
-- Lists of which an element is known to pass a test.
use mathlib.Core.Path.{◌≡◌, refl}
use mathlib.Core.Bool.{Bool, true, false, ◌||◌}
use mathlib.Core.Option.{some}
use mathlib.Core.List.{List, [], ◌∷◌, ◌++◌}
use Prim.Native.Nat.{ℕ, zero, suc, ◌≤◌}
use native.Mathlib.Omega.{arith}
use proton_vpn_omarchy_core.Base.Lists.{any, find, take, update_first, remove_first}

pub or_left : (a b : Bool) → a ≡ true → (a || b) ≡ true
or_left a b h = ground arith

pub or_right : (a b : Bool) → b ≡ true → (a || b) ≡ true
or_right a b h = ground arith

module _ {ℓ} {A : Type ℓ} (p : A → Bool) where
  pub any-snoc : (xs : List A) (y : A) → any p xs ≡ true → any p (xs ++ y ∷ []) ≡ true
  unfolding any
  any-snoc [] y h = absurd (let no : ⊥ = cc in no)
  any-snoc (x ∷ xs) y h = ground (arith, any-snoc xs y)

  pub any-update_first :
      (q : A → Bool) (u : A → A) (xs : List A)
      → ((x : A) → p (u x) ≡ p x)
      → any p (update_first q u xs) ≡ any p xs
  unfolding any update_first
  any-update_first q u [] same = refl
  any-update_first q u (x ∷ xs) same = ground (arith, same x, any-update_first q u xs same)

  pub any-remove_first :
      (q : A → Bool) (xs : List A) (x : A)
      → find q xs ≡ some x
      → any p xs ≡ true
      → p x ≡ false
      → any p (remove_first q xs) ≡ true
  unfolding any find remove_first
  any-remove_first q [] x found h other = absurd (let no : ⊥ = cc in no)
  any-remove_first q (y ∷ ys) x found h other = ground (arith, any-remove_first q ys x)

  pub any-take : (n : ℕ) (xs : List A) → any p (take n xs) ≡ true → any p xs ≡ true
  unfolding any
  any-take zero xs h = absurd (let no : ⊥ = cc in no)
  any-take (suc n) [] h = h
  any-take (suc n) (x ∷ xs) h = ground (arith, any-take n xs)

  pub any-take-suc :
      (k : ℕ) (xs : List A) → any p (take k xs) ≡ true → any p (take (suc k) xs) ≡ true
  unfolding any
  any-take-suc zero xs h = absurd (let no : ⊥ = cc in no)
  any-take-suc (suc k) [] h = h
  any-take-suc (suc k) (x ∷ xs) h = ground (arith, any-take-suc k xs)

  pub any-take-take :
      (k n : ℕ) (xs : List A) → k ≤ n → any p (take k xs) ≡ true → any p (take k (take n xs)) ≡ true
  unfolding any
  any-take-take zero n xs h e = e
  any-take-take (suc k) zero xs h e = absurd (omega arith)
  any-take-take (suc k) (suc n) [] h e = e
  any-take-take (suc k) (suc n) (x ∷ xs) h e =
      let rest = any-take-take k n xs (omega arith) in ground arith

  pub any-last : (xs : List A) (y : A) → p y ≡ true → any p (xs ++ y ∷ []) ≡ true
  unfolding any
  any-last [] y h = or_left _ _ h
  any-last (x ∷ xs) y h = or_right _ _ (any-last xs y h)

  pub any-left : (xs ys : List A) → any p xs ≡ true → any p (xs ++ ys) ≡ true
  unfolding any
  any-left [] ys h = absurd (let no : ⊥ = cc in no)
  any-left (x ∷ xs) ys h = ground (arith, any-left xs ys)

  pub any-right : (xs ys : List A) → any p ys ≡ true → any p (xs ++ ys) ≡ true
  unfolding any
  any-right [] ys h = h
  any-right (x ∷ xs) ys h = or_right _ _ (any-right xs ys h)

pub any_mono {ℓ} :
    {A : Type ℓ} (p q : A → Bool) (xs : List A)
    → ((x : A) → p x ≡ true → q x ≡ true)
    → any p xs ≡ true
    → any q xs ≡ true
unfolding any
any_mono p q [] f h = h
any_mono p q (x ∷ xs) f h = ground (arith, f x, any_mono p q xs f)
