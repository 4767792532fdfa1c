-- ===== src/Base/Lists.antt =====
-- Lists measured by native numbers, searches with a Boolean test, and predicates on lists.
use Prim.Native.Nat.{ℕ, zero, suc, ◌≤◌}
use mathlib.Core.Path.{◌≡◌, refl, sym, ap, subst}
use mathlib.Core.Logic.{inl, inr}
use mathlib.Core.Bool.{Bool, true, false, ◌||◌}
use mathlib.Core.Option.{Option, none, some}
use mathlib.Core.List.{List, [], ◌∷◌, ◌++◌, map, Memᴰ}
use mathlib.Core.List.Memᴰ.{head, tail}
use native.Mathlib.Omega.{arith}
use proton_vpn_omarchy_core.Base.Tests.{if◌then◌else◌, if-both, Bool-cases}

module _ {ℓ} {A : Type ℓ} where
  abbrev pub length : List A → ℕ
  length [] = 0
  length (x ∷ xs) = suc (length xs)

  abbrev pub take : ℕ → List A → List A
  take zero xs = []
  take (suc n) [] = []
  take (suc n) (x ∷ xs) = x ∷ take n xs

  -- `iter().find`, `iter().any`, `iter().filter`.
  unfoldable pub find : (A → Bool) → List A → Option A
  find p [] = none
  find p (x ∷ xs) = if p x then some x else find p xs

  unfoldable pub any : (A → Bool) → List A → Bool
  any p [] = false
  any p (x ∷ xs) = p x || any p xs

  unfoldable pub keep : (A → Bool) → List A → List A
  keep p [] = []
  keep p (x ∷ xs) = let rest = keep p xs in if p x then x ∷ rest else rest

  abbrev pub All {κ} : (A → Type κ) → List A → Type κ
  All P [] = Unit
  All P (x ∷ xs) = P x × All P xs

  -- The first match, as `iter_mut().find` changes it and as `position` with `remove` takes it out.
  unfoldable pub update_first : (A → Bool) → (A → A) → List A → List A
  update_first p u [] = []
  update_first p u (x ∷ xs) = if p x then u x ∷ xs else x ∷ update_first p u xs

  unfoldable pub remove_first : (A → Bool) → List A → List A
  remove_first p [] = []
  remove_first p (x ∷ xs) = if p x then xs else x ∷ remove_first p xs

  abbrev pub Pairwise {κ} : (A → A → Type κ) → List A → Type κ
  Pairwise R [] = Unit
  Pairwise R (x ∷ xs) = All (R x) xs × Pairwise R xs

  pub All-append {κ} : (P : A → Type κ) (xs ys : List A) → All P xs → All P ys → All P (xs ++ ys)
  All-append P [] ys h k = k
  All-append P (x ∷ xs) ys h k = (h.0, All-append P xs ys h.1 k)

  pub All-mono {κ μ} :
      {P : A → Type κ} {Q : A → Type μ} (xs : List A) → ((x : A) → P x → Q x) → All P xs → All Q xs
  All-mono [] f h = tt
  All-mono (x ∷ xs) f h = (f x h.0, All-mono xs f h.1)

  pub All-take {κ} : (P : A → Type κ) (n : ℕ) (xs : List A) → All P xs → All P (take n xs)
  All-take P zero xs h = tt
  All-take P (suc n) [] h = tt
  All-take P (suc n) (x ∷ xs) h = (h.0, All-take P n xs h.1)

  pub length-take-le : (n : ℕ) (xs : List A) → length (take n xs) ≤ n
  length-take-le zero xs = omega arith
  length-take-le (suc n) [] = omega arith
  length-take-le (suc n) (x ∷ xs) = omega (arith, length-take-le n xs)

  -- An entry at the end keeps a symmetric relation between all pairs.
  pub Pairwise-snoc {κ} :
      (R : A → A → Type κ) (xs : List A) (y : A)
      → ((a b : A) → R a b → R b a)
      → Pairwise R xs
      → All (R y) xs
      → Pairwise R (xs ++ y ∷ [])
  Pairwise-snoc R [] y s h k = (tt, tt)
  Pairwise-snoc R (x ∷ xs) y s h k =
      (All-append (R x) xs (y ∷ []) h.0 (s y x k.0, tt), Pairwise-snoc R xs y s h.1 k.1)

  pub All-remove_first {κ} :
      (P : A → Type κ) (p : A → Bool) (xs : List A) → All P xs → All P (remove_first p xs)
  unfolding remove_first
  All-remove_first P p [] h = tt
  All-remove_first P p (x ∷ xs) h =
      if-both (All P) (p x) xs (x ∷ remove_first p xs) h.1 (h.0, All-remove_first P p xs h.1)

  pub All-update_first {κ} :
      (P : A → Type κ) (p : A → Bool) (u : A → A) (xs : List A)
      → ((x : A) → P x → P (u x))
      → All P xs
      → All P (update_first p u xs)
  unfolding update_first
  All-update_first P p u [] f h = tt
  All-update_first P p u (x ∷ xs) f h =
      if-both (All P) (p x) (u x ∷ xs) (x ∷ update_first p u xs) (f x h.0, h.1)
        (h.0, All-update_first P p u xs f h.1)

  -- `find` gives an entry that passes the test, and its failure says that none does.
  pub All-of_find-none : (p : A → Bool) (xs : List A) → find p xs ≡ none → All (λ x. p x ≡ false) xs
  unfolding find
  All-of_find-none p [] e = tt
  All-of_find-none p (x ∷ xs) e = elim (Bool-cases (p x)) [
    | inl hit ↦ let e' = rw hit at e in cc
    | inr miss ↦ (miss, All-of_find-none p xs (rw miss at e))
  ]

  pub find-holds : (p : A → Bool) (xs : List A) (x : A) → find p xs ≡ some x → p x ≡ true
  unfolding find
  find-holds p [] x e = cc
  find-holds p (y ∷ ys) x e = elim (Bool-cases (p y)) [
    | inl hit ↦ let e' = rw hit at e in let same : y ≡ x = cc in subst (λ z. p z ≡ true) same hit
    | inr miss ↦ find-holds p ys x (rw miss at e)
  ]

  pub find-All {κ} :
      (P : A → Type κ) (p : A → Bool) (xs : List A) (x : A) → find p xs ≡ some x → All P xs → P x
  unfolding find
  find-All P p [] x e h = absurd (let no : ⊥ = cc in no)
  find-All P p (y ∷ ys) x e h = elim (Bool-cases (p y)) [
    | inl hit ↦ let e' = rw hit at e in let same : y ≡ x = cc in subst P same h.0
    | inr miss ↦ find-All P p ys x (rw miss at e) h.1
  ]

pub All-Memᴰ {ℓ κ} :
    {A : Type ℓ} (P : A → Type κ) (xs : List A) (x : A) → All P xs → Memᴰ x xs → P x
All-Memᴰ P [] x h mem = elim mem [ ]
All-Memᴰ P (y ∷ ys) x h (head e) = subst P (sym e) h.0
All-Memᴰ P (y ∷ ys) x h (tail mem) = All-Memᴰ P ys x h.1 mem

module _ {ℓ} {A : Type ℓ} (p : A → Bool) where
  -- An entry behind others that fail the test.
  pub find-snoc :
      (xs : List A) (y : A)
      → All (λ x. p x ≡ false) xs
      → p y ≡ true
      → find p (xs ++ y ∷ []) ≡ some y
  unfolding find
  find-snoc [] y h e = rw e
  find-snoc (x ∷ xs) y h e = rw h.0 (find-snoc xs y h.1 e)

  pub remove_first-snoc :
      (xs : List A) (y : A)
      → All (λ x. p x ≡ false) xs
      → p y ≡ true
      → remove_first p (xs ++ y ∷ []) ≡ xs
  unfolding remove_first
  remove_first-snoc [] y h e = rw e
  remove_first-snoc (x ∷ xs) y h e = rw h.0 (ap (λ ys. x ∷ ys) (remove_first-snoc xs y h.1 e))

module _ {ℓ κ μ} {A : Type ℓ} {B : Type κ} (g : A → B) where
  pub All-map : (P : B → Type μ) (xs : List A) → All (λ x. P (g x)) xs → All P (map g xs)
  All-map P [] h = tt
  All-map P (x ∷ xs) h = (h.0, All-map P xs h.1)

  pub All-map-remove_first :
      (P : B → Type μ) (p : A → Bool) (xs : List A)
      → All P (map g xs)
      → All P (map g (remove_first p xs))
  unfolding remove_first
  All-map-remove_first P p [] h = tt
  All-map-remove_first P p (x ∷ xs) h =
      if-both (λ ys. All P (map g ys)) (p x) xs (x ∷ remove_first p xs) h.1
        (h.0, All-map-remove_first P p xs h.1)

  pub Pairwise-map-remove_first :
      (R : B → B → Type μ) (p : A → Bool) (xs : List A)
      → Pairwise R (map g xs)
      → Pairwise R (map g (remove_first p xs))
  unfolding remove_first
  Pairwise-map-remove_first R p [] h = tt
  Pairwise-map-remove_first R p (x ∷ xs) h =
      if-both (λ ys. Pairwise R (map g ys)) (p x) xs (x ∷ remove_first p xs) h.1
        (All-map-remove_first (R (g x)) p xs h.0, Pairwise-map-remove_first R p xs h.1)

module _ {ℓ κ} {A : Type ℓ} {B : Type κ} (g : A → B) where
  pub All-of_map {μ} : (P : B → Type μ) (xs : List A) → All P (map g xs) → All (λ x. P (g x)) xs
  All-of_map P [] h = tt
  All-of_map P (x ∷ xs) h = (h.0, All-of_map P xs h.1)

  -- A change that keeps `g` keeps the list of its values.
  pub map-update_first :
      (p : A → Bool) (u : A → A) (xs : List A)
      → ((x : A) → g (u x) ≡ g x)
      → map g (update_first p u xs) ≡ map g xs
  unfolding update_first
  map-update_first p u [] f = refl
  map-update_first p u (x ∷ xs) f = ground (arith, f x, map-update_first p u xs f)
