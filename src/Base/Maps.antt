-- ===== src/Base/Maps.antt =====
-- Maps with numbers for keys, as association lists: `BTreeMap` and `HashMap` of the code.
use Prim.Native.Nat.{ℕ}
use mathlib.Core.Path.{◌≡◌, refl}
use mathlib.Core.Bool.{Bool, true, false, ◌||◌}
use mathlib.Core.Option.{Option, none, some}
use mathlib.Core.List.{List, [], ◌∷◌, map}
use native.Mathlib.Omega.{arith}
use proton_vpn_omarchy_core.Base.Tests.{◌==◌, if◌then◌else◌, is_some}

abbrev pub Map : Type 0 → Type 0
Map A = List (ℕ × A)

module _ {A : Type 0} where
  unfoldable pub lookup : ℕ → Map A → Option A
  lookup k [] = none
  lookup k ((j, a) ∷ m) = if j == k then some a else lookup k m

  unfoldable pub insert : ℕ → A → Map A → Map A
  insert k a [] = (k, a) ∷ []
  insert k a ((j, b) ∷ m) = if j == k then (k, a) ∷ m else (j, b) ∷ insert k a m

  unfoldable pub remove : ℕ → Map A → Map A
  remove k [] = []
  remove k ((j, b) ∷ m) = let rest = remove k m in if j == k then rest else (j, b) ∷ rest

  abbrev pub has_key : ℕ → Map A → Bool
  has_key k m = is_some (lookup k m)

  abbrev pub keys : Map A → List ℕ
  keys = map (λ e. e.0)

  unfoldable pub any_value : (A → Bool) → Map A → Bool
  any_value p [] = false
  any_value p ((k, a) ∷ m) = p a || any_value p m

  pub lookup-insert :
      (k j : ℕ) (a : A) (m : Map A)
      → lookup j (insert k a m) ≡ (if k == j then some a else lookup j m)
  unfolding lookup insert
  lookup-insert k j a [] = refl
  lookup-insert k j a ((i, b) ∷ m) = ground (arith, lookup-insert k j a m)

  pub lookup-remove :
      (k j : ℕ) (m : Map A) → lookup j (remove k m) ≡ (if k == j then none else lookup j m)
  unfolding lookup remove
  lookup-remove k j [] = ground arith
  lookup-remove k j ((i, b) ∷ m) = ground (arith, lookup-remove k j m)

  -- What a map gives for every key.
  abbrev pub SameMap : Map A → Map A → Type 0
  SameMap m n = (k : ℕ) → lookup k m ≡ lookup k n

  -- Setting a key back to what it had, or to nothing, undoes an insertion.
  unfoldable pub restore : ℕ → Option A → Map A → Map A
  restore k none m = remove k m
  restore k (some a) m = insert k a m

  pub lookup-restore :
      (k j : ℕ) (o : Option A) (m : Map A)
      → lookup j (restore k o m) ≡ (if k == j then o else lookup j m)
  unfolding restore
  lookup-restore k j none m = lookup-remove k j m
  lookup-restore k j (some a) m = lookup-insert k j a m

  pub restore-insert :
      (k : ℕ) (a : A) (m : Map A) → SameMap (restore k (lookup k m) (insert k a m)) m
  restore-insert k a m j =
      ground (arith, lookup-restore k j (lookup k m) (insert k a m), lookup-insert k j a m)

  pub restore-remove : (k : ℕ) (m : Map A) → SameMap (restore k (lookup k m) (remove k m)) m
  restore-remove k m j =
      ground (arith, lookup-restore k j (lookup k m) (remove k m), lookup-remove k j m)

  -- A value that some key has passes a test if every key's value does.
  pub any_value-of_lookup :
      (p : A → Bool) (k : ℕ) (a : A) (m : Map A)
      → lookup k m ≡ some a
      → p a ≡ true
      → any_value p m ≡ true
  unfolding lookup any_value
  any_value-of_lookup p k a [] e h = cc
  any_value-of_lookup p k a ((j, b) ∷ m) e h = ground (arith, any_value-of_lookup p k a m)
