-- ===== src/Base/Tests.antt =====
-- Boolean tests on the native numbers, the conditional, and the ways to split on a computed value.
use Prim.Native.Nat.{ℕ, ◌≤◌, compare, Ordering}
use mathlib.Core.Path.{◌≡◌, refl}
use mathlib.Core.Logic.{◌↔◌, ◌⊎◌, inl, inr}
use mathlib.Core.Bool.{Bool, true, false}
use mathlib.Core.Option.{Option, none, some}
use native.Mathlib.Omega.{arith}

abbrev pub ltb : ℕ → ℕ → Bool
ltb a b = elim (compare a b) [ Ordering.lt ↦ true | _ ↦ false ]

abbrev pub leb : ℕ → ℕ → Bool
leb a b = elim (compare a b) [ Ordering.gt ↦ false | _ ↦ true ]

infix 50 ◌==◌
abbrev pub ◌==◌ : ℕ → ℕ → Bool
a == b = elim (compare a b) [ Ordering.eq ↦ true | _ ↦ false ]

infix 1 if◌then◌else◌
abbrev pub if◌then◌else◌ {ℓ} : {A : Type ℓ} → Bool → A → A → A
if true then x else y = x
if false then x else y = y

-- What holds of both branches holds of the conditional.
pub if-both {ℓ κ} :
    {A : Type ℓ} (P : A → Type κ) (b : Bool) (x y : A) → P x → P y → P (if b then x else y)
if-both P true x y p q = p
if-both P false x y p q = q

pub leb→le : (a b : ℕ) → leb a b ≡ true → a ≤ b
leb→le a b h = ground arith

pub ==_iff : (a b : ℕ) → ((a == b) ≡ true) ↔ (a ≡ b)
==_iff a b = ground arith

pub Bool-cases : (b : Bool) → (b ≡ true) ⊎ (b ≡ false)
Bool-cases true = inl refl
Bool-cases false = inr refl

module _ {ℓ} {A : Type ℓ} where
  pub Option-cases : (o : Option A) → (o ≡ none) ⊎ ((a : A) × (o ≡ some a))
  Option-cases none = inl refl
  Option-cases (some a) = inr (a, refl)

  abbrev pub is_some : Option A → Bool
  is_some none = false
  is_some (some a) = true

  -- `Option::or_else` on a value at hand, and `Option::unwrap_or`.
  abbrev pub or_else : Option A → Option A → Option A
  or_else none o = o
  or_else (some a) o = some a

  abbrev pub unwrap_or : Option A → A → A
  unwrap_or none d = d
  unwrap_or (some a) d = a

  -- `Option::filter`.
  abbrev pub keep_if : (A → Bool) → Option A → Option A
  keep_if p none = none
  keep_if p (some a) = if p a then some a else none

  -- What `if let Some(a)` makes of `b`.
  abbrev pub if_some {κ} : {B : Type κ} → Option A → (A → B) → B → B
  if_some none f b = b
  if_some (some a) f b = f a

  -- `Option::and_then`, `Option::map`.
  abbrev pub and_then {κ} : {B : Type κ} → Option A → (A → Option B) → Option B
  and_then none f = none
  and_then (some a) f = f a

  abbrev pub map_some {κ} : {B : Type κ} → (A → B) → Option A → Option B
  map_some f none = none
  map_some f (some a) = some (f a)

pub if_some-both {ℓ κ μ} :
    {A : Type ℓ} {B : Type κ} (P : B → Type μ) (o : Option A) (f : A → B) (b : B)
    → ((a : A) → P (f a))
    → P b
    → P (if_some o f b)
if_some-both P none f b h k = k
if_some-both P (some a) f b h k = h a
