-- ===== src/Store/Checks.antt =====
-- The checks of agent/src/store.rs in a row, each ending the function with its error, and what is
-- known of a value that they all let through.
use proton_vpn_omarchy_core.Base.{
  Bool, true, false, Option, none, some, if◌then◌else◌, ◌≡◌, refl, ap, subst,
}
use proton_vpn_omarchy_core.Backend.{BackendError, Result, ok, err}

-- `ok_or_else`.
unfoldable pub require : {A : Type 0} → Option A → BackendError → Result A
require none e = err e
require (some a) e = ok a

-- `if … { return Err(…) }`.
unfoldable pub refuse_if : Bool → BackendError → Result (Unit {0})
refuse_if b e = if b then err e else ok tt

-- `?`.
infixl 5 ◌>>=◌ ◌>>◌
unfoldable pub ◌>>=◌ : {A B : Type 0} → Result A → (A → Result B) → Result B
ok a >>= f = f a
err e >>= f = err e

abbrev pub ◌>>◌ : {B : Type 0} → Result (Unit {0}) → Result B → Result B
m >> k = m >>= λ _. k

-- What is known of the value of a result that is no error.
pub record OnOk {A : Type 0} (P : A → Type 0) (r : Result A) : Type 0 where
  pub at : (a : A) → r ≡ ok a → P a

module _ {A : Type 0} {P : A → Type 0} where
  pub OnOk-ok : (a : A) → P a → OnOk P (ok a)
  OnOk-ok a p = record { at = λ b e. subst P (let same : a ≡ b = cc in same) p }

  pub OnOk-err : (e : BackendError) → OnOk P (err e)
  OnOk-err e = record { at = λ b f. absurd (let no : ⊥ = cc in no) }

  pub OnOk-bind :
      {B : Type 0} (r : Result B) (f : B → Result A)
      → ((b : B) → r ≡ ok b → OnOk P (f b))
      → OnOk P (r >>= f)
  unfolding ◌>>=◌
  OnOk-bind (ok b) f h = h b refl
  OnOk-bind (err e) f h = OnOk-err e

  pub OnOk-if :
      (b : Bool) (r s : Result A)
      → (b ≡ true → OnOk P r)
      → (b ≡ false → OnOk P s)
      → OnOk P (if b then r else s)
  OnOk-if true r s h k = h refl
  OnOk-if false r s h k = k refl

  pub OnOk-mono : {Q : A → Type 0} (r : Result A) → ((a : A) → Q a → P a) → OnOk Q r → OnOk P r
  OnOk-mono r f h = record { at = λ a e. f a (h.at a e) }

pub refuse_if-ok : (b : Bool) (e : BackendError) {u : Unit {0}} → refuse_if b e ≡ ok u → b ≡ false
unfolding refuse_if
refuse_if-ok true e h = absurd (let no : ⊥ = cc in no)
refuse_if-ok false e h = refl

pub require-ok :
    {A : Type 0} (o : Option A) (e : BackendError) (a : A) → require o e ≡ ok a → o ≡ some a
unfolding require
require-ok none e a h = absurd (let no : ⊥ = cc in no)
require-ok (some b) e a h = let same : b ≡ a = cc in ap some same
