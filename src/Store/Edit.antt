-- ===== src/Store/Edit.antt =====
-- What the store's handlers do to `&mut` data: a fallible change gives the data as it is then, on an
-- error too, since a `?` leaves what was written before it.
use proton_vpn_omarchy_core.Base.{◌≡◌, refl}
use proton_vpn_omarchy_core.Backend.{Result, ok, err}

abbrev pub Edit : Type 0 → Type 0 → Type 0
Edit S A = S → S × Result A

module _ {S : Type 0} where
  abbrev pub proceed : {A B : Type 0} → (A → Edit S B) → S × Result A → S × Result B
  proceed f (s, ok a) = f a s
  proceed f (s, err e) = (s, err e)

  infixl 5 ◌>>=◌ ◌>>◌
  unfoldable pub ◌>>=◌ : {A B : Type 0} → Edit S A → (A → Edit S B) → Edit S B
  m >>= f = λ s. proceed f (m s)

  abbrev pub ◌>>◌ : {B : Type 0} → Edit S (Unit {0}) → Edit S B → Edit S B
  m >> k = m >>= λ _. k

  unfoldable pub done : {A : Type 0} → A → Edit S A
  done a = λ s. (s, ok a)

  unfoldable pub lift : {A : Type 0} → Result A → Edit S A
  lift r = λ s. (s, r)

  unfoldable pub reading : {A : Type 0} → (S → A) → Edit S A
  reading f = λ s. (s, ok (f s))

  unfoldable pub change : (S → S) → Edit S (Unit {0})
  change f = λ s. (f s, ok tt)

-- What a change keeps of the data, whether it succeeds or not.
pub record Keeps {S A : Type 0} (P : S → Type 0) (m : Edit S A) : Type 0 where
  pub at : (s : S) → P s → P (m s).0

module _ {S : Type 0} {P : S → Type 0} where
  pub Keeps-done : {A : Type 0} (a : A) → Keeps P (done a)
  unfolding done
  Keeps-done a = record { at = λ s h. h }

  pub Keeps-lift : {A : Type 0} (r : Result A) → Keeps P (lift r)
  unfolding lift
  Keeps-lift r = record { at = λ s h. h }

  pub Keeps-reading : {A : Type 0} (f : S → A) → Keeps P (reading f)
  unfolding reading
  Keeps-reading f = record { at = λ s h. h }

  pub Keeps-change : (f : S → S) → ((s : S) → P s → P (f s)) → Keeps P (change f)
  unfolding change
  Keeps-change f h = record { at = h }

  -- The rest of a change may use what a check gave.
  pub Keeps-bind-lift :
      {A B : Type 0} (r : Result A) (f : A → Edit S B)
      → ((a : A) → r ≡ ok a → Keeps P (f a))
      → Keeps P (lift r >>= f)
  unfolding ◌>>=◌ lift
  Keeps-bind-lift (ok a) f h = record { at = λ s p. (h a refl).at s p }
  Keeps-bind-lift (err e) f h = record { at = λ s p. p }

  pub Keeps-bind :
      {A B : Type 0} (m : Edit S A) (f : A → Edit S B)
      → Keeps P m
      → ((a : A) → Keeps P (f a))
      → Keeps P (m >>= f)
  unfolding ◌>>=◌
  Keeps-bind {A = A} m f h k = record { at = λ s p. onward (m s) (h.at s p) }
    where
      onward : (r : S × Result A) → P r.0 → P (proceed f r).0
      onward (t, ok a) q = (k a).at t q
      onward (t, err e) q = q

-- The same of one change at the data it meets, where what was read is that data.
module _ {S : Type 0} (P : S → Type 0) where
  pub after_reading :
      {A B : Type 0} (f : S → A) (k : A → Edit S B) (s : S)
      → P (k (f s) s).0
      → P ((reading f >>= k) s).0
  unfolding ◌>>=◌ reading
  after_reading f k s h = h

  pub after_lift :
      {A B : Type 0} (r : Result A) (k : A → Edit S B) (s : S)
      → P s
      → ((a : A) → r ≡ ok a → P (k a s).0)
      → P ((lift r >>= k) s).0
  unfolding ◌>>=◌ lift
  after_lift (ok a) k s p h = h a refl
  after_lift (err e) k s p h = p

  pub after_change :
      {B : Type 0} (f : S → S) (b : B) (s : S) → P (f s) → P ((change f >>= λ _. done b) s).0
  unfolding ◌>>=◌ change done
  after_change f b s h = h

pub ruleset keeps_rules = (Keeps-done, Keeps-lift, Keeps-reading, Keeps-bind)
