-- ===== src/Io.antt =====
-- `io::Result` and the actions of the daemon and of the store: a function of a state that gives the
-- next state and a result, and what holds before and after one.
use proton_vpn_omarchy_core.Base.{Bool, true, false, String, if◌then◌else◌, ◌≡◌, refl}

-- `io::ErrorKind`, as far as the code sets or tests one; another error of the kernel is `other`.
pub data ErrorKind : Type 0 where
  invalid_input unsupported invalid_data already_exists not_found other : ErrorKind

pub record IoError : Type 0 where
  pub kind : ErrorKind
  pub message : String

pub data IoResult (A : Type 0) : Type 0 where
  ok : A → IoResult A
  failed : IoError → IoResult A

abbrev pub Act : Type 0 → Type 0 → Type 0
Act S A = S → S × IoResult A

module _ {S : Type 0} where
  -- `?`: an error ends the action.
  abbrev pub proceed : {A B : Type 0} → (A → Act S B) → S × IoResult A → S × IoResult B
  proceed f (s, ok a) = f a s
  proceed f (s, failed e) = (s, failed e)

  infixl 5 ◌>>=◌ ◌>>◌
  abbrev pub ◌>>=◌ : {A B : Type 0} → Act S A → (A → Act S B) → Act S B
  m >>= f = λ s. proceed f (m s)

  abbrev pub ◌>>◌ : {B : Type 0} → Act S (Unit {0}) → Act S B → Act S B
  m >> k = m >>= λ _. k

  abbrev pub done : {A : Type 0} → A → Act S A
  done a = λ s. (s, ok a)

  abbrev pub fail : {A : Type 0} → IoError → Act S A
  fail e = λ s. (s, failed e)

  abbrev pub current : Act S S
  current = λ s. (s, ok s)

  abbrev pub change : (S → S) → Act S (Unit {0})
  change f = λ s. (f s, ok tt)

  -- The result as a value, for `if let Err(error) = …` and `let _ = …`.
  abbrev pub observed : {A : Type 0} → S × IoResult A → S × IoResult (IoResult A)
  observed (s, r) = (s, ok r)

  abbrev pub attempt : {A : Type 0} → Act S A → Act S (IoResult A)
  attempt m = λ s. observed (m s)

  -- `if let Err(error) = … { undo; return Err(error) }`.
  abbrev pub undone_by : {A : Type 0} → Act S (Unit {0}) → S × IoResult A → S × IoResult A
  undone_by undo (s, ok a) = (s, ok a)
  undone_by undo (s, failed e) = (do undo; fail e) s

  abbrev pub or_undo : {A : Type 0} → Act S A → Act S (Unit {0}) → Act S A
  or_undo m undo = λ s. undone_by undo (m s)

  -- What holds at the end of an action: one statement for success and one for an error.
  abbrev pub After : {A : Type 0} → (A → S → Type 0) → (S → Type 0) → S × IoResult A → Type 0
  After Q E (s, ok a) = Q a s
  After Q E (s, failed e) = E s

  abbrev pub Triple :
      {A : Type 0} → (S → Type 0) → Act S A → (A → S → Type 0) → (S → Type 0) → Type 0
  Triple P m Q E = (s : S) → P s → After Q E (m s)

  pub bind-Triple :
      {A B : Type 0} (P : S → Type 0) (m : Act S A) (R : A → S → Type 0) (f : A → Act S B)
      (Q : B → S → Type 0) (E : S → Type 0)
      → Triple P m R E
      → ((a : A) → Triple (R a) (f a) Q E)
      → Triple P (m >>= f) Q E
  bind-Triple {A = A} P m R f Q E first next s p = onward (m s) (first s p)
    where
      onward : (r : S × IoResult A) → After R E r → After Q E (proceed f r)
      onward (t, ok a) h = next a t h
      onward (t, failed e) h = h

  pub attempt-Triple :
      {A : Type 0} (P : S → Type 0) (m : Act S A) (R : S → Type 0) (E : S → Type 0)
      → Triple P m (λ _. R) R
      → Triple P (attempt m) (λ _. R) E
  attempt-Triple {A = A} P m R E h s p = onward (m s) (h s p)
    where
      onward : (r : S × IoResult A) → After (λ _. R) R r → After (λ _. R) E (observed r)
      onward (t, ok a) h = h
      onward (t, failed e) h = h

  -- What an action keeps, whether it succeeds or not.
  abbrev pub Keeps : {A : Type 0} → (S → Type 0) → Act S A → Type 0
  Keeps P m = Triple P m (λ _. P) P

  pub After-both :
      {A : Type 0} (P : S → Type 0) (s : S) (r : IoResult A) → P s → After (λ _. P) P (s, r)
  After-both P s (ok a) h = h
  After-both P s (failed e) h = h

  pub bind-Keeps :
      {A B : Type 0} (P : S → Type 0) (m : Act S A) (f : A → Act S B)
      → Keeps P m
      → ((a : A) → Keeps P (f a))
      → Keeps P (m >>= f)
  bind-Keeps P m f h k = bind-Triple P m (λ _. P) f (λ _. P) P h k

  pub attempt-Keeps : {A : Type 0} (P : S → Type 0) (m : Act S A) → Keeps P m → Keeps P (attempt m)
  attempt-Keeps P m h = attempt-Triple P m P P h

  -- A weaker statement of what an action keeps.
  pub weaken-Keeps :
      {A : Type 0} (P : S → Type 0) (m : Act S A) (E : S → Type 0)
      → Keeps P m
      → ((s : S) → P s → E s)
      → Triple P m (λ _. P) E
  weaken-Keeps {A = A} P m E h weaker s p = onward (m s) (h s p)
    where
      onward : (r : S × IoResult A) → After (λ _. P) P r → After (λ _. P) E r
      onward (t, ok a) k = k
      onward (t, failed e) k = weaker t k

  pub or_undo-Triple :
      {A : Type 0} (P : S → Type 0) (m : Act S A) (undo : Act S (Unit {0})) (Q : A → S → Type 0)
      (R E : S → Type 0)
      → Triple P m Q R
      → Triple R undo (λ _. E) E
      → Triple P (or_undo m undo) Q E
  or_undo-Triple {A = A} P m undo Q R E first back s p = onward (m s) (first s p)
    where
      failed-both :
          (e : IoError) (r : S × IoResult (Unit {0}))
          → After (λ _. E) E r
          → After Q E (proceed (λ _. fail e) r)
      failed-both e (t, ok u) h = h
      failed-both e (t, failed f) h = h

      onward : (r : S × IoResult A) → After Q R r → After Q E (undone_by undo r)
      onward (t, ok a) h = h
      onward (t, failed e) h = failed-both e (undo t) (back t h)

  pub After-mono :
      {A : Type 0} (Q R : A → S → Type 0) (E F : S → Type 0) (r : S × IoResult A)
      → ((a : A) (s : S) → Q a s → R a s)
      → ((s : S) → E s → F s)
      → After Q E r
      → After R F r
  After-mono Q R E F (s, ok a) f g h = f a s h
  After-mono Q R E F (s, failed e) f g h = g s h

  pub if-After :
      {A : Type 0} (Q : A → S → Type 0) (E : S → Type 0) (b : Bool) (m n : Act S A) (s : S)
      → (b ≡ true → After Q E (m s))
      → (b ≡ false → After Q E (n s))
      → After Q E ((if b then m else n) s)
  if-After Q E true m n s f g = f refl
  if-After Q E false m n s f g = g refl

  -- What holds on success and on error holds of the state.
  pub After-state :
      {A : Type 0} (Q : A → S → Type 0) (E P : S → Type 0) (r : S × IoResult A)
      → ((a : A) (s : S) → Q a s → P s)
      → ((s : S) → E s → P s)
      → After Q E r
      → P r.0
  After-state Q E P (s, ok a) f g h = f a s h
  After-state Q E P (s, failed e) f g h = g s h

  pub proceed-proceed :
      {A B C : Type 0} (r : S × IoResult A) (f : A → Act S B) (g : B → Act S C)
      → proceed g (proceed f r) ≡ proceed (λ a s. proceed g (f a s)) r
  proceed-proceed (s, ok a) f g = refl
  proceed-proceed (s, failed e) f g = refl
