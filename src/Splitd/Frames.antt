-- ===== src/Splitd/Frames.antt =====
-- splitd/src/proc_events.rs: the frames that the kernel sends are read as the events they tell of.
use proton_vpn_omarchy_core.Base.{
  ℕ, zero, suc, ◌+◌, ◌%◌, ◌^◌, ◌≤◌, ◌<◌, Bool, true, false, ◌==◌, List, [], ◌∷◌, ◌++◌, some, ◌≡◌,
  refl, ap, ◌∙◌, arith, length, take, leb,
}
use proton_vpn_omarchy_core.Splitd.Engine.{ProcessEvent, fork, exec, exit}
use proton_vpn_omarchy_core.Splitd.Connector.{
  Bytes, drop, slice, u16_of, u32_of, u16_bytes, u32_bytes, proc_event_fork, proc_event_exec,
  proc_event_exit,
}

pub length-append : (xs ys : Bytes) → length (xs ++ ys) ≡ length xs + length ys
length-append [] ys = omega arith
length-append (x ∷ xs) ys = omega (arith, length-append xs ys)

drop-append : (xs ys : Bytes) (i o : ℕ) → i ≡ length xs + o → drop i (xs ++ ys) ≡ drop o ys
drop-append [] ys i o e = ap (λ n. drop n ys) (omega arith)
drop-append (x ∷ xs) ys zero o e = absurd (omega arith)
drop-append (x ∷ xs) ys (suc i) o e = drop-append xs ys i o (omega arith)

take-append : (xs ys : Bytes) (n : ℕ) → length xs ≡ n → take n (xs ++ ys) ≡ xs
take-append [] ys zero e = refl
take-append [] ys (suc n) e = absurd (omega arith)
take-append (x ∷ xs) ys zero e = absurd (omega arith)
take-append (x ∷ xs) ys (suc n) e = ap (λ zs. x ∷ zs) (take-append xs ys n (omega arith))

slice-skip : (xs ys : Bytes) (i o n : ℕ) → i ≡ length xs + o → slice (xs ++ ys) i n ≡ slice ys o n
unfolding slice
slice-skip xs ys i o n e =
    let fits : leb (i + n) (length (xs ++ ys)) ≡ leb (o + n) (length ys) =
      shift (length xs) (i + n) (length (xs ++ ys)) (o + n) (length ys) (omega arith)
        (length-append xs ys) in
    rw (fits, drop-append xs ys i o e) refl
  where
    shift : (k a b m n : ℕ) → a ≡ k + m → b ≡ k + n → leb a b ≡ leb m n
    shift k a b m n h j = ground arith

pub slice-here : (xs ys : Bytes) (n : ℕ) → length xs ≡ n → slice (xs ++ ys) 0 n ≡ some xs
unfolding slice
slice-here xs ys n e =
    let fits : leb (0 + n) (length (xs ++ ys)) ≡ true =
      within n (length (xs ++ ys)) (omega (arith, length-append xs ys)) in
    rw (fits, take-append xs ys n e) refl
  where
    within : (m n : ℕ) → m ≤ n → leb (0 + m) n ≡ true
    within m n h = ground arith

-- Segments of a buffer, one after the other.
abbrev pub onto : List Bytes → Bytes → Bytes
onto [] b = b
onto (xs ∷ segments) b = xs ++ onto segments b

abbrev pub total : List Bytes → ℕ
total [] = 0
total (xs ∷ segments) = length xs + total segments

pub slice-onto :
    (segments : List Bytes) (b : Bytes) (i n o : ℕ)
    → i ≡ total segments + o
    → slice (onto segments b) i n ≡ slice b o n
slice-onto [] b i n o e = ap (λ k. slice b k n) (omega arith)
slice-onto (xs ∷ segments) b i n o e =
    slice-skip xs (onto segments b) i (total segments + o) n (omega arith)
    ∙ slice-onto segments b (total segments + o) n o refl

pub u32_of-u32_bytes : (little : Bool) (n : ℕ) → n < 2 ^ 32 → u32_of little (u32_bytes little n) ≡ n
unfolding u32_of u32_bytes
u32_of-u32_bytes true n h = omega arith
u32_of-u32_bytes false n h = omega arith

pub u16_of-u16_bytes : (little : Bool) (n : ℕ) → n < 2 ^ 16 → u16_of little (u16_bytes little n) ≡ n
unfolding u16_of u16_bytes
u16_of-u16_bytes true n h = omega arith
u16_of-u16_bytes false n h = omega arith

pub length-u32_bytes : (little : Bool) (n : ℕ) → length (u32_bytes little n) ≡ 4
unfolding u32_bytes
length-u32_bytes true n = refl
length-u32_bytes false n = refl

pub length-u16_bytes : (little : Bool) (n : ℕ) → length (u16_bytes little n) ≡ 2
unfolding u16_bytes
length-u16_bytes true n = refl
length-u16_bytes false n = refl

-- What a message of the kernel tells: an event, or one of another kind.
pub data Told : Type 0 where
  event : ProcessEvent → Told
  other : ℕ → Told

-- A message as the kernel lays it out. Beside what the code reads it has the rest of the two headers,
-- the time, the threads' own numbers, and what may follow.
pub record Message : Type 0 where
  pub told : Told
  pub headers : Bytes
  pub flags : Bytes
  pub stamp : Bytes
  pub first_thread : Bytes
  pub second_thread : Bytes
  pub tail : Bytes

abbrev pub what_of : Told → ℕ
what_of (event (fork parent child)) = proc_event_fork
what_of (event (exec pid)) = proc_event_exec
what_of (event (exit pid)) = proc_event_exit
what_of (other what) = what

module _ (little : Bool) where
  abbrev pub told_part : Message → Told → Bytes
  told_part m (event (fork parent child)) =
      m.first_thread
      ++ (u32_bytes little parent ++ (m.second_thread ++ (u32_bytes little child ++ m.tail)))
  told_part m (event (exec pid)) = m.first_thread ++ (u32_bytes little pid ++ m.tail)
  told_part m (event (exit pid)) = m.first_thread ++ (u32_bytes little pid ++ m.tail)
  told_part m (other what) = m.tail

  abbrev pub connector_part : Message → Bytes
  connector_part m = u32_bytes little (what_of m.told) ++ (m.stamp ++ told_part m m.told)

  unfoldable pub encode : Message → Bytes
  unfolding u32_bytes u16_bytes
  encode m =
      u32_bytes little (36 + length (connector_part m))
      ++ (m.headers
          ++ (u16_bytes little (length (connector_part m)) ++ (m.flags ++ connector_part m)))

  unfoldable pub encode_all : List Message → Bytes
  unfolding encode
  encode_all [] = []
  encode_all (m ∷ ms) = encode m ++ encode_all ms

abbrev pub events_of : List Message → List ProcessEvent
events_of [] = []
events_of (m ∷ ms) = elim m.told [ event e ↦ e ∷ events_of ms | other what ↦ events_of ms ]

abbrev pub HasNumbers : Told → Type 0
HasNumbers (event (fork parent child)) = (parent < 2 ^ 32) × (child < 2 ^ 32)
HasNumbers (event (exec pid)) = pid < 2 ^ 32
HasNumbers (event (exit pid)) = pid < 2 ^ 32
HasNumbers (other what) =
    (what < 2 ^ 32)
    × ((what == proc_event_fork) ≡ false)
    × ((what == proc_event_exec) ≡ false)
    × ((what == proc_event_exit) ≡ false)

-- The parts have the lengths that the kernel's structs give them, the numbers fit, and the message
-- ends where the next one may start.
pub record IsMessage (little : Bool) (m : Message) : Type 0 where
  pub headers_fit : length m.headers ≡ 28
  pub flags_fit : length m.flags ≡ 2
  pub stamp_fits : length m.stamp ≡ 12
  pub first_fits : length m.first_thread ≡ 4
  pub second_fits : length m.second_thread ≡ 4
  pub numbers_fit : HasNumbers m.told
  pub length_fits : length (connector_part little m) < 2 ^ 16
  pub ends_aligned : length (connector_part little m) % 4 ≡ 0
