-- ===== src/Base/Letters.antt =====
-- What the two changes of case do to letters and digits.
use Prim.Native.Nat.{ℕ, zero, suc, ◌+◌, ◌-◌, ◌<◌}
use Prim.Native.Char.{Char, code}
use Prim.Native.String.{String}
use mathlib.Core.Path.{◌≡◌, refl, sym, ap, ◌∙◌}
use mathlib.Core.Logic.{inl, inr}
use mathlib.Core.Bool.{Bool, true, false, ◌&&◌, ◌||◌}
use native.Mathlib.Omega.{arith}
use proton_vpn_omarchy_core.Base.Tests.{leb, Bool-cases}
use proton_vpn_omarchy_core.Base.Text.{
  nth_or, upper, lower, to_ascii_uppercase, byte_length, char_bytes,
}
use proton_vpn_omarchy_core.Base.Format.{is_ascii_digit, is_ascii_alphabetic, all_chars}

-- A test on the numbers below a bound, which computes, and what it gives for each.
unfoldable pub all_below : ℕ → (ℕ → Bool) → Bool
all_below zero p = true
all_below (suc n) p = p n && all_below n p

pub all_below_holds : (n : ℕ) (p : ℕ → Bool) (x : ℕ) → all_below n p ≡ true → x < n → p x ≡ true
unfolding all_below
all_below_holds zero p x h lt = absurd (omega arith)
all_below_holds (suc n) p x h lt = ground (arith, all_below_holds n p x)

abbrev is_capital : Char → Bool
is_capital c = leb b'A' (code c) && leb (code c) b'Z'

abbrev is_small : Char → Bool
is_small c = leb b'a' (code c) && leb (code c) b'z'

-- A letter of a table of 26.
capital_letters :
    (c : Char) → all_below 26 (λ n. is_capital (nth_or "ABCDEFGHIJKLMNOPQRSTUVWXYZ" n c)) ≡ true
unfolding all_below
capital_letters c = refl

small_letters :
    (c : Char) → all_below 26 (λ n. is_small (nth_or "abcdefghijklmnopqrstuvwxyz" n c)) ≡ true
unfolding all_below
small_letters c = refl

upper-of_small : (c : Char) → is_small c ≡ true → is_capital (upper c) ≡ true
unfolding upper
upper-of_small c h =
    rw h (all_below_holds 26 _ (code c - b'a') (capital_letters c) (below (code c) h))
  where
    below : (n : ℕ) → (leb b'a' n && leb n b'z') ≡ true → n - b'a' < 26
    below n h = ground arith

lower-of_capital : (c : Char) → is_capital c ≡ true → is_small (lower c) ≡ true
unfolding lower
lower-of_capital c h =
    rw h (all_below_holds 26 _ (code c - b'A') (small_letters c) (below (code c) h))
  where
    below : (n : ℕ) → (leb b'A' n && leb n b'Z') ≡ true → n - b'A' < 26
    below n h = ground arith

pub upper-of_other : (c : Char) → is_small c ≡ false → upper c ≡ c
unfolding upper
upper-of_other c h = rw h refl

pub lower-of_other : (c : Char) → is_capital c ≡ false → lower c ≡ c
unfolding lower
lower-of_other c h = rw h refl

capital_code : (n : ℕ) → (leb b'A' n && leb n b'Z') ≡ true → (leb b'a' n && leb n b'z') ≡ false
capital_code n h = ground arith

small_code : (n : ℕ) → (leb b'a' n && leb n b'z') ≡ true → (leb b'A' n && leb n b'Z') ≡ false
small_code n h = ground arith

-- What `upper` gives is no small letter, so a second time changes nothing.
pub upper-upper : (c : Char) → upper (upper c) ≡ upper c
upper-upper c = elim (Bool-cases (is_small c)) [
  | inl h ↦ upper-of_other (upper c) (capital_code (code (upper c)) (upper-of_small c h))
  | inr h ↦ ap upper (upper-of_other c h)
]

pub to_ascii_uppercase_idem :
    (s : String) → to_ascii_uppercase (to_ascii_uppercase s) ≡ to_ascii_uppercase s
unfolding to_ascii_uppercase
to_ascii_uppercase_idem String.[] = refl
to_ascii_uppercase_idem (String.◌∷◌ c s) =
    rw (upper-upper c) (ap (λ t. String.◌∷◌ (upper c) t) (to_ascii_uppercase_idem s))

char_bytes-ascii : (c : Char) → leb (code c) 0x7f ≡ true → char_bytes c ≡ 1
char_bytes-ascii c h = rw h refl

-- A letter stays a letter, of one byte.
pub upper-alphabetic :
    (c : Char)
    → is_ascii_alphabetic c ≡ true
    → (is_ascii_alphabetic (upper c) ≡ true) × (char_bytes (upper c) ≡ char_bytes c)
upper-alphabetic c h = elim (Bool-cases (is_small c)) [
  | inl s ↦
      let k = upper-of_small c s in
      (
        capital_is_letter (code (upper c)) k,
        char_bytes-ascii (upper c) (capital_ascii _ k) ∙ sym (char_bytes-ascii c (small_ascii _ s)),
      )
  | inr o ↦ (ap is_ascii_alphabetic (upper-of_other c o) ∙ h, ap char_bytes (upper-of_other c o))
]
  where
    capital_is_letter :
        (n : ℕ)
        → (leb b'A' n && leb n b'Z') ≡ true
        → (leb b'A' n && leb n b'Z' || leb b'a' n && leb n b'z') ≡ true
    capital_is_letter n k = ground arith

    small_ascii : (n : ℕ) → (leb b'a' n && leb n b'z') ≡ true → leb n 0x7f ≡ true
    small_ascii n k = ground arith

    capital_ascii : (n : ℕ) → (leb b'A' n && leb n b'Z') ≡ true → leb n 0x7f ≡ true
    capital_ascii n k = ground arith

pub uppercase-alphabetic :
    (s : String)
    → all_chars is_ascii_alphabetic s ≡ true
    → (all_chars is_ascii_alphabetic (to_ascii_uppercase s) ≡ true)
      × (byte_length (to_ascii_uppercase s) ≡ byte_length s)
unfolding to_ascii_uppercase all_chars byte_length
uppercase-alphabetic String.[] h = (refl, refl)
uppercase-alphabetic (String.◌∷◌ c s) h =
    let first = upper-alphabetic c (head_true (is_ascii_alphabetic c) _ h) in
    let rest = uppercase-alphabetic s (tail_true (is_ascii_alphabetic c) _ h) in
    (rw (first.0) rest.0, both (char_bytes (upper c)) (char_bytes c) _ _ first.1 rest.1)
  where
    head_true : (a b : Bool) → (a && b) ≡ true → a ≡ true
    head_true a b h = ground arith

    tail_true : (a b : Bool) → (a && b) ≡ true → b ≡ true
    tail_true a b h = ground arith

    both : (a b x y : ℕ) → a ≡ b → x ≡ y → a + x ≡ b + y
    both a b x y e f = omega arith

-- A change to lower case neither makes nor takes a digit.
pub lower-digit :
    (c : Char)
    → (is_ascii_digit c ≡ true → lower c ≡ c) × (is_ascii_digit (lower c) ≡ is_ascii_digit c)
lower-digit c = elim (Bool-cases (is_capital c)) [
  | inl h ↦ (
    (λ d. absurd (no_both (code c) h d)),
    no_digit (code (lower c)) (lower-of_capital c h) ∙ sym (not_digit (code c) h),
  )
  | inr h ↦ ((λ d. lower-of_other c h), ap is_ascii_digit (lower-of_other c h))
]
  where
    no_both : (n : ℕ) → (leb b'A' n && leb n b'Z') ≡ true → (leb b'0' n && leb n b'9') ≡ true → ⊥
    no_both n h d = ground arith

    no_digit : (n : ℕ) → (leb b'a' n && leb n b'z') ≡ true → (leb b'0' n && leb n b'9') ≡ false
    no_digit n h = ground arith

    not_digit : (n : ℕ) → (leb b'A' n && leb n b'Z') ≡ true → (leb b'0' n && leb n b'9') ≡ false
    not_digit n h = ground arith
