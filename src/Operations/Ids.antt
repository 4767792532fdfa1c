-- ===== src/Operations/Ids.antt =====
-- agent/src/operations.rs: the identifier `op-{:016x}` of an operation.

use text.Mathlib.TextLemmas.{head-eq_of_cons-eq, tail-eq_of_cons-eq}
use native.Mathlib.Nat.{pow-suc}
use proton_vpn_omarchy_core.Base.{
  ℕ, zero, suc, ◌-◌, ◌/◌, ◌%◌, ◌^◌, ◌<◌, ◌≡◌, refl, sym, ◌∙◌, Char, code, String, Bool, true, ◌&&◌,
  arith, leb, ◌==◌, ==_iff, if◌then◌else◌, ap,
}

-- `next_id` is a `u64`.
abbrev pub u64_mod : ℕ
u64_mod = 2 ^ 64

unfoldable pub hex_digit : ℕ → Char
hex_digit d =
    if d == 0
    then "0"
    else if d == 1
    then "1"
    else if d == 2
    then "2"
    else if d == 3
    then "3"
    else if d == 4
    then "4"
    else if d == 5
    then "5"
    else if d == 6
    then "6"
    else if d == 7
    then "7"
    else if d == 8
    then "8"
    else if d == 9
    then "9"
    else if d == 10
    then "a"
    else if d == 11
    then "b"
    else if d == 12
    then "c"
    else if d == 13
    then "d"
    else if d == 14
    then "e"
    else "f"

-- `k` hexadecimal digits of `n`, most significant first, before `rest`.
unfoldable pub hex : ℕ → ℕ → String → String
hex zero n rest = rest
hex (suc k) n rest = hex k (n / 16) (String.◌∷◌ (hex_digit (n % 16)) rest)

-- A `u64` has at most the sixteen digits that the format pads to.
unfoldable pub format_id : ℕ → String
format_id n = String.◌∷◌ "o" (String.◌∷◌ "p" (String.◌∷◌ "-" (hex 16 n String.[])))

format_first : format_id 1 ≡ "op-0000000000000001"
unfolding format_id hex hex_digit
format_first = refl

format_some : format_id 0xab30 ≡ "op-000000000000ab30"
unfolding format_id hex hex_digit
format_some = refl

unfoldable pub digit_value : Char → ℕ
digit_value c = if leb (code c) 57 then code c - 48 else code c - 87

all_below : ℕ → (ℕ → Bool) → Bool
all_below zero p = true
all_below (suc n) p = p n && all_below n p

all_below_holds : (n : ℕ) (p : ℕ → Bool) (x : ℕ) → all_below n p ≡ true → x < n → p x ≡ true
unfolding all_below
all_below_holds zero p x h lt = absurd (omega arith)
all_below_holds (suc n) p x h lt = ground (arith, all_below_holds n p x)

digits_read_back : all_below 16 (λ d. digit_value (hex_digit d) == d) ≡ true
unfolding all_below digit_value hex_digit
digits_read_back = refl

pub digit_value-hex_digit : (d : ℕ) → d < 16 → digit_value (hex_digit d) ≡ d
digit_value-hex_digit d h = (==_iff _ d).0 (all_below_holds 16 _ d digits_read_back h)

hex_digit-cons :
    (a b : ℕ) (r s : String)
    → a < 16
    → b < 16
    → String.◌∷◌ (hex_digit a) r ≡ String.◌∷◌ (hex_digit b) s
    → (a ≡ b) × (r ≡ s)
hex_digit-cons a b r s ha hb e =
    let same : hex_digit a ≡ hex_digit b = head-eq_of_cons-eq e in
    (
      sym (digit_value-hex_digit a ha) ∙ ap digit_value same ∙ digit_value-hex_digit b hb,
      tail-eq_of_cons-eq e,
    )

hex-injective :
    (k m n : ℕ) (r s : String) → m < 16 ^ k → n < 16 ^ k → hex k m r ≡ hex k n s → (m ≡ n) × (r ≡ s)
unfolding hex
hex-injective zero m n r s hm hn e = (omega arith, e)
hex-injective (suc k) m n r s hm hn e =
    let (high, low) =
      hex-injective k (m / 16) (n / 16) _ _ (omega (arith, pow-suc 16 k))
        (omega (arith, pow-suc 16 k)) e in
    let (d, rest) = hex_digit-cons (m % 16) (n % 16) r s (omega arith) (omega arith) low in
    (omega arith, rest)

-- Different numbers have different identifiers.
pub format_id-injective : (m n : ℕ) → m < u64_mod → n < u64_mod → format_id m ≡ format_id n → m ≡ n
unfolding format_id
format_id-injective m n hm hn e =
    let tail = tail-eq_of_cons-eq (tail-eq_of_cons-eq (tail-eq_of_cons-eq e)) in
    (hex-injective 16 m n String.[] String.[] hm hn tail).0
