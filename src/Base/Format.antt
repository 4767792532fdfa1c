-- ===== src/Base/Format.antt =====
-- Texts by their characters: the calls of `str`, `String` and `format!` that count, cut, split and
-- join.
use Prim.Native.Nat.{ℕ, zero, suc, ◌/◌, ◌%◌}
use Prim.Native.Char.{Char, code}
use Prim.Native.String.{String}
use Prim.Native.String.{◌++◌ as append}
use mathlib.Core.Path.{◌≡◌, refl}
use mathlib.Core.Bool.{Bool, true, false, ◌&&◌, ◌||◌}
use mathlib.Core.List.{List, [], ◌∷◌}
use proton_vpn_omarchy_core.Base.Tests.{leb, ltb, if◌then◌else◌, ◌==◌ as nat_eq}
use proton_vpn_omarchy_core.Base.Text.{str_eq, to_ascii_lowercase, nth_or}

abbrev pub same_char : Char → Char → Bool
same_char c d = nat_eq (code c) (code d)

-- `chars().count()`, `chars().take(n)`.
unfoldable pub char_count : String → ℕ
char_count String.[] = 0
char_count (String.◌∷◌ c s) = suc (char_count s)

unfoldable pub take_chars : ℕ → String → String
take_chars zero s = String.[]
take_chars (suc n) String.[] = String.[]
take_chars (suc n) (String.◌∷◌ c s) = String.◌∷◌ c (take_chars n s)

-- `format!` of its pieces.
abbrev pub concat : List String → String
concat [] = String.[]
concat (s ∷ ss) = append s (concat ss)

-- `replace` of one character by another.
unfoldable pub replace_char : Char → Char → String → String
replace_char c d String.[] = String.[]
replace_char c d (String.◌∷◌ e s) = String.◌∷◌ (if same_char e c then d else e) (replace_char c d s)

-- `split` at a character, and `join`.
abbrev pub onto_first : Char → List String → List String
onto_first c [] = String.◌∷◌ c String.[] ∷ []
onto_first c (w ∷ ws) = String.◌∷◌ c w ∷ ws

unfoldable pub split_at_char : Char → String → List String
split_at_char d String.[] = String.[] ∷ []
split_at_char d (String.◌∷◌ c s) =
    let rest = split_at_char d s in if same_char c d then String.[] ∷ rest else onto_first c rest

unfoldable pub join_with : String → List String → String
join_with sep [] = String.[]
join_with sep (w ∷ []) = w
join_with sep (w ∷ v ∷ ws) = append w (append sep (join_with sep (v ∷ ws)))

unfoldable pub all_chars : (Char → Bool) → String → Bool
all_chars p String.[] = true
all_chars p (String.◌∷◌ c s) = p c && all_chars p s

-- `is_ascii_alphabetic`, `is_ascii_alphanumeric`: a byte of a character beyond ASCII is neither.
abbrev pub is_ascii_digit : Char → Bool
is_ascii_digit c = leb b'0' (code c) && leb (code c) b'9'

abbrev pub is_ascii_alphabetic : Char → Bool
is_ascii_alphabetic c =
    leb b'A' (code c) && leb (code c) b'Z' || leb b'a' (code c) && leb (code c) b'z'

abbrev pub is_ascii_alphanumeric : Char → Bool
is_ascii_alphanumeric c = is_ascii_alphabetic c || is_ascii_digit c

-- `eq_ignore_ascii_case`.
abbrev pub eq_ignore_ascii_case : String → String → Bool
eq_ignore_ascii_case s t = str_eq (to_ascii_lowercase s) (to_ascii_lowercase t)

-- `contains(['\0', '\n', '\r'])`.
unfoldable pub has_break : String → Bool
has_break String.[] = false
has_break (String.◌∷◌ c s) =
    nat_eq (code c) 0 || nat_eq (code c) 10 || nat_eq (code c) 13 || has_break s

-- A number in decimal digits, before `rest`.
unfoldable pub decimal_digit : ℕ → Char
decimal_digit d = nth_or "0123456789" d "9"

unfoldable pub decimal_onto : ℕ → ℕ → String → String
unfolding decimal_digit
decimal_onto zero n rest = rest
decimal_onto (suc fuel) n rest = elim (ltb n 10) [
  | true ↦ String.◌∷◌ (decimal_digit n) rest
  | false ↦ decimal_onto fuel (n / 10) (String.◌∷◌ (decimal_digit (n % 10)) rest)
]

-- A number has at most as many digits as it counts, and one more.
unfoldable pub decimal : ℕ → String
unfolding decimal_onto
decimal n = decimal_onto (suc n) n String.[]

decimal_some : decimal 1207 ≡ "1207"
unfolding decimal
decimal_some = refl

split_some : split_at_char "-" "es-MX--a" ≡ ("es" ∷ "MX" ∷ String.[] ∷ "a" ∷ [])
unfolding split_at_char
split_some = refl

join_some : join_with "-" ("es" ∷ "MX" ∷ "a" ∷ []) ≡ "es-MX-a"
unfolding join_with
join_some = refl
