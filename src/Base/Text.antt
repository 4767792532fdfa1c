-- ===== src/Base/Text.antt =====
-- Texts: equality, the match on a text literal, and the library calls on `str` that the code makes.
use Prim.Native.Nat.{ℕ, zero, suc, ◌+◌, ◌-◌}
use Prim.Native.Char.{Char, code}
use Prim.Native.String.{String}
use mathlib.Core.Path.{◌≡◌, refl, sym, subst}
use mathlib.Core.Logic.{◌≢◌, inl, inr}
use mathlib.Core.Bool.{Bool, true, false, ◌||◌, ◌&&◌}
use mathlib.Core.Option.{Option, none, some}
use mathlib.Core.List.{List, [], ◌∷◌, map}
pub use text.Mathlib.Text.{◌==◌ as str_eq}
pub use text.Mathlib.TextEquality.{eq_iff as str_eq_iff}
pub use text.Mathlib.TextPositions.{eq_refl as str_eq_refl}
use proton_vpn_omarchy_core.Base.Tests.{
  leb, if◌then◌else◌, if-both, is_some, Bool-cases, ◌==◌ as nat_eq,
}
use proton_vpn_omarchy_core.Base.Lists.{All}

-- A `match` on text literals: the first arm whose literal is the text, or the last arm.
module _ {ℓ} {A : Type ℓ} where
  unfoldable pub select : String → List (String × A) → A → A
  select s [] d = d
  select s ((k, a) ∷ arms) d = if str_eq s k then a else select s arms d

  -- What holds of every arm holds of the arm taken.
  pub select-All {κ} :
      (P : A → Type κ) (s : String) (arms : List (String × A)) (d : A)
      → All (λ arm. P arm.1) arms
      → P d
      → P (select s arms d)
  unfolding select
  select-All P s [] d h hd = hd
  select-All P s ((k, a) ∷ arms) d h hd =
      if-both P (str_eq s k) a (select s arms d) h.0 (select-All P s arms d h.1 hd)

-- `matches!` on text literals.
unfoldable pub is_one_of : String → List String → Bool
is_one_of s [] = false
is_one_of s (k ∷ ks) = str_eq s k || is_one_of s ks

abbrev pub is_empty : String → Bool
is_empty String.[] = true
is_empty (String.◌∷◌ c s) = false

pub str_eq_of_ne : (a b : String) → a ≢ b → str_eq a b ≡ false
str_eq_of_ne a b ne = elim (Bool-cases (str_eq a b)) [
  | inl same ↦ absurd (ne ((str_eq_iff a b).0 same))
  | inr other ↦ other
]

-- `str::to_ascii_uppercase` and `to_ascii_lowercase`.
abbrev pub nth_or : String → ℕ → Char → Char
nth_or String.[] n d = d
nth_or (String.◌∷◌ c s) zero d = c
nth_or (String.◌∷◌ c s) (suc n) d = nth_or s n d

unfoldable pub upper : Char → Char
upper c =
    if leb b'a' (code c) && leb (code c) b'z'
    then nth_or "ABCDEFGHIJKLMNOPQRSTUVWXYZ" (code c - b'a') c
    else c

unfoldable pub lower : Char → Char
lower c =
    if leb b'A' (code c) && leb (code c) b'Z'
    then nth_or "abcdefghijklmnopqrstuvwxyz" (code c - b'A') c
    else c

unfoldable pub to_ascii_uppercase : String → String
unfolding upper
to_ascii_uppercase String.[] = String.[]
to_ascii_uppercase (String.◌∷◌ c s) = String.◌∷◌ (upper c) (to_ascii_uppercase s)

unfoldable pub to_ascii_lowercase : String → String
unfolding lower
to_ascii_lowercase String.[] = String.[]
to_ascii_lowercase (String.◌∷◌ c s) = String.◌∷◌ (lower c) (to_ascii_lowercase s)

uppercase_code : to_ascii_uppercase "de-Z" ≡ "DE-Z"
unfolding to_ascii_uppercase
uppercase_code = refl

-- `char::is_control`, and whether a text has such a character.
abbrev is_control : Char → Bool
is_control c = leb (code c) 0x1f || (leb 0x7f (code c) && leb (code c) 0x9f)

unfoldable pub has_control : String → Bool
has_control String.[] = false
has_control (String.◌∷◌ c s) = is_control c || has_control s

-- `char::is_whitespace`.
abbrev pub is_whitespace : Char → Bool
is_whitespace c =
    let n = code c in
    (leb 9 n && leb n 13)
    || leb n 32 && leb 32 n
    || nat_eq n 0x85
    || nat_eq n 0xa0
    || nat_eq n 0x1680
    || leb 0x2000 n && leb n 0x200a
    || nat_eq n 0x2028
    || nat_eq n 0x2029
    || nat_eq n 0x202f
    || nat_eq n 0x205f
    || nat_eq n 0x3000

-- `str::trim`.
unfoldable pub trim_start : String → String
trim_start String.[] = String.[]
trim_start (String.◌∷◌ c s) = if is_whitespace c then trim_start s else String.◌∷◌ c s

unfoldable pub trim_end : String → String
trim_end String.[] = String.[]
trim_end (String.◌∷◌ c s) =
    let rest = trim_end s in
    if is_whitespace c && is_empty rest then String.[] else String.◌∷◌ c rest

unfoldable pub trim : String → String
unfolding trim_start trim_end
trim s = trim_end (trim_start s)

trim_both : trim " a b \n" ≡ "a b"
unfolding trim
trim_both = refl

-- `str::len`: the bytes of the text in UTF-8.
abbrev pub char_bytes : Char → ℕ
char_bytes c =
    if leb (code c) 0x7f
    then 1
    else if leb (code c) 0x7ff
    then 2
    else if leb (code c) 0xffff
    then 3
    else 4

unfoldable pub byte_length : String → ℕ
byte_length String.[] = 0
byte_length (String.◌∷◌ c s) = char_bytes c + byte_length s

bytes_of_letters : byte_length "aé" ≡ 3
unfolding byte_length
bytes_of_letters = refl

-- `str::strip_prefix`, and `starts_with(char::is_whitespace)`.
unfoldable pub strip_prefix : String → String → Option String
strip_prefix s String.[] = some s
strip_prefix String.[] (String.◌∷◌ d p) = none
strip_prefix (String.◌∷◌ c s) (String.◌∷◌ d p) =
    if nat_eq (code c) (code d) then strip_prefix s p else none

unfoldable pub starts_with_whitespace : String → Bool
starts_with_whitespace String.[] = false
starts_with_whitespace (String.◌∷◌ c s) = is_whitespace c

-- `str::contains` of a text, and of the character U+0000.
unfoldable pub contains_text : String → String → Bool
contains_text String.[] t = is_some (strip_prefix String.[] t)
contains_text (String.◌∷◌ c s) t = is_some (strip_prefix (String.◌∷◌ c s) t) || contains_text s t

unfoldable pub has_nul : String → Bool
has_nul String.[] = false
has_nul (String.◌∷◌ c s) = nat_eq (code c) 0 || has_nul s

-- What holds of each literal of a `match` holds of a text that it takes.
pub is_one_of-All :
    (P : String → Type 0) (s : String) (ks : List String) → All P ks → is_one_of s ks ≡ true → P s
unfolding is_one_of
is_one_of-All P s [] h e = absurd (let no : ⊥ = cc in no)
is_one_of-All P s (k ∷ ks) h e = elim (Bool-cases (str_eq s k)) [
  | inl same ↦ subst P (sym ((str_eq_iff s k).0 same)) h.0
  | inr other ↦ is_one_of-All P s ks h.1 (rw other at e)
]

-- A text for which a `match` gives true, and otherwise false, is among the literals.
pub is_one_of-select :
    (s : String) (arms : List (String × Bool))
    → select s arms false ≡ true
    → is_one_of s (map (λ arm. arm.0) arms) ≡ true
unfolding select is_one_of
is_one_of-select s [] e = e
is_one_of-select s ((k, b) ∷ arms) e = elim (Bool-cases (str_eq s k)) [
  | inl same ↦ rw same refl
  | inr other ↦ rw other (is_one_of-select s arms (rw other at e))
]
