-- ===== src/Store/Locale.antt =====
-- agent/src/store.rs: `locale_value`, and the language of a locale.
use proton_vpn_omarchy_core.Store.Checks.{refuse_if, ◌>>=◌, ◌>>◌}
use proton_vpn_omarchy_core.Base.{
  ◌==◌, Bool, true, false, ◌&&◌, not, String, List, [], ◌∷◌, map, Option, leb, and_then, unwrap_or,
  is_empty, trim, byte_length, replace_char, split_at_char, join_with, all_chars,
  is_ascii_alphabetic, is_ascii_alphanumeric, to_ascii_lowercase, to_ascii_uppercase, upper,
  eq_ignore_ascii_case, if◌then◌else◌, ◌≡◌, refl,
}
use proton_vpn_omarchy_core.Json.{Value, string, as_str}
use proton_vpn_omarchy_core.Backend.{Result, ok, new_error}

abbrev pub is_language : String → Bool
is_language part =
    leb 2 (byte_length part) && leb (byte_length part) 8 && all_chars is_ascii_alphabetic part

abbrev pub is_subtag : String → Bool
is_subtag part =
    not (is_empty part) && leb (byte_length part) 8 && all_chars is_ascii_alphanumeric part

unfoldable pub all_subtags : List String → Bool
all_subtags [] = true
all_subtags (part ∷ parts) = is_subtag part && all_subtags parts

-- `parts[0]` and the rest: a split has one part at least.
unfoldable pub valid_parts : List String → Bool
unfolding all_subtags
valid_parts [] = false
valid_parts (first ∷ parts) = is_language first && all_subtags parts

-- `value[0..1].make_ascii_uppercase()`.
unfoldable pub capitalized : String → String
unfolding upper
capitalized String.[] = String.[]
capitalized (String.◌∷◌ c s) = String.◌∷◌ (upper c) s

unfoldable pub canonical_subtag : String → String
unfolding capitalized
canonical_subtag part =
    if byte_length part == 2 && all_chars is_ascii_alphabetic part
    then to_ascii_uppercase part
    else if byte_length part == 4 && all_chars is_ascii_alphabetic part
    then capitalized (to_ascii_lowercase part)
    else to_ascii_lowercase part

unfoldable pub canonical_parts : List String → List String
unfolding canonical_subtag
canonical_parts [] = []
canonical_parts (first ∷ parts) = to_ascii_lowercase first ∷ map canonical_subtag parts

unfoldable pub is_locale : String → Bool
unfolding valid_parts
is_locale raw =
    not (is_empty raw) && leb (byte_length raw) 35 && valid_parts (split_at_char "-" raw)

unfoldable pub canonical_locale : String → String
unfolding canonical_parts
canonical_locale raw = join_with "-" (canonical_parts (split_at_char "-" raw))

unfoldable pub locale_value : Option Value → Result String
unfolding is_locale canonical_locale
locale_value value = do
  let raw = replace_char "_" "-" (trim (unwrap_or (and_then value as_str) String.[]))
  refuse_if (not (is_locale raw))
      (new_error "invalid_locale" "locale must be a valid bounded BCP 47 language tag")
  ok (canonical_locale raw)

-- The test on a locale that chooses the names of the default profiles.
abbrev first_part : List String → String
first_part [] = String.[]
first_part (part ∷ parts) = part

unfoldable pub is_spanish : String → Bool
is_spanish locale =
    eq_ignore_ascii_case (first_part (split_at_char "-" (replace_char "_" "-" locale))) "es"

locale_some : locale_value (Option.some (string " ES_latn-mx ")) ≡ ok "es-Latn-MX"
unfolding locale_value replace_char trim byte_length split_at_char all_chars join_with
    to_ascii_lowercase to_ascii_uppercase ◌>>=◌ refuse_if
locale_some = refl
