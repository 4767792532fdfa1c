-- ===== src/Store/Values.antt =====
-- agent/src/store.rs: how a parameter or a member is read, and what is refused.
use proton_vpn_omarchy_core.Store.Checks.{require, refuse_if, ◌>>=◌, ◌>>◌}
use proton_vpn_omarchy_core.Base.{
  ℕ, ◌^◌, ◌-◌, Bool, true, false, ◌||◌, not, String, [], ◌∷◌, Option, none, some, is_empty, trim,
  char_count, has_break, concat, is_some, ltb, if◌then◌else◌, and_then,
}
use proton_vpn_omarchy_core.Json.{
  Value, Fields, get, member, as_bool, as_str, as_u64, as_object, text,
}
use proton_vpn_omarchy_core.Backend.{BackendError, Result, ok, new_error}

unfoldable pub object_params : Value → Result Fields
object_params v = require (as_object v) (new_error "invalid_params" "params must be an object")

abbrev pub bad_text : BackendError
bad_text = new_error "invalid_params" "String value has an invalid length or characters"

-- The texts that `string_value` lets through, once they are trimmed where that is asked.
abbrev pub is_refused_text : ℕ → String → Bool
is_refused_text max_chars raw = ltb max_chars (char_count raw) || has_break raw

unfoldable pub string_value : Option Value → ℕ → Bool → Result String
string_value none max_chars trimmed = ok String.[]
string_value (some value) max_chars trimmed = do
  raw ← require (as_str value) (new_error "invalid_params" "Expected a string value")
  let cut = if trimmed then trim raw else raw
  refuse_if (is_refused_text max_chars cut) bad_text
  ok cut

unfoldable pub required_string : Fields → String → ℕ → Result String
unfolding string_value
required_string o key max_chars = do
  value ← string_value (get o key) max_chars true
  refuse_if (is_empty value) (new_error "invalid_params" (concat (key ∷ " is required" ∷ [])))
  ok value

unfoldable pub string_or : Fields → String → String → ℕ → Result String
unfolding string_value
string_or o key fallback max_chars = if not (is_some (get o key)) then ok fallback else (do
  value ← string_value (get o key) max_chars true
  ok (if is_empty value then fallback else value))

abbrev not_boolean : String → BackendError
not_boolean key = new_error "invalid_params" (concat (key ∷ " must be a boolean" ∷ []))

unfoldable pub required_bool : Fields → String → Result Bool
required_bool o key = require (and_then (get o key) as_bool) (not_boolean key)

unfoldable pub optional_bool : Fields → String → Bool → Result Bool
optional_bool o key fallback = elim (get o key) [
  | some value ↦ require (as_bool value) (not_boolean key)
  | none ↦ ok fallback
]

-- `usize` has 64 bits, so a `u64` is one.
abbrev pub usize_max : ℕ
usize_max = 2 ^ 64 - 1

unfoldable pub bounded_usize : Value → String → ℕ → ℕ → Result ℕ
bounded_usize params key fallback maximum = elim (member params key) [
  | none ↦ ok fallback
  | some value ↦ do
    n ←
        require (as_u64 value)
          (new_error "invalid_params" (concat (key ∷ " must be an integer" ∷ [])))
    refuse_if (ltb maximum n)
        (new_error "invalid_params" (concat (key ∷ " exceeds the maximum" ∷ [])))
    ok n
]

unfoldable pub nonempty : Fields → String → Bool
unfolding text
nonempty o key = elim (text o key) [ none ↦ false | some s ↦ not (is_empty (trim s)) ]
