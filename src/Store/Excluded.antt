-- ===== src/Store/Excluded.antt =====
-- agent/src/store.rs: the excluded locations of an account.
use proton_vpn_omarchy_core.Base.{
  Bool, true, ◌&&◌, ◌||◌, not, ◌==◌, String, List, [], ◌∷◌, ◌++◌, map, any, length, ltb, str_eq,
  is_one_of, is_empty, byte_length, all_chars, is_ascii_alphabetic, and_then, concat,
  to_ascii_lowercase, to_ascii_uppercase, if◌then◌else◌,
}
use proton_vpn_omarchy_core.Json.{
  Value, string, array, json, get, as_object, as_array, from_list, Fields,
}
use proton_vpn_omarchy_core.Backend.{BackendError, Result, ok, new_error}
use proton_vpn_omarchy_core.Store.Checks.{require, refuse_if, ◌>>=◌, ◌>>◌}
use proton_vpn_omarchy_core.Store.Values.{object_params, required_string, string_value}
pub use proton_vpn_omarchy_core.Store.File.{ExcludedLocation}
use proton_vpn_omarchy_core.Store.File.{max_excluded_locations}

abbrev bad_location : String → BackendError
bad_location = new_error "invalid_excluded_location"

abbrev pub is_country_code : String → Bool
is_country_code code = byte_length code == 2 && all_chars is_ascii_alphabetic code

-- The rest of the loop's body, once the item is an object.
unfoldable pub location_of : Fields → Result ExcludedLocation
unfolding required_string string_value is_one_of
location_of o = do
  name ← required_string o "kind" 16
  let kind = to_ascii_lowercase name
  refuse_if (not (is_one_of kind ("country" ∷ "state" ∷ "city" ∷ [])))
      (bad_location "Excluded location kind must be country, state or city")
  code ← required_string o "country_code" 2
  refuse_if (not (is_country_code code))
      (bad_location "Excluded locations require a two-letter country code")
  state ← string_value (get o "state") 128 true
  city ← string_value (get o "city") 128 true
  refuse_if (str_eq kind "state" && is_empty state || str_eq kind "city" && is_empty city)
      (bad_location "Excluded state and city entries require their location name")
  ok (record { kind = kind; country_code = to_ascii_uppercase code; state = state; city = city })

unfoldable pub parse_location : Value → Result ExcludedLocation
unfolding location_of
parse_location item = do
  o ←
      require (as_object item)
        (new_error "invalid_params" "Each excluded location must be an object")
  location_of o

unfoldable pub location_key : ExcludedLocation → String
location_key l = concat (
    l.kind
    ∷ ":"
    ∷ l.country_code
    ∷ ":"
    ∷ to_ascii_lowercase l.state
    ∷ ":"
    ∷ to_ascii_lowercase l.city
    ∷ [])

-- `seen` holds the keys of the locations pushed so far.
unfoldable pub push_location : List ExcludedLocation → ExcludedLocation → List ExcludedLocation
unfolding location_key
push_location locations l =
    if any (λ m. str_eq (location_key m) (location_key l)) locations
    then locations
    else locations ++ l ∷ []

unfoldable pub collect_locations :
    List ExcludedLocation → List Value → Result (List ExcludedLocation)
unfolding parse_location push_location
collect_locations locations [] = ok locations
collect_locations locations (item ∷ items) = do
  l ← parse_location item
  collect_locations (push_location locations l) items

-- What is derived for `Serialize`.
abbrev pub location_value : ExcludedLocation → Value
location_value l = json (
    ("kind", string l.kind)
    ∷ ("country_code", string l.country_code)
    ∷ ("state", string l.state)
    ∷ ("city", string l.city)
    ∷ [])

abbrev pub locations_value : List ExcludedLocation → Value
locations_value ls = json (("items", array (from_list (map location_value ls))) ∷ [])

unfoldable pub requested_locations : Value → Result (List ExcludedLocation)
unfolding object_params collect_locations
requested_locations params = do
  o ← object_params params
  raw ←
      require (and_then (get o "items") as_array)
        (new_error "invalid_params" "items must be an array")
  refuse_if (ltb max_excluded_locations (length raw))
      (new_error "excluded_location_limit_reached" "Too many excluded locations")
  collect_locations [] raw
