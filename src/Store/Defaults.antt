-- ===== src/Store/Defaults.antt =====
-- agent/src/store.rs: the default connection of an account.
use proton_vpn_omarchy_core.Base.{
  ℕ, Bool, true, false, ◌&&◌, ◌||◌, not, ◌==◌, String, List, [], ◌∷◌, none, some, any, select,
  str_eq, if◌then◌else◌, Table,
}
use proton_vpn_omarchy_core.Json.{
  Value, Fields, Items, Number, null, boolean, number, string, array, object, nil, cons, end, field,
  pos_int, neg_int, float, get, json, as_object,
}
use proton_vpn_omarchy_core.Backend.{Result, ok, err, new_error}
use proton_vpn_omarchy_core.Store.Checks.{◌>>=◌}
use proton_vpn_omarchy_core.Store.Values.{required_string, string_or}
use proton_vpn_omarchy_core.Store.File.{
  AccountStore, StoreFile, has_text, fastest_default_connection,
}

unfoldable pub any_id : String → List Value → Bool
unfolding has_text
any_id id vs = any (has_text "id" id) vs

unfoldable pub default_recent : Fields → AccountStore → Result Value
unfolding required_string any_id
default_recent selection account = do
  id ← required_string selection "recentId" 128
  if any_id id account.recents
      then ok (json (("type", string "recent") ∷ ("recentId", string id) ∷ []))
      else err (new_error "recent_not_found" "Default recent connection was not found")

unfoldable pub default_profile : Fields → AccountStore → Result Value
unfolding required_string any_id
default_profile selection account = do
  id ← required_string selection "profileId" 128
  if any_id id account.profiles
      then ok (json (("type", string "profile") ∷ ("profileId", string id) ∷ []))
      else err (new_error "profile_not_found" "Default profile was not found")

-- The arms of the `match` on the kind.
abbrev pub default_arms : Fields → AccountStore → List (String × Result Value)
default_arms selection account =
    ("fastest", ok (json (("type", string "fastest") ∷ [])))
    ∷ ("random", ok (json (("type", string "random") ∷ [])))
    ∷ ("last", ok (json (("type", string "last") ∷ [])))
    ∷ ("recent", default_recent selection account)
    ∷ ("profile", default_profile selection account)
    ∷ []

unfoldable pub normalize_default : Fields → AccountStore → Result Value
unfolding string_or select default_recent default_profile
normalize_default selection account = do
  kind ← string_or selection "type" "fastest" 32
  select kind (default_arms selection account)
      (err (new_error "invalid_default_connection" "Unsupported default connection type"))

-- `normalize_default(…).ok()` of an object, or the fastest connection.
abbrev pub value_or_fastest : Result Value → Value
value_or_fastest (ok v) = v
value_or_fastest (err e) = fastest_default_connection

unfoldable pub valid_default : AccountStore → Value → Value
unfolding normalize_default
valid_default account v = elim (as_object v) [
  | none ↦ fastest_default_connection
  | some selection ↦ value_or_fastest (normalize_default selection account)
]

unfoldable pub validate_default : AccountStore → AccountStore
unfolding valid_default
validate_default account = record account {
  default_connection = valid_default account account.default_connection;
}

abbrev same_number : Number → Number → Bool
same_number (pos_int m) (pos_int n) = m == n
same_number (neg_int m) (neg_int n) = m == n
same_number (float m) (float n) = m == n
same_number _ _ = false

abbrev count_fields : Fields → ℕ
count_fields end = 0
count_fields (field k v fs) = ℕ.suc (count_fields fs)

-- `==` of two JSON values; objects have the same members in any order.
unfoldable mutual
  pub same_value : Value → Value → Bool
  same_value null null = true
  same_value (boolean a) (boolean b) = if a then b else not b
  same_value (number m) (number n) = same_number m n
  same_value (string s) (string t) = str_eq s t
  same_value (array xs) (array ys) = same_items xs ys
  same_value (object fs) (object gs) = count_fields fs == count_fields gs && all_among fs gs
  same_value _ _ = false

  same_items : Items → Items → Bool
  same_items nil nil = true
  same_items (cons v vs) (cons w ws) = same_value v w && same_items vs ws
  same_items _ _ = false

  all_among : Fields → Fields → Bool
  all_among end gs = true
  all_among (field k v fs) gs =
      elim (get gs k) [ none ↦ false | some w ↦ same_value v w ] && all_among fs gs

-- The loop over `accounts.values_mut()`, and whether a default was changed.
unfoldable pub repair_accounts : Table AccountStore → Table AccountStore × Bool
unfolding validate_default same_value
repair_accounts [] = ([], false)
repair_accounts ((k, account) ∷ accounts) =
    let (rest, changed) = repair_accounts accounts in
    let repaired = validate_default account in
    (
      (k, repaired) ∷ rest,
      not (same_value repaired.default_connection account.default_connection) || changed,
    )

unfoldable pub repair_default_connections : StoreFile → StoreFile × Bool
unfolding repair_accounts
repair_default_connections file =
    let (accounts, changed) = repair_accounts file.accounts in
    (record file { accounts = accounts }, changed)
