-- ===== src/Store/Changes.antt =====
-- agent/src/store.rs: the requests that change the recents, the excluded locations and the default
-- connection of an account or delete from it, and the pages of its lists. `id_time` and `now` are as
-- in Store/Requests.
use proton_vpn_omarchy_core.Base.{
  ℕ, ◌+◌, ◌%◌, ◌^◌, min, Bool, true, false, ◌&&◌, not, ◌==◌, String, List, [], ◌∷◌, Option, find,
  keep, length, take, update_first, leb, ltb, str_eq, and_then, unwrap_or, if◌then◌else◌, map_some,
  zero, suc,
}
use proton_vpn_omarchy_core.Json.{
  Value, Fields, object, string, boolean, natural, array, json, from_list, get, put, as_object,
  text, bool_or, u64_or,
}
use proton_vpn_omarchy_core.Backend.{Result, ok, new_error}
use proton_vpn_omarchy_core.Store.Checks.{require, refuse_if, ◌>>=◌ as then_result}
use proton_vpn_omarchy_core.Store.Edit.{Edit, ◌>>=◌, ◌>>◌, done, lift, reading, change}
use proton_vpn_omarchy_core.Store.Values.{
  object_params, required_string, required_bool, bounded_usize, usize_max,
}
use proton_vpn_omarchy_core.Store.File.{
  StoreFile, AccountStore, account_mut, account_ref, has_text, max_page_size,
}
use proton_vpn_omarchy_core.Store.Excluded.{requested_locations, locations_value}
use proton_vpn_omarchy_core.Store.Ids.{unique_id}
use proton_vpn_omarchy_core.Store.Recents.{
  normalize_recent, recent_key, has_key_of, trim_recents, newest_time,
}
use proton_vpn_omarchy_core.Store.Defaults.{normalize_default, validate_default, any_id}
use proton_vpn_omarchy_core.Store.Requests.{with_recents}

-- A recent of the profile that is deleted.
unfoldable pub is_recent_of : String → Value → Bool
unfolding has_text
is_recent_of id recent = has_text "kind" "profile" recent && has_text "profileId" id recent

unfoldable pub without_profile : String → AccountStore → AccountStore
unfolding keep has_text is_recent_of validate_default
without_profile id account = validate_default (record account {
  profiles = keep (λ p. not (has_text "id" id p)) account.profiles;
  recents = keep (λ r. not (is_recent_of id r)) account.recents;
})

abbrev deleted_value : List Value → List Value → Value
deleted_value before after = json (("deleted", boolean (not (length after == length before))) ∷ [])

unfoldable pub delete_profile : Value → Edit StoreFile Value
unfolding object_params required_string without_profile account_mut
delete_profile params = do
  o ← lift (object_params params)
  id ← lift (required_string o "id" 128)
  account_mut (do
    before ← reading λ account. account.profiles
    change (without_profile id)
    after ← reading λ account. account.profiles
    done (deleted_value before after))

unfoldable pub without_recent : String → AccountStore → AccountStore
unfolding keep has_text validate_default
without_recent id account =
    validate_default (with_recents (keep (λ r. not (has_text "id" id r)) account.recents) account)

unfoldable pub delete_recent : Value → Edit StoreFile Value
unfolding object_params required_string without_recent account_mut
delete_recent params = do
  o ← lift (object_params params)
  id ← lift (required_string o "id" 128)
  account_mut (do
    before ← reading λ account. account.recents
    change (without_recent id)
    after ← reading λ account. account.recents
    done (deleted_value before after))

unfoldable pub set_excluded_locations : Value → Edit StoreFile Value
unfolding requested_locations account_mut
set_excluded_locations params = do
  locations ← lift (requested_locations params)
  account_mut (do
    change (λ account. record account { excluded_locations = locations })
    done (locations_value locations))

unfoldable pub set_default_connection : Value → Edit StoreFile Value
unfolding object_params normalize_default account_mut
set_default_connection params = do
  o ← lift (object_params params)
  selection ← lift (
      require (and_then (get o "selection") as_object)
        (new_error "invalid_params" "selection must be an object"))
  account_mut (do
    account ← reading λ account. account
    normalized ← lift (normalize_default selection account)
    change (λ account. record account { default_connection = normalized })
    done (json (("default_connection", normalized) ∷ [])))

module _ (id_time now : ℕ) where
  -- `recent_mut.insert("pinned", …)` and `insert("pinTimeMs", …)`.
  unfoldable pub pin : Bool → Value → Value
  unfolding put
  pin pinned (object o) =
      object
        (put (put o "pinned" (boolean pinned)) "pinTimeMs" (natural (if pinned then now else 0)))
  pin pinned v = v

  unfoldable pub pin_in_account : String → Bool → Edit AccountStore Value
  unfolding any_id update_first has_text pin trim_recents
  pin_in_account id pinned = do
    account ← reading λ account. account
    lift (
        refuse_if (not (any_id id account.recents))
          (new_error "recent_not_found" "Recent connection was not found"))
    change λ account.
        trim_recents
          (with_recents (update_first (has_text "id" id) (pin pinned) account.recents) account)
    done (json (("updated", boolean true) ∷ []))

  unfoldable pub pin_recent : Value → Edit StoreFile Value
  unfolding object_params required_string required_bool pin_in_account account_mut
  pin_recent params = do
    o ← lift (object_params params)
    id ← lift (required_string o "id" 128)
    pinned ← lift (required_bool o "pinned")
    account_mut (pin_in_account id pinned)

  -- `max` of the clock and a time behind the newest; the addition wraps in a release build.
  abbrev pub dated_after : ℕ → ℕ
  dated_after newest = let next = (newest + 1) % 2 ^ 64 in if leb next now then now else next

  -- The four members that are set on a recent: from the entry that it replaces, or new.
  unfoldable pub finished_recent : Fields → Option Fields → List Value → Fields
  unfolding put text bool_or u64_or unique_id newest_time
  finished_recent recent reused others =
      let r = put recent "id" (
        string
          (unwrap_or (and_then reused (λ o. text o "id")) (unique_id "recent" id_time others))) in
      let r =
        put r "pinned"
          (boolean (unwrap_or (map_some (λ o. bool_or o "pinned" false) reused) false)) in
      let r =
        put r "pinTimeMs" (natural (unwrap_or (map_some (λ o. u64_or o "pinTimeMs" 0) reused) 0)) in
      put r "lastConnectionTimeMs" (natural (dated_after (newest_time others)))

  -- The entries of other targets, and the account with a recent in front of them.
  unfoldable pub others_of : String → List Value → List Value
  unfolding keep has_key_of
  others_of key recents = keep (λ r. not (has_key_of key r)) recents

  unfoldable pub recorded : Fields → AccountStore → Fields
  unfolding recent_key has_key_of find others_of finished_recent
  recorded recent account =
      let key = recent_key recent in
      finished_recent recent (and_then (find (has_key_of key) account.recents) as_object)
        (others_of key account.recents)

  unfoldable pub with_recorded : Fields → AccountStore → AccountStore
  unfolding recorded others_of recent_key trim_recents validate_default
  with_recorded recent account = validate_default (
      trim_recents (
        with_recents
          (object (recorded recent account) ∷ others_of (recent_key recent) account.recents)
          account))

  unfoldable pub known_profile : Fields → String → AccountStore → Result (Unit {0})
  unfolding required_string any_id
  known_profile recent kind account =
      if str_eq kind "profile"
      then then_result (required_string recent "profileId" 128) (λ id.
        refuse_if (not (any_id id account.profiles))
          (new_error "profile_not_found" "Recent profile was not found"))
      else ok tt

  unfoldable pub record_in_account : Fields → String → Edit AccountStore Value
  unfolding known_profile with_recorded recorded
  record_in_account recent kind = do
    account ← reading λ account. account
    lift (known_profile recent kind account)
    change (with_recorded recent)
    done (json (("recent", object (recorded recent account)) ∷ []))

  unfoldable pub record_recent : Value → Edit StoreFile Value
  unfolding object_params normalize_recent required_string record_in_account account_mut
  record_recent params = do
    o ← lift (object_params params)
    raw ← lift (
        require (and_then (get o "recent") as_object)
          (new_error "invalid_params" "recent must be an object"))
    recent ← lift (normalize_recent raw)
    kind ← lift (required_string recent "kind" 32)
    account_mut (record_in_account recent kind)

pub data Collection : Type 0 where
  profiles recents : Collection

unfoldable pub items_of : Collection → AccountStore → List Value
items_of profiles account = account.profiles
items_of recents account = account.recents

unfoldable pub skip : ℕ → List Value → List Value
skip zero vs = vs
skip (suc n) [] = []
skip (suc n) (v ∷ vs) = skip n vs

-- A page as the reply holds it; `saturating_add` stops at the greatest `usize`.
pub record Page : Type 0 where
  pub items : List Value
  pub offset : ℕ
  pub limit : ℕ
  pub total : ℕ
  pub has_more : Bool
  pub store_revision : ℕ

unfoldable pub page_of : Collection → StoreFile → ℕ → ℕ → Page
unfolding items_of account_ref skip
page_of collection file offset limit =
    let all = items_of collection (account_ref file) in
    record {
      items = take limit (skip offset all);
      offset = offset;
      limit = limit;
      total = length all;
      has_more = ltb (min (offset + limit) usize_max) (length all);
      store_revision = file.revision;
    }

abbrev page_value : Page → Value
page_value p = json (
    ("items", array (from_list p.items))
    ∷ ("offset", natural p.offset)
    ∷ ("limit", natural p.limit)
    ∷ ("total", natural p.total)
    ∷ ("has_more", boolean p.has_more)
    ∷ ("store_revision", natural p.store_revision)
    ∷ [])

unfoldable pub list_collection : Collection → Value → Edit StoreFile Value
unfolding bounded_usize page_of
list_collection collection params = do
  offset ← lift (bounded_usize params "offset" 0 usize_max)
  limit ← lift (bounded_usize params "limit" 50 max_page_size)
  reading λ file. page_value (page_of collection file offset limit)
