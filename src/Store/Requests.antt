-- ===== src/Store/Requests.antt =====
-- agent/src/store.rs: the requests that change the settings and that save or duplicate a profile.
-- `id_time` and `now` are what the clock says when an identifier is made and when an entry is dated.
use proton_vpn_omarchy_core.Base.{
  ℕ, Bool, true, false, not, String, List, [], ◌∷◌, ◌++◌, Option, none, some, find, length,
  update_first, leb, is_empty, and_then, if◌then◌else◌,
}
use proton_vpn_omarchy_core.Json.{
  Value, Fields, object, string, boolean, json, get, put, without, as_object, as_bool,
}
use proton_vpn_omarchy_core.Backend.{BackendError, Result, ok, new_error}
use proton_vpn_omarchy_core.Store.Checks.{require, refuse_if, ◌>>=◌ as then_result}
use proton_vpn_omarchy_core.Store.Edit.{Edit, ◌>>=◌, ◌>>◌, done, lift, reading, change}
use proton_vpn_omarchy_core.Store.Values.{
  object_params, required_string, required_bool, string_value,
}
use proton_vpn_omarchy_core.Store.File.{
  StoreFile, AccountStore, Onboarding, account_mut, has_text, max_profiles,
}
use proton_vpn_omarchy_core.Store.Locale.{locale_value}
use proton_vpn_omarchy_core.Store.Ids.{unique_id, copy_name}
use proton_vpn_omarchy_core.Store.Profiles.{normalize_profile}
use proton_vpn_omarchy_core.Store.Defaults.{any_id}

abbrev bad_params : String → BackendError
bad_params = new_error "invalid_params"

abbrev pub update : (Onboarding → Onboarding) → Edit StoreFile (Unit {0})
update f = change λ file. record file { onboarding = f file.onboarding }

-- Each member is written as soon as it is read.
unfoldable pub complete_onboarding : Value → Edit StoreFile Value
unfolding object_params locale_value required_bool
complete_onboarding params = do
  o ← lift (object_params params)
  locale ← lift (locale_value (get o "locale"))
  update (λ s. record s { locale = locale })
  start ← lift (required_bool o "start_with_omarchy")
  update (λ s. record s { start_with_omarchy = start })
  auto ← lift (required_bool o "auto_connect")
  update (λ s. record s { auto_connect = auto })
  update (λ s. if s.auto_connect then record s { start_with_omarchy = true } else s)
  update (λ s. record s { complete = true })
  done (json (("onboarding_complete", boolean true) ∷ []))

unfoldable pub set_locale : Option Value → Edit StoreFile (Unit {0})
unfolding locale_value
set_locale none = done tt
set_locale (some value) = do
  locale ← lift (locale_value (some value))
  update (λ s. record s { locale = locale })

-- A preference that is given must be a Boolean, and is written at once.
unfoldable pub set_preference :
    Option Value → String → (Bool → Onboarding → Onboarding) → Edit StoreFile (Unit {0})
set_preference none message write = done tt
set_preference (some value) message write = do
  b ← lift (require (as_bool value) (bad_params message))
  update (write b)

unfoldable pub set_preferences : Value → Edit StoreFile Value
unfolding object_params set_locale set_preference
set_preferences params = do
  o ← lift (object_params params)
  set_locale (get o "locale")
  set_preference (get o "start_with_omarchy") "start_with_omarchy must be a boolean"
      (λ b s. record s { start_with_omarchy = b })
  set_preference (get o "auto_connect") "auto_connect must be a boolean"
      (λ b s. record s { auto_connect = b })
  set_preference (get o "notifications_enabled") "notifications_enabled must be a boolean"
      (λ b s. record s { notifications_enabled = b })
  set_preference (get o "port_forwarding_notifications_enabled")
      "port_forwarding_notifications_enabled must be a boolean"
      (λ b s. record s { port_forwarding_notifications_enabled = b })
  update (λ s. if s.auto_connect then record s { start_with_omarchy = true } else s)
  update (λ s. if not s.start_with_omarchy then record s { auto_connect = false } else s)
  done (json (("updated", boolean true) ∷ []))

abbrev pub with_profiles : List Value → AccountStore → AccountStore
with_profiles ps account = record account { profiles = ps }

abbrev pub with_recents : List Value → AccountStore → AccountStore
with_recents rs account = record account { recents = rs }

abbrev limit_reached : AccountStore → Bool
limit_reached account = leb max_profiles (length account.profiles)

abbrev pub at_limit : BackendError
at_limit = new_error "profile_limit_reached" "Maximum profile count reached"

-- The entry with an identifier is replaced where it stands, or a new one is appended.
unfoldable pub store_profile : String → Value → List Value → List Value
unfolding any_id update_first has_text
store_profile id value profiles =
    if any_id id profiles
    then update_first (has_text "id" id) (λ _. value) profiles
    else profiles ++ value ∷ []

module _ (ip_text : String → Option String) (id_time now : ℕ) where
  unfoldable pub profile_id : String → List Value → Result String
  unfolding unique_id
  profile_id existing_id profiles =
      if is_empty existing_id
      then then_result (refuse_if (leb max_profiles (length profiles)) at_limit)
          (λ _. ok (unique_id "profile" id_time profiles))
      else ok existing_id

  unfoldable pub save_in_account : Fields → Edit AccountStore Value
  unfolding string_value profile_id find has_text normalize_profile store_profile
  save_in_account raw = do
    account ← reading λ account. account
    existing_id ← lift (string_value (get raw "id") 128 false)
    id ← lift (profile_id existing_id account.profiles)
    let existing = and_then (find (has_text "id" id) account.profiles) as_object
    profile ← lift (normalize_profile ip_text raw existing id now)
    change (with_profiles (store_profile id (object profile) account.profiles))
    done (json (("profile", object profile) ∷ []))

  unfoldable pub save_profile : Value → Edit StoreFile Value
  unfolding object_params save_in_account account_mut
  save_profile params = do
    o ← lift (object_params params)
    raw ←
        lift
          (require (and_then (get o "profile") as_object) (bad_params "profile must be an object"))
    account_mut (save_in_account raw)

  -- The name of a duplicate: the one asked for, or that of a copy.
  unfoldable pub duplicate_name : Fields → String → List Value → Result String
  unfolding required_string copy_name
  duplicate_name duplicate requested profiles =
      if is_empty requested
      then then_result (required_string duplicate "name" 60)
          (λ source_name. ok (copy_name source_name profiles))
      else ok requested

  unfoldable pub duplicate_in_account : Fields → String → Edit AccountStore Value
  unfolding find has_text without string_value duplicate_name put unique_id normalize_profile
  duplicate_in_account o source_id = do
    account ← reading λ account. account
    lift (refuse_if (limit_reached account) at_limit)
    source ← lift (
        require (and_then (find (has_text "id" source_id) account.profiles) as_object)
          (new_error "profile_not_found" "Profile was not found"))
    let duplicate = without (without (without source "id") "createdAtMs") "updatedAtMs"
    requested ← lift (string_value (get o "name") 60 true)
    name ← lift (duplicate_name duplicate requested account.profiles)
    let id = unique_id "profile" id_time account.profiles
    profile ← lift (normalize_profile ip_text (put duplicate "name" (string name)) none id now)
    change (with_profiles (account.profiles ++ object profile ∷ []))
    done (json (("profile", object profile) ∷ ("source_id", string source_id) ∷ []))

  unfoldable pub duplicate_profile : Value → Edit StoreFile Value
  unfolding object_params required_string duplicate_in_account account_mut
  duplicate_profile params = do
    o ← lift (object_params params)
    source_id ← lift (required_string o "id" 128)
    account_mut (duplicate_in_account o source_id)
