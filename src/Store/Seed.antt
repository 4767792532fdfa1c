-- ===== src/Store/Seed.antt =====
-- agent/src/store.rs: the profiles that an account is given once, and the import of the older store.
use proton_vpn_omarchy_core.Base.{
  ℕ, Bool, true, false, ◌&&◌, ◌||◌, not, String, List, [], ◌∷◌, ◌++◌, Option, none, length, any,
  ltb, leb, str_eq, take, and_then, unwrap_or, map_some, names, if◌then◌else◌,
}
use proton_vpn_omarchy_core.Json.{
  Value, Fields, string, boolean, natural, object, json, object_with, get, as_u64, as_array,
  as_object, text_of,
}
use proton_vpn_omarchy_core.Backend.{Result, ok, err}
use proton_vpn_omarchy_core.Store.Checks.{◌>>=◌ as then_result}
use proton_vpn_omarchy_core.Store.Edit.{Edit, ◌>>=◌, done}
use proton_vpn_omarchy_core.Store.File.{
  StoreFile, AccountStore, default_account, entry_or_default, put_account, max_profiles,
  legacy_scope, next_revision, has_text,
}
use proton_vpn_omarchy_core.Store.Locale.{is_spanish}
use proton_vpn_omarchy_core.Store.Profiles.{normalize_profile}
use proton_vpn_omarchy_core.Store.Recents.{trim_recents}
use proton_vpn_omarchy_core.Store.Defaults.{any_id, normalize_default, value_or_fastest}

abbrev pub fastest_default_profile_id : String
fastest_default_profile_id = "proton-default-fastest-v1"

abbrev pub official_default_profile_ids : List String
official_default_profile_ids =
    "proton-default-streaming-v1" ∷ "proton-default-gaming-v1" ∷ "proton-default-p2p-v1"
    ∷ "proton-default-max-security-v1" ∷ "proton-default-work-school-v1"
    ∷ "proton-default-random-v1" ∷ []

abbrev pub has : String → List String → Bool
has key = any (λ k. str_eq k key)

abbrev said : Bool → String → String → Value
said spanish es en = string (if spanish then es else en)

unfoldable pub fastest_raw : Bool → Fields
fastest_raw spanish = object_with (
    ("name", said spanish "Servidor más rápido" "Fastest server")
    ∷ ("targetKind", string "fastest")
    ∷ ("iconName", string "Speed")
    ∷ [])

-- `raw_profiles`, each with its identifier.
unfoldable pub official_raw : Bool → List (String × Fields)
official_raw spanish =
    (
      "proton-default-streaming-v1",
      object_with (
          ("name", said spanish "Streaming EE. UU." "Streaming US")
          ∷ ("targetKind", string "country")
          ∷ ("countryCode", string "US")
          ∷ ("countryName", said spanish "Estados Unidos" "United States")
          ∷ ("iconName", string "Streaming")
          ∷ []),
    )
    ∷ (
      "proton-default-gaming-v1",
      object_with (
          ("name", said spanish "Juegos" "Gaming")
          ∷ ("targetKind", string "p2p")
          ∷ ("iconName", string "Gaming")
          ∷ ("profileNatType", string "moderate")
          ∷ []),
    )
    ∷ (
      "proton-default-p2p-v1",
      object_with (
          ("name", string "P2P")
          ∷ ("targetKind", string "p2p")
          ∷ ("iconName", string "Download")
          ∷ ("profilePortForwardingEnabled", boolean true)
          ∷ []),
    )
    ∷ (
      "proton-default-max-security-v1",
      object_with (
          ("name", said spanish "Seguridad máxima" "Max security")
          ∷ ("targetKind", string "secureCore")
          ∷ ("iconName", string "Protection")
          ∷ []),
    )
    ∷ (
      "proton-default-work-school-v1",
      object_with (
          ("name", said spanish "Trabajo/Escuela" "Work/School")
          ∷ ("targetKind", string "fastest")
          ∷ ("iconName", string "Business")
          ∷ ("profileProtocol", string "protun-tls")
          ∷ ("profileNetShieldEnabled", boolean true)
          ∷ ("profileNetShieldLevel", natural 1)
          ∷ ("profileNatType", string "moderate")
          ∷ []),
    )
    ∷ (
      "proton-default-random-v1",
      object_with (
          ("name", said spanish "Conexión aleatoria" "Random connection")
          ∷ ("targetKind", string "random")
          ∷ ("iconName", string "Browsing")
          ∷ []),
    )
    ∷ []

-- `now` is what the clock says when the profile with an identifier is dated.
module _ (ip_text : String → Option String) (now : String → ℕ) where
  unfoldable pub fastest_default_profile : String → Result Value
  unfolding is_spanish fastest_raw normalize_profile
  fastest_default_profile locale =
      then_result
        (normalize_profile ip_text (fastest_raw (is_spanish locale)) none fastest_default_profile_id
          (now fastest_default_profile_id))
        (λ o. ok (object o))

  unfoldable pub normalize_all : List (String × Fields) → Result (List Value)
  unfolding normalize_profile
  normalize_all [] = ok []
  normalize_all ((id, raw) ∷ raws) =
      then_result (normalize_profile ip_text raw none id (now id))
        (λ o. then_result (normalize_all raws) (λ rest. ok (object o ∷ rest)))

  unfoldable pub official_default_profiles : String → Result (List Value)
  unfolding official_raw is_spanish normalize_all
  official_default_profiles locale = normalize_all (official_raw (is_spanish locale))

  -- The loop over the templates: one that is missing is appended while there is room.
  unfoldable pub add_missing : List Value → List Value → List Value
  unfolding any_id text_of
  add_missing [] profiles = profiles
  add_missing (p ∷ ps) profiles = add_missing ps (
      if not (any_id (unwrap_or (text_of p "id") String.[]) profiles)
        && ltb (length profiles) max_profiles
      then profiles ++ p ∷ []
      else profiles)

  unfoldable pub all_ids : List String → List Value → Bool
  unfolding any_id
  all_ids [] profiles = true
  all_ids (id ∷ ids) profiles = any_id id profiles && all_ids ids profiles

  abbrev pub mark_official : String → StoreFile → StoreFile
  mark_official key file = record file {
    migration = record file.migration {
      official_default_profiles_seeded_for_accounts =
          file.migration.official_default_profiles_seeded_for_accounts ++ key ∷ [];
    };
  }

  abbrev pub mark_fastest : String → StoreFile → StoreFile
  mark_fastest key file = record file {
    migration = record file.migration {
      fastest_default_profile_seeded_for_accounts =
          file.migration.fastest_default_profile_seeded_for_accounts ++ key ∷ [];
    };
  }

  -- The account's profiles afterwards, whether one was added, and whether all six are there.
  abbrev pub official_seeded : String → StoreFile → List Value → StoreFile × Result Bool
  official_seeded key file templates =
      let account = entry_or_default key file in
      let profiles = add_missing templates account.profiles in
      let grown = ltb (length account.profiles) (length profiles) in
      let complete = all_ids official_default_profile_ids profiles in
      let file = put_account key (record account { profiles = profiles }) file in
      (if complete then mark_official key file else file, ok (grown || complete))

  abbrev pub when_official : String → Result (List Value) → Edit StoreFile Bool
  when_official key (ok templates) file = official_seeded key file templates
  when_official key (err e) file = (file, err e)

  unfoldable pub seed_account_with_official_profiles : String → Edit StoreFile Bool
  unfolding official_default_profiles add_missing all_ids entry_or_default put_account
  seed_account_with_official_profiles key file =
      if has key file.migration.official_default_profiles_seeded_for_accounts
      then (file, ok false)
      else when_official key (official_default_profiles file.onboarding.locale) file

  -- A default that is the fastest connection becomes the profile for it.
  unfoldable pub with_fastest : Value → AccountStore → AccountStore × Bool
  unfolding any_id has_text
  with_fastest profile account =
      let missing = not (any_id fastest_default_profile_id account.profiles) in
      let added = missing && ltb (length account.profiles) max_profiles in
      let profiles = if added then profile ∷ account.profiles else account.profiles in
      let complete = any_id fastest_default_profile_id profiles in
      let chosen = complete && has_text "type" "fastest" account.default_connection in
      (
        record account {
          profiles = profiles;
          default_connection =
              if chosen
              then json (
                  ("type", string "profile")
                  ∷ ("profileId", string fastest_default_profile_id)
                  ∷ [])
              else account.default_connection;
        },
        complete,
      )

  abbrev pub fastest_seeded : String → StoreFile → Value → StoreFile × Result Bool
  fastest_seeded key file profile =
      let before = entry_or_default key file in
      let (account, complete) = with_fastest profile before in
      let grown = ltb (length before.profiles) (length account.profiles) in
      let file = put_account key account file in
      (if complete then mark_fastest key file else file, ok (grown || complete))

  abbrev pub when_fastest : String → Result Value → Edit StoreFile Bool
  when_fastest key (ok profile) file = fastest_seeded key file profile
  when_fastest key (err e) file = (file, err e)

  unfoldable pub seed_account_with_fastest_profile : String → Edit StoreFile Bool
  unfolding fastest_default_profile with_fastest entry_or_default put_account
  seed_account_with_fastest_profile key file =
      if has key file.migration.fastest_default_profile_seeded_for_accounts
      then (file, ok false)
      else when_fastest key (fastest_default_profile file.onboarding.locale) file

-- The two loops over the accounts that are known when the store is opened.
abbrev pub seed_each : (String → Edit StoreFile Bool) → List String → Edit StoreFile Bool
seed_each seed [] = done false
seed_each seed (key ∷ keys) = do
  changed ← seed key
  more ← seed_each seed keys
  done (changed || more)

-- Each account's profiles are dated by the clock of its own.
module _ (ip_text : String → Option String) (now : String → String → ℕ) where
  unfoldable pub seed_known_accounts_with_official_profiles : Edit StoreFile Bool
  unfolding seed_account_with_official_profiles
  seed_known_accounts_with_official_profiles file =
      seed_each (λ key. seed_account_with_official_profiles ip_text (now key) key)
        (names file.accounts) file

  unfoldable pub seed_known_accounts_with_fastest_profile : Edit StoreFile Bool
  unfolding seed_account_with_fastest_profile
  seed_known_accounts_with_fastest_profile file =
      seed_each (λ key. seed_account_with_fastest_profile ip_text (now key) key)
        (names file.accounts) file

-- `import_legacy`, once the file has been read as an object.
abbrev list_at : Fields → String → List Value
list_at o key = unwrap_or (and_then (get o key) as_array) []

unfoldable pub legacy_account : Fields → AccountStore
unfolding trim_recents normalize_default
legacy_account o =
    let account = trim_recents (record default_account {
      profiles = take max_profiles (list_at o "profiles");
      recents = list_at o "recents";
      ui_preferences = unwrap_or (get o "ui_preferences") (json []);
    }) in
    record account {
      default_connection =
          unwrap_or
            (map_some (λ selection. value_or_fastest (normalize_default selection account))
              (and_then (get o "default_connection") as_object))
            account.default_connection;
    }

unfoldable pub import_object : Fields → StoreFile → StoreFile × Bool
unfolding legacy_account put_account
import_object o file =
    let version = unwrap_or (and_then (get o "version") as_u64) 0 in
    if leb 1 version && leb version 4
    then (
      record (put_account legacy_scope (legacy_account o) file) {
        migration = record file.migration { legacy_qt_store_imported = true };
        revision = next_revision file.revision;
      },
      true,
    )
    else (file, false)
