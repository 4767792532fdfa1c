-- ===== src/Store/File.antt =====
-- agent/src/store.rs: the data of the store, the account that is active, and the view of it that
-- is published.
use proton_vpn_omarchy_core.Base.{
  ℕ, ◌+◌, ◌%◌, ◌^◌, Bool, true, false, String, List, [], ◌∷◌, Option, none, some, Table, entry,
  set_entry, unwrap_or, or_else, and_then, is_some, length, str_eq,
}
use proton_vpn_omarchy_core.Json.{Value, string, json, as_u64, text_of, member}
use proton_vpn_omarchy_core.Backend.{Result}
use proton_vpn_omarchy_core.Protocol.Snapshot.{CanonicalStoreState}
use proton_vpn_omarchy_core.Store.Edit.{Edit}

abbrev pub store_version : ℕ
store_version = 1

abbrev pub max_store_bytes : ℕ
max_store_bytes = 1048576

abbrev pub max_profiles : ℕ
max_profiles = 128

abbrev pub max_excluded_locations : ℕ
max_excluded_locations = 256

abbrev pub max_unpinned_recents : ℕ
max_unpinned_recents = 6

abbrev pub max_page_size : ℕ
max_page_size = 100

abbrev pub legacy_scope : String
legacy_scope = "legacy-unscoped"

-- `wrapping_add(1)` of a `u64`.
abbrev pub next_revision : ℕ → ℕ
next_revision n = (n + 1) % 2 ^ 64

abbrev pub fastest_default_connection : Value
fastest_default_connection = json (("type", string "fastest") ∷ [])

pub record Onboarding : Type 0 where
  pub complete : Bool
  pub locale : String
  pub start_with_omarchy : Bool
  pub auto_connect : Bool
  pub notifications_enabled : Bool
  pub port_forwarding_notifications_enabled : Bool

abbrev pub default_onboarding : Onboarding
default_onboarding = record {
  complete = false;
  locale = "en";
  start_with_omarchy = true;
  auto_connect = false;
  notifications_enabled = true;
  port_forwarding_notifications_enabled = true;
}

pub record MigrationState : Type 0 where
  pub legacy_qt_store_imported : Bool
  pub copied_to_account_keys : List String
  pub official_default_profiles_seeded_for_accounts : List String
  pub fastest_default_profile_seeded_for_accounts : List String

abbrev pub default_migration : MigrationState
default_migration = record {
  legacy_qt_store_imported = false;
  copied_to_account_keys = [];
  official_default_profiles_seeded_for_accounts = [];
  fastest_default_profile_seeded_for_accounts = [];
}

pub record ExcludedLocation : Type 0 where
  pub kind : String
  pub country_code : String
  pub state : String
  pub city : String

pub record AccountStore : Type 0 where
  pub profiles : List Value
  pub recents : List Value
  pub excluded_locations : List ExcludedLocation
  pub default_connection : Value
  pub ui_preferences : Value

abbrev pub default_account : AccountStore
default_account = record {
  profiles = [];
  recents = [];
  excluded_locations = [];
  default_connection = fastest_default_connection;
  ui_preferences = json [];
}

pub record StoreFile : Type 0 where
  pub version : ℕ
  pub revision : ℕ  -- u64
  pub onboarding : Onboarding
  pub active_account_key : Option String
  pub accounts : Table AccountStore
  pub migration : MigrationState

abbrev pub default_store_file : StoreFile
default_store_file = record {
  version = store_version;
  revision = 0;
  onboarding = default_onboarding;
  active_account_key = none;
  accounts = [];
  migration = default_migration;
}

-- `data.revision = data.revision.wrapping_add(1)`.
abbrev pub next_file : StoreFile → StoreFile
next_file file = record file { revision = next_revision file.revision }

-- `account_ref`: the active account's data, that of the legacy scope, or none.
unfoldable pub account_ref : StoreFile → AccountStore
unfolding entry
account_ref file =
    unwrap_or
      (or_else (and_then file.active_account_key (λ key. entry key file.accounts))
        (entry legacy_scope file.accounts))
      default_account

-- `account_mut`: the entry of the active account, which is made when it is missing; what is done
-- to it through the borrow, and the data with it.
abbrev pub active_key : StoreFile → String
active_key file = unwrap_or file.active_account_key legacy_scope

unfoldable pub entry_or_default : String → StoreFile → AccountStore
unfolding entry
entry_or_default key file = unwrap_or (entry key file.accounts) default_account

unfoldable pub put_account : String → AccountStore → StoreFile → StoreFile
unfolding set_entry
put_account key account file = record file { accounts = set_entry key account file.accounts }

abbrev pub written_back :
    {A : Type 0} → String → StoreFile → AccountStore × Result A → StoreFile × Result A
written_back key file (account, r) = (put_account key account file, r)

unfoldable pub account_mut : {A : Type 0} → Edit AccountStore A → Edit StoreFile A
unfolding entry_or_default put_account
account_mut m file =
    written_back (active_key file) file (m (entry_or_default (active_key file) file))

unfoldable pub store_state : StoreFile → CanonicalStoreState
unfolding account_ref
store_state file =
    let account = account_ref file in
    record {
      revision = file.revision;
      ready = true;
      onboarding_complete = file.onboarding.complete;
      locale = file.onboarding.locale;
      start_with_omarchy = file.onboarding.start_with_omarchy;
      auto_connect = file.onboarding.auto_connect;
      notifications_enabled = file.onboarding.notifications_enabled;
      port_forwarding_notifications_enabled = file.onboarding.port_forwarding_notifications_enabled;
      account_scope_known = is_some file.active_account_key;
      profile_count = length account.profiles;
      recent_count = length account.recents;
      default_connection = account.default_connection;
      migration_available = file.migration.legacy_qt_store_imported;
    }

-- `get(key).and_then(Value::as_str) == Some(text)` of a stored profile or recent.
abbrev pub is_text : Option String → String → Bool
is_text none s = false
is_text (some t) s = str_eq t s

unfoldable pub has_text : String → String → Value → Bool
unfolding text_of
has_text key s v = is_text (text_of v key) s

-- `get(key).and_then(Value::as_u64).unwrap_or(0)`.
unfoldable pub number_at : String → Value → ℕ
number_at key v = unwrap_or (and_then (member v key) as_u64) 0
