-- ===== src/Store/Tests.antt =====
-- Runs of the model of agent/src/store.rs on concrete data, and the theorems on them.
use mathlib.Core.List.Memᴰ.{head}
use proton_vpn_omarchy_core.Base.{
  ◌↔◌, ℕ, Bool, true, false, String, List, [], ◌∷◌, ◌++◌, Option, none, some, ◌≡◌, refl, subst,
  arith, any, keep, length, Memᴰ, ◌⊎◌, ◌≤◌, All, char_count, trim, has_break, to_ascii_lowercase,
  to_ascii_uppercase, split_at_char, replace_char, byte_length, all_chars, join_with,
}
use proton_vpn_omarchy_core.Json.{
  Value, Fields, get, json, object, object_with, string, boolean, natural, put,
}
use proton_vpn_omarchy_core.Backend.{Result, ok}
use proton_vpn_omarchy_core.Io.{After}
use proton_vpn_omarchy_core.Protocol.Snapshot.{default_snapshot}
use proton_vpn_omarchy_core.Operations.Registry.{new_coordinator}
use proton_vpn_omarchy_core.Store.Checks.{require, refuse_if}
use proton_vpn_omarchy_core.Store.Edit.{lift, change, done, reading}
use proton_vpn_omarchy_core.Store.File.{
  StoreFile, AccountStore, account_ref, default_store_file, default_account, default_migration,
  max_unpinned_recents,
}
use proton_vpn_omarchy_core.Store.TestDisk.{
  memory, memory-IsLawful, memory-IsReadable, content, no_files, temporary_apart,
}
use proton_vpn_omarchy_core.Store.Handle.{Inner, mutate, request_inner}
use proton_vpn_omarchy_core.Store.Commit.{Settled, mutate_lem}
use proton_vpn_omarchy_core.Store.Requests.{set_preferences}
use proton_vpn_omarchy_core.Store.Isolation.{IsApart, request_inner-IsApart}
use proton_vpn_omarchy_core.Store.Tidy.{AllTidy, request_inner-AllTidy}
use proton_vpn_omarchy_core.Store.Recents.{
  trim_recents, is_unpinned, connection_time, most_recent_connection, newest_time,
}
use proton_vpn_omarchy_core.Store.Trimming.{trim_recents-Memᴰ}
use proton_vpn_omarchy_core.Store.Ids.{unique_id, id_at, has_id, has_name, copy_name}
use proton_vpn_omarchy_core.Store.Fresh.{unique_id-IsFree}
use proton_vpn_omarchy_core.Store.Copies.{copy_name-IsFree}
use proton_vpn_omarchy_core.Store.Changes.{
  pin_in_account, with_recorded, recorded, profiles, items_of,
}
use proton_vpn_omarchy_core.Store.Latest.{most_recent_connection-with_recorded}
use proton_vpn_omarchy_core.Store.Resolve.{resolve_last, resolved_recent, resolved_profile}
use proton_vpn_omarchy_core.Store.Defaults.{validate_default}
use proton_vpn_omarchy_core.Store.Choices.{IsGoodChoice, validate_default-IsGoodChoice}
use proton_vpn_omarchy_core.Store.Profiles.{normalize_profile}
use proton_vpn_omarchy_core.Store.Connectable.{IsOk, normalize_profile-IsOk}
use proton_vpn_omarchy_core.Store.Disk.{Bytes, save_store}
use proton_vpn_omarchy_core.Store.Atomic.{save_store-IsAtomic}
use proton_vpn_omarchy_core.Store.Reload.{Reloads, LoadsAsBefore, load_store-save_store}
use proton_vpn_omarchy_core.Store.Pages.{follow, follow-all}
use proton_vpn_omarchy_core.Store.Accounts.{activate_key, prepare, changed_value}
use proton_vpn_omarchy_core.Store.Activation.{Activated, activate_key_lem, activate_key-again}

abbrev recent_of : String → String → Bool → ℕ → Value
recent_of id country pinned time = json (
    ("id", string id)
    ∷ ("kind", string "country")
    ∷ ("countryCode", string country)
    ∷ ("pinned", boolean pinned)
    ∷ ("lastConnectionTimeMs", natural time)
    ∷ [])

abbrev profile_of : String → String → Value
profile_of id name =
    json (("id", string id) ∷ ("name", string name) ∷ ("targetKind", string "fastest") ∷ [])

abbrev some_recents : List Value
some_recents =
    recent_of "r1" "CH" false 50 ∷ recent_of "r2" "US" true 10 ∷ recent_of "r3" "MX" false 70 ∷ []

abbrev some_profiles : List Value
some_profiles = profile_of "p1" "Home" ∷ profile_of "p2" "Home copy" ∷ []

abbrev account : AccountStore
account = record default_account { recents = some_recents; profiles = some_profiles }

abbrev file : StoreFile
file = record default_store_file {
  active_account_key = some "account-1";
  accounts = ("account-1", account) ∷ ("account-2", default_account) ∷ [];
}

abbrev start : Inner memory "state" "lifecycle"
start = record { file = file; coordinator = new_coordinator default_snapshot; world = no_files }

abbrev no_address : String → Option String
no_address s = none

abbrev spanish : Value
spanish = json (("locale", string "es") ∷ [])

mutate_lem_example :
    Settled memory "state" "lifecycle" start
      (set_preferences spanish file)
      (mutate memory "state" "lifecycle" (set_preferences spanish) start)
mutate_lem_example = mutate_lem memory "state" "lifecycle" (set_preferences spanish) start

abbrev of_p1 : Value
of_p1 = json (("id", string "p1") ∷ [])

request_inner-IsApart_example :
    IsApart file "account-2"
      (request_inner memory "state" "lifecycle" no_address 5 6 "profiles.delete" of_p1 start).0.file
request_inner-IsApart_example =
    request_inner-IsApart memory "state" "lifecycle" no_address 5 6 "profiles.delete" of_p1 start
      "account-2" refl

file-AllTidy : AllTidy file
unfolding keep is_unpinned get
file-AllTidy = ((omega arith, (omega arith, tt, tt)), ((omega arith, (omega arith, tt, tt)), tt))

request_inner-AllTidy_example :
    AllTidy
      (request_inner memory "state" "lifecycle" no_address 5 6 "profiles.delete" of_p1 start).0.file
request_inner-AllTidy_example =
    request_inner-AllTidy memory "state" "lifecycle" no_address 5 6 "profiles.delete" of_p1 start
      file-AllTidy

trim_recents-Memᴰ_example :
    Memᴰ (recent_of "r1" "CH" false 50) (trim_recents account).recents
    ⊎ ((is_unpinned (recent_of "r1" "CH" false 50) ≡ true)
        × (length (keep is_unpinned (trim_recents account).recents) ≡ max_unpinned_recents)
        × All
            (λ w. connection_time (recent_of "r1" "CH" false 50) ≤ connection_time w)
            (keep is_unpinned (trim_recents account).recents))
trim_recents-Memᴰ_example = trim_recents-Memᴰ account (recent_of "r1" "CH" false 50) (head refl)

unique_id-IsFree_example :
    (any (has_id (unique_id "recent" 255 some_recents)) some_recents ≡ false)
    × ((i : ℕ) × (unique_id "recent" 255 some_recents ≡ id_at "recent" 255 i) × (i ≤ 3))
unique_id-IsFree_example = unique_id-IsFree "recent" 255 some_recents (omega arith)

copy_name-IsFree_example :
    (any (has_name (copy_name "Home" some_profiles)) some_profiles ≡ false)
    × (char_count (copy_name "Home" some_profiles) ≤ 60)
copy_name-IsFree_example = copy_name-IsFree "Home" some_profiles (omega arith)

abbrev new_recent : Fields
new_recent = object_with (("kind", string "country") ∷ ("countryCode", string "CH") ∷ [])

most_recent_connection-with_recorded_example :
    (most_recent_connection (with_recorded 5 6 new_recent account)
      ≡ some (object (recorded 5 6 new_recent account)))
    × (resolve_last (with_recorded 5 6 new_recent account)
        ≡ resolved_recent
            (with_recorded 5 6 new_recent account)
            (object (recorded 5 6 new_recent account))
            "last")
unfolding newest_time get
most_recent_connection-with_recorded_example =
    most_recent_connection-with_recorded 5 6 new_recent account (omega arith)

abbrev dangling : AccountStore
dangling = record account {
  default_connection = json (("type", string "profile") ∷ ("profileId", string "gone") ∷ []);
}

validate_default-IsGoodChoice_example :
    IsGoodChoice (validate_default dangling) (validate_default dangling).default_connection
    × (validate_default (validate_default dangling) ≡ validate_default dangling)
    × (IsGoodChoice dangling dangling.default_connection ↔ (validate_default dangling ≡ dangling))
    × (validate_default dangling
        ≡ record dangling { default_connection = (validate_default dangling).default_connection })
validate_default-IsGoodChoice_example = validate_default-IsGoodChoice dangling

abbrev raw_profile : Fields
raw_profile = object_with (("name", string "Work") ∷ ("targetKind", string "random") ∷ [])

abbrev stored_profile : Fields
stored_profile = object_with (
    ("id", string "p9")
    ∷ ("name", string "Work")
    ∷ ("targetKind", string "random")
    ∷ ("selectionStrategy", string "random")
    ∷ ("excludeMyCountry", boolean false)
    ∷ ("iconName", string "Speed")
    ∷ ("color", string "#C857E7")
    ∷ ("profileProtocol", string "smart")
    ∷ ("profileNetShieldEnabled", boolean true)
    ∷ ("profileNetShieldLevel", natural 2)
    ∷ ("profileNatType", string "strict")
    ∷ ("profilePortForwardingEnabled", boolean false)
    ∷ ("profileCustomDnsMode", string "inherit")
    ∷ (
      "profileCustomDnsServers",
      proton_vpn_omarchy_core.Json.array proton_vpn_omarchy_core.Json.nil,
    )
    ∷ ("profileLanMode", string "inherit")
    ∷ ("profileLocalDnsMode", string "inherit")
    ∷ ("connectAndGoEnabled", boolean false)
    ∷ ("connectAndGoMode", string "website")
    ∷ ("connectAndGoUrl", string "")
    ∷ ("connectAndGoUsePrivateBrowsingMode", boolean false)
    ∷ ("connectAndGoAppId", string "")
    ∷ ("connectAndGoAppPath", string "")
    ∷ ("createdAtMs", natural 40)
    ∷ ("updatedAtMs", natural 40)
    ∷ [])

normalized : normalize_profile no_address raw_profile none "p9" 40 ≡ ok stored_profile
unfolding normalize_profile proton_vpn_omarchy_core.Store.Checks.◌>>=◌ get require refuse_if
    char_count trim has_break to_ascii_lowercase put
normalized = refl

normalize_profile-IsOk_example : IsOk (resolved_profile (object stored_profile) "profile")
unfolding trim char_count has_break
normalize_profile-IsOk_example =
    normalize_profile-IsOk no_address raw_profile none "p9" 40 stored_profile "profile" normalized
      (refl, refl) refl

follow-all_example : follow profiles file 1 3 0 ≡ some (items_of profiles account)
unfolding items_of account_ref
follow-all_example = follow-all profiles file 1 (omega arith) (omega arith)

save_store-IsAtomic_example :
    After
      (λ _ v.
        (bytes : List ℕ) × (memory.encode_store file ≡ proton_vpn_omarchy_core.Io.ok bytes)
        × (content v "state" ≡ some (bytes ++ 10 ∷ [])))
      (λ v. content v "state" ≡ content no_files "state")
      (save_store memory "state" file no_files)
save_store-IsAtomic_example =
    save_store-IsAtomic memory content "state" file no_files memory-IsLawful temporary_apart

abbrev numbered_file : StoreFile
numbered_file = record default_store_file { revision = 5 }

numbered_file-decodes :
    (b : Bytes)
    → memory.encode_store numbered_file ≡ proton_vpn_omarchy_core.Io.ok b
    → memory.decode_store (b ++ 10 ∷ []) ≡ proton_vpn_omarchy_core.Io.ok numbered_file
numbered_file-decodes b e =
    let same : (123 ∷ 5 ∷ 125 ∷ []) ≡ b = cc in
    subst (λ c. memory.decode_store (c ++ 10 ∷ []) ≡ proton_vpn_omarchy_core.Io.ok numbered_file)
      same refl

load_store-save_store_example :
    After
      (λ _. Reloads memory content "state" numbered_file no_files)
      (LoadsAsBefore memory content "state" numbered_file no_files)
      (save_store memory "state" numbered_file no_files)
load_store-save_store_example =
    load_store-save_store memory content "state" numbered_file no_files memory-IsLawful
      memory-IsReadable temporary_apart refl numbered_file-decodes

abbrev at_zero : String → ℕ
at_zero id = 0

activate_key_lem_example :
    Activated no_address memory "state" "lifecycle" "account-3" start
      (prepare no_address at_zero "account-3" file)
      (activate_key no_address memory "state" "lifecycle" at_zero "account-3" start)
activate_key_lem_example =
    activate_key_lem no_address memory "state" "lifecycle" at_zero "account-3" start refl

-- No account is active, and the first one has been given its profiles.
abbrev none_active : Inner memory "state" "lifecycle"
none_active = record start {
  file = record file {
    active_account_key = none;
    migration = record default_migration {
      official_default_profiles_seeded_for_accounts = "account-1" ∷ [];
      fastest_default_profile_seeded_for_accounts = "account-1" ∷ [];
    };
  };
}

activated_once :
    (activate_key no_address memory "state" "lifecycle" at_zero "account-1" none_active).1
    ≡ ok (changed_value true)
unfolding activate_key proton_vpn_omarchy_core.Store.Edit.◌>>=◌ any
    proton_vpn_omarchy_core.Store.Checks.◌>>=◌ get require refuse_if char_count trim
    to_ascii_lowercase split_at_char replace_char has_break byte_length all_chars put
    to_ascii_uppercase
activated_once = refl

activate_key-again_example :
    ((activate_key no_address memory "state" "lifecycle" at_zero "account-1"
        none_active).0.file.active_account_key
      ≡ some "account-1")
    × (activate_key no_address memory "state" "lifecycle" at_zero "account-1"
          (activate_key no_address memory "state" "lifecycle" at_zero "account-1" none_active).0
        ≡ (
          (activate_key no_address memory "state" "lifecycle" at_zero "account-1" none_active).0,
          ok (changed_value false),
        ))
activate_key-again_example =
    activate_key-again no_address memory "state" "lifecycle" at_zero at_zero "account-1" none_active
      (changed_value true) activated_once

-- A request that is refused at its second member keeps the first one's change.
abbrev half_wrong : Value
half_wrong = json (("locale", string "fr") ∷ ("auto_connect", natural 1) ∷ [])

locale_stays_changed : (set_preferences half_wrong file).0.onboarding.locale ≡ "fr"
unfolding set_preferences proton_vpn_omarchy_core.Store.Edit.◌>>=◌ lift require get
    proton_vpn_omarchy_core.Store.Checks.◌>>=◌ refuse_if replace_char trim byte_length split_at_char
    all_chars change done join_with to_ascii_lowercase
locale_stays_changed = refl

-- A seventh recent that is unpinned and older than the others goes, and the default that named it
-- stays.
abbrev seven : AccountStore
seven = record default_account {
  recents =
      recent_of "r0" "CH" true 1
      ∷ recent_of "r1" "CH" false 11
      ∷ recent_of "r2" "US" false 12
      ∷ recent_of "r3" "MX" false 13
      ∷ recent_of "r4" "SE" false 14
      ∷ recent_of "r5" "NO" false 15
      ∷ recent_of "r6" "FI" false 16
      ∷ [];
  default_connection = json (("type", string "recent") ∷ ("recentId", string "r0") ∷ []);
}

abbrev after_unpinning : AccountStore × Result Value
after_unpinning = pin_in_account 5 6 "r0" false seven

default_dangles :
    (any (has_id "r0") after_unpinning.0.recents ≡ false)
    × (after_unpinning.0.default_connection
        ≡ json (("type", string "recent") ∷ ("recentId", string "r0") ∷ []))
unfolding pin_in_account any proton_vpn_omarchy_core.Store.Edit.◌>>=◌ reading lift refuse_if get
    change done
default_dangles = (refl, refl)
