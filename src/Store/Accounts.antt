-- ===== src/Store/Accounts.antt =====
-- agent/src/store.rs: the account that becomes active, and the opening of the store.
use proton_vpn_omarchy_core.Base.{
  ℕ, Bool, true, false, ◌&&◌, ◌||◌, not, String, [], ◌∷◌, ◌++◌, Option, none, some, any, str_eq,
  is_empty, trim, entry, has_entry, unwrap_or, keep_if, map_some, if◌then◌else◌,
}
use proton_vpn_omarchy_core.Json.{Value, boolean, json}
use proton_vpn_omarchy_core.Backend.{Result, ok, err}
use proton_vpn_omarchy_core.Io.{invalid_data, IoResult, Act, ◌>>=◌, ◌>>◌, done, current, or_undo}
use proton_vpn_omarchy_core.Operations.Registry.{Coordinator}
use proton_vpn_omarchy_core.Store.Edit.{Edit}
use proton_vpn_omarchy_core.Store.File.{
  StoreFile, default_account, default_store_file, put_account, next_revision, legacy_scope,
}
use proton_vpn_omarchy_core.Store.Ids.{account_fingerprint}
use proton_vpn_omarchy_core.Store.Defaults.{repair_default_connections}
use proton_vpn_omarchy_core.Store.Seed.{
  seed_account_with_official_profiles, seed_account_with_fastest_profile,
  seed_known_accounts_with_official_profiles, seed_known_accounts_with_fastest_profile,
}
use proton_vpn_omarchy_core.Store.Disk.{
  Disk, io_error, save_store, save_lifecycle, sync_autostart_registration, load_store,
  import_legacy,
}
use proton_vpn_omarchy_core.Store.Handle.{
  Inner, save, save_settings, sync_autostart, roll_back, publish_locked, replied,
}

-- An account that is new takes over what the older store had, or starts empty.
unfoldable pub adopt : String → StoreFile → StoreFile
unfolding entry put_account
adopt key file =
    if has_entry key file.accounts
    then file
    else let adopted =
        put_account key (unwrap_or (entry legacy_scope file.accounts) default_account) file in
      let copied = adopted.migration.copied_to_account_keys in
      if adopted.migration.legacy_qt_store_imported && not (any (str_eq key) copied)
      then record adopted {
        migration = record adopted.migration { copied_to_account_keys = copied ++ key ∷ [] };
      }
      else adopted

abbrev pub is_active : String → Option String → Bool
is_active key none = false
is_active key (some active) = str_eq active key

abbrev pub changed_value : Bool → Value
changed_value b = json (("changed", boolean b) ∷ [])

module _ (ip_text : String → Option String) where
  -- The account's data and its profiles, up to `?`.
  unfoldable pub prepare : (String → ℕ) → String → Edit StoreFile Bool
  unfolding adopt seed_account_with_official_profiles seed_account_with_fastest_profile
  prepare now key file =
      proton_vpn_omarchy_core.Store.Edit.◌>>=◌ (seed_account_with_official_profiles ip_text now key)
        (λ _. seed_account_with_fastest_profile ip_text now key) (adopt key file)

  module _ (disk : Disk) (path lifecycle_path : disk.FilePath) where
    abbrev pub activated : String → StoreFile → StoreFile
    activated key file = record file {
      active_account_key = some key;
      revision = next_revision file.revision;
    }

    abbrev put_file : StoreFile → Inner disk path lifecycle_path → Inner disk path lifecycle_path
    put_file file s = record s { file = file }

    unfoldable pub save_activated : StoreFile → Act (Inner disk path lifecycle_path) (Unit {0})
    unfolding save roll_back publish_locked
    save_activated previous = do
      or_undo (save disk path lifecycle_path) (roll_back disk path lifecycle_path previous)
      publish_locked disk path lifecycle_path

    abbrev pub when_prepared :
        String
        → Inner disk path lifecycle_path
        → StoreFile × Result Bool
        → Inner disk path lifecycle_path × Result Value
    when_prepared key s (file, err e) = (put_file file s, err e)
    when_prepared key s (file, ok b) =
        replied disk path lifecycle_path (changed_value true)
          (save_activated s.file (put_file (activated key file) s))

    unfoldable pub activate_key :
        (String → ℕ)
        → String
        → Inner disk path lifecycle_path
        → Inner disk path lifecycle_path × Result Value
    unfolding prepare save_activated
    activate_key now key s =
        if is_active key s.file.active_account_key
        then (s, ok (changed_value false))
        else when_prepared key s (prepare now key s.file)

    unfoldable pub activate_account :
        (String → String)
        → (String → ℕ)
        → Option String
        → Inner disk path lifecycle_path
        → Inner disk path lifecycle_path × Result Value
    unfolding account_fingerprint activate_key
    activate_account to_lowercase now account_name s =
        elim (keep_if (λ name. not (is_empty name)) (map_some trim account_name)) [
          | none ↦ (s, ok (changed_value false))
          | some name ↦ activate_key now (account_fingerprint to_lowercase name) s
        ]

    abbrev as_io : {A : Type 0} → StoreFile × Result A → IoResult (StoreFile × A)
    as_io (file, ok a) = IoResult.ok (file, a)
    as_io (file, err e) = IoResult.failed (io_error invalid_data e.message)

    abbrev lifted : {A : Type 0} → IoResult A → Act disk.World A
    lifted r = λ w. (w, r)

    abbrev read_or_new : Bool → Act disk.World StoreFile
    read_or_new existed = if existed then load_store disk path else done default_store_file

    abbrev import_if : Bool → disk.FilePath → StoreFile → Act disk.World (StoreFile × Bool)
    import_if existed legacy_path file =
        if not existed then import_legacy disk legacy_path file else done (file, false)

    abbrev save_if : Bool → StoreFile → Act disk.World (Unit {0})
    save_if b file = if b then save_store disk path file else done tt

    -- `open`: what is read or imported, seeded and repaired, then written where it differs.
    unfoldable pub open_file : (String → String → ℕ) → disk.FilePath → Act disk.World StoreFile
    unfolding load_store import_legacy seed_known_accounts_with_official_profiles
        seed_known_accounts_with_fastest_profile repair_default_connections save_store
        save_lifecycle sync_autostart_registration
    open_file now legacy_path = do
      w ← current
      let existed = disk.exists w path
      file ← read_or_new existed
      (file, migrated) ← import_if existed legacy_path file
      (file, seeded) ← lifted (as_io (seed_known_accounts_with_official_profiles ip_text now file))
      (file, fastest) ← lifted (as_io (seed_known_accounts_with_fastest_profile ip_text now file))
      let (file, repaired) = repair_default_connections file
      save_if (not existed || migrated || seeded || fastest || repaired) file
      save_lifecycle disk lifecycle_path file.onboarding
      sync_autostart_registration disk lifecycle_path file.onboarding.start_with_omarchy
      done file

    abbrev with_handle :
        Coordinator → disk.World × IoResult StoreFile → IoResult (Inner disk path lifecycle_path)
    with_handle c (w, IoResult.failed e) = IoResult.failed e
    with_handle c (w, IoResult.ok file) = IoResult.ok (record {
      file = file;
      coordinator =
          proton_vpn_omarchy_core.Store.Handle.publish_store disk path lifecycle_path file c;
      world = w;
    })

    unfoldable pub open_store :
        (String → String → ℕ)
        → disk.FilePath
        → Coordinator
        → disk.World
        → IoResult (Inner disk path lifecycle_path)
    unfolding open_file proton_vpn_omarchy_core.Store.Handle.publish_store
    open_store now legacy_path c w = with_handle c (open_file now legacy_path w)
