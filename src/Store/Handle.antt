-- ===== src/Store/Handle.antt =====
-- agent/src/store.rs: `StoreHandle`. Its state is the store's data, the coordinator with the snapshot
-- that both publish to, and the file system. The mutex makes each method one step.
use proton_vpn_omarchy_core.Base.{
  ℕ, Bool, true, ◌||◌, not, String, List, [], ◌∷◌, Option, str_eq, select, concat, if◌then◌else◌,
}
use proton_vpn_omarchy_core.Json.{Value, boolean, string, natural, json}
use proton_vpn_omarchy_core.Backend.{
  BackendError, Result, ok, err, new_error, failure_of, set_retryable,
}
use proton_vpn_omarchy_core.Io.{IoError, IoResult, Act, ◌>>=◌, ◌>>◌, done, change, attempt, or_undo}
use proton_vpn_omarchy_core.Operations.Registry.{Coordinator, OperationLease}
use proton_vpn_omarchy_core.Operations.Begin.{begin}
use proton_vpn_omarchy_core.Operations.Finish.{finish}
use proton_vpn_omarchy_core.Protocol.Snapshot.{CanonicalStoreState}
use proton_vpn_omarchy_core.Store.Edit.{Edit}
use proton_vpn_omarchy_core.Store.File.{
  StoreFile, Onboarding, account_ref, store_state, next_revision, next_file,
}
use proton_vpn_omarchy_core.Store.Excluded.{locations_value}
use proton_vpn_omarchy_core.Store.Requests.{
  complete_onboarding, set_preferences, save_profile, duplicate_profile,
}
use proton_vpn_omarchy_core.Store.Changes.{
  delete_profile, delete_recent, set_excluded_locations, set_default_connection, pin_recent,
  record_recent, list_collection, profiles, recents,
}
use proton_vpn_omarchy_core.Store.Resolve.{resolve_connection}
use proton_vpn_omarchy_core.Store.Disk.{
  Disk, save_store, save_lifecycle, sync_autostart_registration,
}

abbrev pub store_io_error : IoError → BackendError
store_io_error e =
    set_retryable
      (new_error "store_io" (concat ("Unable to persist canonical state: " ∷ e.message ∷ []))) true

-- `summary_value`: what is derived for `Serialize`.
abbrev pub state_value : CanonicalStoreState → Value
state_value s = json (
    ("revision", natural s.revision)
    ∷ ("ready", boolean s.ready)
    ∷ ("onboarding_complete", boolean s.onboarding_complete)
    ∷ ("locale", string s.locale)
    ∷ ("start_with_omarchy", boolean s.start_with_omarchy)
    ∷ ("auto_connect", boolean s.auto_connect)
    ∷ ("notifications_enabled", boolean s.notifications_enabled)
    ∷ ("port_forwarding_notifications_enabled", boolean s.port_forwarding_notifications_enabled)
    ∷ ("account_scope_known", boolean s.account_scope_known)
    ∷ ("profile_count", natural s.profile_count)
    ∷ ("recent_count", natural s.recent_count)
    ∷ ("default_connection", s.default_connection)
    ∷ ("migration_available", boolean s.migration_available)
    ∷ [])

unfoldable pub summary_value : StoreFile → Value
unfolding store_state
summary_value file = state_value (store_state file)

abbrev pub differ : Bool → Bool → Bool
differ a b = if a then not b else b

unfoldable pub lifecycle_differs : Onboarding → Onboarding → Bool
lifecycle_differs s t =
    differ s.complete t.complete
    || not (str_eq s.locale t.locale)
    || differ s.start_with_omarchy t.start_with_omarchy
    || differ s.auto_connect t.auto_connect

module _ (disk : Disk) (path lifecycle_path : disk.FilePath) where
  pub record Inner : Type 0 where
    pub file : StoreFile
    pub coordinator : Coordinator
    pub world : disk.World

  abbrev pub in_world : {A : Type 0} → Inner → disk.World × IoResult A → Inner × IoResult A
  in_world s (w, r) = (record s { world = w }, r)

  abbrev pub on_disk : {A : Type 0} → (Inner → Act disk.World A) → Act Inner A
  on_disk m s = in_world s (m s s.world)

  unfoldable pub publish_store : StoreFile → Coordinator → Coordinator
  unfolding store_state
  publish_store file c = record c {
    state = record c.state { store = store_state file; revision = next_revision c.state.revision };
  }

  unfoldable pub publish_locked : Act Inner (Unit {0})
  unfolding publish_store
  publish_locked = change λ s. record s { coordinator = publish_store s.file s.coordinator }

  unfoldable pub save : Act Inner (Unit {0})
  unfolding save_store
  save = on_disk λ s. save_store disk path s.file

  unfoldable pub save_settings : Act Inner (Unit {0})
  unfolding save_lifecycle
  save_settings = on_disk λ s. save_lifecycle disk lifecycle_path s.file.onboarding

  unfoldable pub sync_autostart : Act Inner (Unit {0})
  unfolding sync_autostart_registration
  sync_autostart =
      on_disk
        λ s. sync_autostart_registration disk lifecycle_path s.file.onboarding.start_with_omarchy

  -- `inner.data = previous`, and the files with it as far as they can be written.
  unfoldable pub roll_back : StoreFile → Act Inner (Unit {0})
  roll_back previous = change λ s. record s { file = previous }

  abbrev quietly : Act Inner (Unit {0}) → Act Inner (Unit {0})
  quietly m = do r ← attempt m; done tt

  unfoldable pub roll_back_files : StoreFile → Act Inner (Unit {0})
  unfolding roll_back save save_settings
  roll_back_files previous = do roll_back previous; quietly save; quietly save_settings

  unfoldable pub roll_back_all : StoreFile → Act Inner (Unit {0})
  unfolding roll_back_files sync_autostart
  roll_back_all previous = do roll_back_files previous; quietly sync_autostart

  abbrev if_needed : Bool → Act Inner (Unit {0}) → Act Inner (Unit {0})
  if_needed b m = if b then m else done tt

  -- `mutate`, after the change and the new revision.
  unfoldable pub persist : StoreFile → StoreFile → Act Inner (Unit {0})
  unfolding roll_back save save_settings sync_autostart roll_back_files roll_back_all
      lifecycle_differs publish_locked
  persist previous file = do
    or_undo save (roll_back previous)
    if_needed (lifecycle_differs file.onboarding previous.onboarding)
        (or_undo save_settings (roll_back_files previous))
    if_needed (differ file.onboarding.start_with_omarchy previous.onboarding.start_with_omarchy)
        (or_undo sync_autostart (roll_back_all previous))
    publish_locked

  abbrev pub replied : {A : Type 0} → A → Inner × IoResult (Unit {0}) → Inner × Result A
  replied a (s, IoResult.ok u) = (s, ok a)
  replied a (s, IoResult.failed e) = (s, err (store_io_error e))

  -- `?` on the change leaves the data as it is then.
  abbrev pub after_change : Inner → StoreFile × Result Value → Inner × Result Value
  after_change s (file, err e) = (record s { file = file }, err e)
  after_change s (file, ok reply) =
      replied reply (persist s.file (next_file file) (record s { file = next_file file }))

  unfoldable pub mutate : Edit StoreFile Value → Inner → Inner × Result Value
  unfolding persist
  mutate mutation s = after_change s (mutation s.file)

  abbrev pub looked_up : Inner → StoreFile × Result Value → Inner × Result Value
  looked_up s (file, r) = (s, r)

  module _ (ip_text : String → Option String) (id_time now : ℕ) where
    -- The arms of the `match` on the method.
    abbrev pub request_arms : Value → Inner → List (String × (Inner × Result Value))
    request_arms params s =
        ("store.get", (s, ok (summary_value s.file)))
        ∷ ("profiles.list", looked_up s (list_collection profiles params s.file))
        ∷ ("recents.list", looked_up s (list_collection recents params s.file))
        ∷ ("onboarding.complete", mutate (complete_onboarding params) s)
        ∷ ("preferences.set", mutate (set_preferences params) s)
        ∷ ("profiles.save", mutate (save_profile ip_text id_time now params) s)
        ∷ ("profiles.duplicate", mutate (duplicate_profile ip_text id_time now params) s)
        ∷ ("profiles.delete", mutate (delete_profile params) s)
        ∷ (
          "excluded_locations.get",
          (s, ok (locations_value (account_ref s.file).excluded_locations)),
        )
        ∷ ("excluded_locations.set", mutate (set_excluded_locations params) s)
        ∷ ("recents.record", mutate (record_recent id_time now params) s)
        ∷ ("recents.pin", mutate (pin_recent id_time now params) s)
        ∷ ("recents.delete", mutate (delete_recent params) s)
        ∷ ("default_connection.set", mutate (set_default_connection params) s)
        ∷ ("connection.resolve", (s, resolve_connection (account_ref s.file) params))
        ∷ []

    unfoldable pub request_inner : String → Value → Inner → Inner × Result Value
    unfolding select summary_value list_collection complete_onboarding set_preferences save_profile
        duplicate_profile delete_profile set_excluded_locations record_recent pin_recent
        delete_recent set_default_connection resolve_connection account_ref mutate
    request_inner method params s =
        select method (request_arms params s)
          (s, err (new_error "method_not_found" "Unknown canonical-store method"))

    abbrev with_coordinator : Coordinator → Inner → Inner
    with_coordinator c s = record s { coordinator = c }

    abbrev pub concluded_with :
        ℕ → Option OperationLease → Inner × Result Value → Inner × Result Value
    concluded_with later lease (s, r) =
        (with_coordinator (finish later lease (failure_of r) s.coordinator) s, r)

    abbrev pub admitted :
        ℕ
        → String
        → Value
        → Inner
        → Result (Option OperationLease) × Coordinator
        → Inner × Result Value
    admitted later method params s (err e, c) = (with_coordinator c s, err e)
    admitted later method params s (ok lease, c) =
        concluded_with later lease (request_inner method params (with_coordinator c s))

    -- `earlier` and `later` are what the coordinator's clock says at the start and at the end.
    unfoldable pub request : ℕ → ℕ → String → String → Value → Inner → Inner × Result Value
    unfolding begin finish request_inner
    request earlier later client method params s =
        admitted later method params s (begin earlier client method s.coordinator)
