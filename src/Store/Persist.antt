-- ===== src/Store/Persist.antt =====
-- agent/src/store.rs: what `persist`, the part of `mutate` after the change, has written when it succeeds,
-- and that it puts the data back when it fails.
use proton_vpn_omarchy_core.Base.{Bool, true, false, sym, subst, ◌≡◌, refl, ap, ◌∙◌, if◌then◌else◌}
use proton_vpn_omarchy_core.Io.{
  IoResult, Act, ◌>>=◌, ◌>>◌, done, attempt, or_undo, After, Triple, Keeps, bind-Triple, bind-Keeps,
  attempt-Keeps, or_undo-Triple, After-both,
}
use proton_vpn_omarchy_core.Operations.Registry.{Coordinator}
use proton_vpn_omarchy_core.Store.File.{StoreFile}
use proton_vpn_omarchy_core.Store.Disk.{
  Disk, save_store, save_lifecycle, sync_autostart_registration,
}
use proton_vpn_omarchy_core.Store.Handle.{
  Inner, differ, in_world, on_disk, publish_store, publish_locked, save, save_settings,
  sync_autostart, roll_back, roll_back_files, roll_back_all, lifecycle_differs, persist,
}

module _ (disk : Disk) (path lifecycle_path : disk.FilePath) where
  abbrev State : Type 0
  State = Inner disk path lifecycle_path

  -- The data and the snapshot are these; the file system is any.
  abbrev pub Holds : StoreFile → Coordinator → State → Type 0
  Holds file c s = (s.file ≡ file) × (s.coordinator ≡ c)

  -- The data and the snapshot are these, and the file system is as `W` says.
  abbrev pub HoldsAt : StoreFile → Coordinator → (disk.World → Type 0) → State → Type 0
  HoldsAt file c W s = (s.file ≡ file) × (s.coordinator ≡ c) × W s.world

  -- A call of the file system has been made and has succeeded.
  abbrev pub Done : Act disk.World (Unit {0}) → disk.World → disk.World → Type 0
  Done m v w = m v ≡ (w, IoResult.ok tt)

  abbrev pub DoneIf : Bool → Act disk.World (Unit {0}) → disk.World → disk.World → Type 0
  DoneIf true m v w = Done m v w
  DoneIf false m v w = w ≡ v

  -- The store's file has been written, then the lifecycle settings if they differ, and then the start
  -- of the agent has been set up if that differs.
  pub record IsWritten (previous file : StoreFile) (v w : disk.World) : Type 0 where
    pub after_store : disk.World
    pub after_settings : disk.World
    pub store_saved : save_store disk path file v ≡ (after_store, IoResult.ok tt)
    pub settings_saved :
        DoneIf
          (lifecycle_differs file.onboarding previous.onboarding)
          (save_lifecycle disk lifecycle_path file.onboarding)
          after_store
          after_settings
    pub start_synced :
        DoneIf
          (differ file.onboarding.start_with_omarchy previous.onboarding.start_with_omarchy)
          (sync_autostart_registration disk lifecycle_path file.onboarding.start_with_omarchy)
          after_settings
          w

  -- The file system after a call, from one that `W` holds of.
  abbrev pub Then : (disk.World → Type 0) → (disk.World → disk.World → Type 0) → disk.World → Type 0
  Then W R w = (v : disk.World) × W v × R v w

  on_disk-Triple :
      (file : StoreFile) (c : Coordinator) (W : disk.World → Type 0)
      (m : StoreFile → Act disk.World (Unit {0}))
      → Triple
          (HoldsAt file c W)
          (on_disk disk path lifecycle_path (λ s. m s.file))
          (λ _. HoldsAt file c (Then W (Done (m file))))
          (Holds file c)
  on_disk-Triple file c W m s h = of_result (m s.file s.world) (ap (λ f. m f s.world) (sym h.0))
    where
      of_result :
          (r : disk.World × IoResult (Unit {0}))
          → m file s.world ≡ r
          → After
              (λ _. HoldsAt file c (Then W (Done (m file))))
              (Holds file c)
              (in_world disk path lifecycle_path s r)
      of_result (w, IoResult.ok u) e = (h.0, h.1, (s.world, h.2, e))
      of_result (w, IoResult.failed f) e = (h.0, h.1)

  -- A call of the file system alone.
  on_disk-Keeps :
      {A : Type 0} (file : StoreFile) (c : Coordinator) (m : State → Act disk.World A)
      → Keeps (Holds file c) (on_disk disk path lifecycle_path m)
  on_disk-Keeps file c m s h =
      After-both (Holds file c) (record s { world = (m s s.world).0 }) (m s s.world).1 h

  pub save-Keeps :
      (file : StoreFile) (c : Coordinator) → Keeps (Holds file c) (save disk path lifecycle_path)
  unfolding save
  save-Keeps file c = on_disk-Keeps file c (λ s. save_store disk path s.file)

  save_settings-Keeps :
      (file : StoreFile) (c : Coordinator)
      → Keeps (Holds file c) (save_settings disk path lifecycle_path)
  unfolding save_settings
  save_settings-Keeps file c =
      on_disk-Keeps file c (λ s. save_lifecycle disk lifecycle_path s.file.onboarding)

  sync_autostart-Keeps :
      (file : StoreFile) (c : Coordinator)
      → Keeps (Holds file c) (sync_autostart disk path lifecycle_path)
  unfolding sync_autostart
  sync_autostart-Keeps file c =
      on_disk-Keeps file c
        (λ s. sync_autostart_registration disk lifecycle_path s.file.onboarding.start_with_omarchy)

  abbrev saving : Act State (Unit {0})
  saving = save disk path lifecycle_path

  abbrev saving_settings : Act State (Unit {0})
  saving_settings = save_settings disk path lifecycle_path

  abbrev syncing : Act State (Unit {0})
  syncing = sync_autostart disk path lifecycle_path

  abbrev quietly : Act State (Unit {0}) → Act State (Unit {0})
  quietly m = attempt m >>= λ r. done tt

  quietly-Keeps : (P : State → Type 0) (m : Act State (Unit {0})) → Keeps P m → Keeps P (quietly m)
  quietly-Keeps P m h = bind-Keeps P (attempt m) (λ r. done tt) (attempt-Keeps P m h) (λ r s p. p)

  seq-Triple :
      (P R Q E : State → Type 0) (m n : Act State (Unit {0}))
      → Triple P m (λ _. R) E
      → Triple R n (λ _. Q) E
      → Triple P (m >> n) (λ _. Q) E
  seq-Triple P R Q E m n h k = bind-Triple P m (λ _. R) (λ _. n) (λ _. Q) E h (λ _. k)

  -- Each way back ends with the data as it was, whatever the calls of the file system make of it.
  module _ (previous file : StoreFile) (c : Coordinator) where
    abbrev Now : State → Type 0
    Now = Holds file c

    abbrev Back : State → Type 0
    Back = Holds previous c

    abbrev Reverts : Act State (Unit {0}) → Type 0
    Reverts m = Triple Now m (λ _. Back) Back

    abbrev going_back : Act State (Unit {0})
    going_back = roll_back disk path lifecycle_path previous

    abbrev files_back : Act State (Unit {0})
    files_back = roll_back_files disk path lifecycle_path previous

    abbrev all_back : Act State (Unit {0})
    all_back = roll_back_all disk path lifecycle_path previous

    pub going_back-Reverts : Reverts going_back
    unfolding roll_back
    going_back-Reverts s h = (refl, h.1)

    files_back-Reverts : Reverts files_back
    unfolding roll_back_files
    files_back-Reverts =
        seq-Triple Now Back Back Back going_back (quietly saving >> quietly saving_settings)
          going_back-Reverts
          (seq-Triple Back Back Back Back (quietly saving) (quietly saving_settings)
            (quietly-Keeps Back saving (save-Keeps previous c))
            (quietly-Keeps Back saving_settings (save_settings-Keeps previous c)))

    all_back-Reverts : Reverts all_back
    unfolding roll_back_all
    all_back-Reverts =
        seq-Triple Now Back Back Back files_back (quietly syncing) files_back-Reverts
          (quietly-Keeps Back syncing (sync_autostart-Keeps previous c))

    abbrev NowAt : (disk.World → Type 0) → State → Type 0
    NowAt W = HoldsAt file c W

    -- A step of `persist`: `R` relates the file systems before and after it, and on an error the data
    -- is as it was.
    abbrev pub Step :
        (disk.World → Type 0) → Act State (Unit {0}) → (disk.World → disk.World → Type 0) → Type 0
    Step W m R = Triple (NowAt W) m (λ _. NowAt (Then W R)) Back

    undone-Step :
        (W : disk.World → Type 0) (m : StoreFile → Act disk.World (Unit {0}))
        (undo : Act State (Unit {0}))
        → Reverts undo
        → Step W (or_undo (on_disk disk path lifecycle_path (λ s. m s.file)) undo) (Done (m file))
    undone-Step W m undo back =
        or_undo-Triple (NowAt W) (on_disk disk path lifecycle_path (λ s. m s.file)) undo
          (λ _. NowAt (Then W (Done (m file)))) Now Back (on_disk-Triple file c W m) back

    if-Step :
        (W : disk.World → Type 0) (b : Bool) (m : Act State (Unit {0}))
        (n : Act disk.World (Unit {0}))
        → Step W m (Done n)
        → Step W (if b then m else done tt) (DoneIf b n)
    if-Step W true m n h = h
    if-Step W false m n h = λ s p. (p.0, p.1, (s.world, p.2, refl))

    pub saving-Step :
        (W : disk.World → Type 0)
        → Step W (or_undo saving going_back) (Done (save_store disk path file))
    unfolding save
    saving-Step W = undone-Step W (save_store disk path) going_back going_back-Reverts

    abbrev published : Coordinator
    published = publish_store disk path lifecycle_path file c

    abbrev settings_step : Act State (Unit {0})
    settings_step =
        if lifecycle_differs file.onboarding previous.onboarding
        then or_undo saving_settings files_back
        else done tt

    abbrev autostart_step : Bool → Act State (Unit {0})
    autostart_step b = if b then or_undo syncing all_back else done tt

    abbrev publishing : Act State (Unit {0})
    publishing = publish_locked disk path lifecycle_path

    pub publishing-Triple :
        (W V : disk.World → Type 0)
        → ((w : disk.World) → W w → V w)
        → Triple (NowAt W) publishing (λ _. HoldsAt file published V) Back
    unfolding publish_locked
    publishing-Triple W V f s h = (
      h.0,
      ap (λ f. publish_store disk path lifecycle_path f s.coordinator) h.0
          ∙ ap (publish_store disk path lifecycle_path file) h.1,
      f s.world h.2,
    )

    abbrev settings_differ : Bool
    settings_differ = lifecycle_differs file.onboarding previous.onboarding

    abbrev start_differs : Bool
    start_differs = differ file.onboarding.start_with_omarchy previous.onboarding.start_with_omarchy

    settings-Step :
        (W : disk.World → Type 0)
        → Step W settings_step
            (DoneIf settings_differ (save_lifecycle disk lifecycle_path file.onboarding))
    unfolding save_settings
    settings-Step W = if-Step W settings_differ _ _ (
        undone-Step W (λ f. save_lifecycle disk lifecycle_path f.onboarding) files_back
          files_back-Reverts)

    start-Step :
        (W : disk.World → Type 0)
        → Step W (autostart_step start_differs) (
            DoneIf start_differs
              (sync_autostart_registration disk lifecycle_path file.onboarding.start_with_omarchy))
    unfolding sync_autostart
    start-Step W = if-Step W start_differs _ _ (
        undone-Step W
          (λ f. sync_autostart_registration disk lifecycle_path f.onboarding.start_with_omarchy)
          all_back all_back-Reverts)

    pub persist-Triple :
        (v : disk.World)
        → Triple
            (NowAt (λ w. w ≡ v))
            (persist disk path lifecycle_path previous file)
            (λ _. HoldsAt file published (IsWritten previous file v))
            Back
    unfolding persist
    persist-Triple v =
        let stored = Then (λ w. w ≡ v) (Done (save_store disk path file)) in
        let settled =
          Then stored
            (DoneIf settings_differ (save_lifecycle disk lifecycle_path file.onboarding)) in
        let started = Then settled (
          DoneIf start_differs
            (sync_autostart_registration disk lifecycle_path file.onboarding.start_with_omarchy)) in
        let Published = HoldsAt file published (IsWritten previous file v) in
        seq-Triple (NowAt (λ w. w ≡ v)) (NowAt stored) Published Back (or_undo saving going_back)
          (settings_step >> (autostart_step start_differs >> publishing)) (saving-Step (λ w. w ≡ v))
          (seq-Triple (NowAt stored) (NowAt settled) Published Back settings_step
            (autostart_step start_differs >> publishing) (settings-Step stored)
            (seq-Triple (NowAt settled) (NowAt started) Published Back
              (autostart_step start_differs) publishing (start-Step settled)
              (publishing-Triple started (IsWritten previous file v) written)))
      where
        written :
            (w : disk.World)
            → Then
                (Then
                  (Then (λ u. u ≡ v) (Done (save_store disk path file)))
                  (DoneIf settings_differ (save_lifecycle disk lifecycle_path file.onboarding)))
                (DoneIf start_differs (
                  sync_autostart_registration disk lifecycle_path
                    file.onboarding.start_with_omarchy))
                w
            → IsWritten previous file v w
        written w (second, (first, (start, same, stored), settings), synced) = record {
          after_store = first;
          after_settings = second;
          store_saved =
              subst (λ u. save_store disk path file u ≡ (first, IoResult.ok tt)) same stored;
          settings_saved = settings;
          start_synced = synced;
        }
