-- ===== src/Splitd/InStep.antt =====
-- splitd/src/engine.rs: `reconcile` brings the kernel's marks in step with the tracking.
use proton_vpn_omarchy_core.Base.{
  ℕ, false, [], none, some, Option-cases, inl, inr, ◌≡◌, refl, sym, ap, ◌∙◌, lookup, any_value,
  if_some,
}
use proton_vpn_omarchy_core.Splitd.Tracking.{build_tracking, needs_process_tracking}
use proton_vpn_omarchy_core.Io.{
  IoResult, ok, failed, Act, ◌>>=◌, ◌>>◌, proceed, done, change, After, Triple, bind-Triple,
  if-After,
}
use proton_vpn_omarchy_core.Splitd.Engine.{
  Host, Inner, on_world, is_idle, stop_marking, ensure_marker, sync_marker, synced, is_excluded,
  retrack, track_processes, reconcile,
}
use proton_vpn_omarchy_core.Splitd.Marks.{MarkLaws, IsInStep, Lost}
use proton_vpn_omarchy_core.Splitd.Remark.{build_tracking-apart, retrack-IsInStep}

module _ (host : Host) (laws : MarkLaws host) where
  open host use {World, Marker}
  open laws use {marked}

  -- In step, with this marker.
  abbrev pub Armed : Marker → Inner host → Type 0
  Armed m t = IsInStep host laws t × (t.marker ≡ some m)

  -- A call that leaves the marks alone.
  pub on_world-Armed :
      {A : Type 0} (m : Marker) (call : Act World A)
      → ((w : World) (q : ℕ) → marked (call w).0 q ≡ marked w q)
      → Triple (Armed m) (on_world host call) (λ _. Armed m) (Lost host laws)
  on_world-Armed {A = A} m call same s h = ended (call s.world).1
    where
      ended :
          (r : IoResult A)
          → After (λ _. Armed m) (Lost host laws) (record s { world = (call s.world).0 }, r)
      ended (failed e) = tt
      ended (ok a) = (
        record { marks_fit = λ q. same s.world q ∙ h.0.marks_fit q; unmarked = h.0.unmarked },
        h.1,
      )

  track_processes-IsInStep :
      (m : Marker)
      → Triple (Armed m) (track_processes host m) (λ _. IsInStep host laws) (Lost host laws)
  unfolding track_processes
  track_processes-IsInStep m s h =
      if-After (λ _. IsInStep host laws) (Lost host laws)
        (any_value needs_process_tracking s.configs) _ _ s
        (λ _.
          bind-Triple (Armed m) (on_world host host.scan) (λ _. Armed m)
            (λ ps. retrack host m (build_tracking s.configs ps)) (λ _. IsInStep host laws)
            (Lost host laws) (on_world-Armed m host.scan laws.scan_same)
            (λ ps t k.
              retrack-IsInStep host laws m (build_tracking s.configs ps)
                (build_tracking-apart s.configs ps) t k.0 k.1)
            s h)
        (λ _. retrack-IsInStep host laws m [] tt s h.0 h.1)

  sync_marker-Armed :
      (m : Marker) → Triple (IsInStep host laws) (sync_marker host m) Armed (Lost host laws)
  unfolding sync_marker
  sync_marker-Armed m s h =
      ended (host.sync_configs s.configs s.destination_policies m s.world)
        (laws.sync_same s.configs s.destination_policies m s.world)
    where
      ended :
          (r : (World × Marker) × IoResult (Unit {0}))
          → ((q : ℕ) → marked r.0.0 q ≡ marked s.world q)
          → After Armed (Lost host laws) (synced host s r)
      ended ((w, n), failed e) k = tt
      ended ((w, n), ok _) k = (
        record {
          marks_fit = λ q. k q ∙ h.marks_fit q;
          unmarked = λ e. absurd (let no : ⊥ = cc in no);
        },
        refl,
      )

  ensure_marker-IsInStep :
      Triple (IsInStep host laws) (ensure_marker host) (λ _. IsInStep host laws) (Lost host laws)
  unfolding ensure_marker lookup
  ensure_marker-IsInStep s h = elim (Option-cases s.marker) [
    | inr (m, e) ↦ rw (e, ensure_marker) h
    | inl e ↦ rw (e, ensure_marker) (ended e (host.attach s.world).1 refl)
  ]
    where
      untracked : s.marker ≡ none → (q : ℕ) → is_excluded host (lookup q s.tracked) ≡ false
      untracked e q = ap (λ t. is_excluded host (lookup q t)) (h.unmarked e)

      ended :
          s.marker ≡ none
          → (r : IoResult Marker) → (host.attach s.world).1 ≡ r
          → After
              (λ _. IsInStep host laws)
              (Lost host laws)
              (proceed
                (λ m. (do change (λ t. record t { marker = some m }); done m))
                (record s { world = (host.attach s.world).0 }, r))
      ended e (failed f) k = tt
      ended e (ok m) k = record {
        marks_fit = λ q. laws.attach_ok s.world m q k ∙ sym (untracked e q);
        unmarked = λ f. absurd (let no : ⊥ = cc in no);
      }

  stop_marking-IsInStep :
      Triple (IsInStep host laws) (stop_marking host) (λ _. IsInStep host laws) (Lost host laws)
  unfolding stop_marking lookup
  stop_marking-IsInStep s h = record { marks_fit = λ q. cleared q; unmarked = λ e. refl }
    where
      cleared : (q : ℕ) → marked (if_some s.marker (λ m. host.detach m s.world) s.world) q ≡ false
      cleared q = elim (Option-cases s.marker) [
        | inl e ↦ rw e (h.marks_fit q ∙ ap (λ t. is_excluded host (lookup q t)) (h.unmarked e))
        | inr (m, e) ↦ rw e (laws.detached m s.world q)
      ]

  -- A `reconcile` that succeeds leaves the kernel's marks in step with the tracking, if they were
  -- before: exactly the tracked processes that are excluded are marked. (The kernel does as it is
  -- told when a call succeeds.)
  pub reconcile-IsInStep :
      Triple (IsInStep host laws) (reconcile host) (λ _. IsInStep host laws) (Lost host laws)
  unfolding reconcile
  reconcile-IsInStep s h =
      if-After (λ _. IsInStep host laws) (Lost host laws) (is_idle host s) _ _ s
        (λ _. stop_marking-IsInStep s h)
        (λ _.
          bind-Triple (IsInStep host laws) (ensure_marker host) (λ _. IsInStep host laws)
            (λ m. (do m ← sync_marker host m; track_processes host m)) (λ _. IsInStep host laws)
            (Lost host laws) ensure_marker-IsInStep
            (λ m.
              bind-Triple (IsInStep host laws) (sync_marker host m) Armed (track_processes host)
                (λ _. IsInStep host laws) (Lost host laws) (sync_marker-Armed m)
                track_processes-IsInStep)
            s h)
