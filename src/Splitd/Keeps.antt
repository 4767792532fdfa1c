-- ===== src/Splitd/Keeps.antt =====
-- splitd/src/engine.rs: `reconcile` changes the marker, the tracked processes and the kernel, and
-- nothing else of the engine.
use proton_vpn_omarchy_core.Base.{
  ℕ, Bool, false, true, true, false, ◌&&◌, not, [], ◌∷◌, Option, none, some, Option-cases, inl, inr,
  Map, lookup, any_value, if-both,
}
use proton_vpn_omarchy_core.Splitd.Tracking.{TrackedProcess, build_tracking, needs_process_tracking}
use proton_vpn_omarchy_core.Io.{
  IoResult, ok, failed, Act, ◌>>=◌, ◌>>◌, done, change, After, Keeps, After-both, bind-Keeps,
}
use proton_vpn_omarchy_core.Splitd.Engine.{
  Host, Inner, on_world, is_idle, stop_marking, ensure_marker, sync_marker, synced, set_excluded,
  is_excluded, unmark, mark, retrack, track_processes, reconcile,
}

module _ (host : Host) where
  open host use {World, Marker}

  -- A predicate that does not read what `reconcile` changes.
  abbrev pub IsAbove : (Inner host → Type 0) → Type 0
  IsAbove P =
      (s : Inner host) (m : Option Marker) (t : Map TrackedProcess) (w : World)
      → P s
      → P (record s { marker = m; tracked = t; world = w })

  -- The loops over the marks change the world outside, and nothing of the engine.
  module _ (P : Inner host → Type 0)
      (free : (s : Inner host) (w : World) → P s → P (record s { world = w })) where
    set_excluded-Keeps : (m : Marker) (pid : ℕ) (e : Bool) → Keeps P (set_excluded host m pid e)
    unfolding set_excluded
    set_excluded-Keeps m pid e s h =
        After-both P _ (host.set_excluded m pid e s.world).1 (free s _ h)

    pub unmark-Keeps_free :
        (m : Marker) (next ts : Map TrackedProcess) → Keeps P (unmark host m next ts)
    unfolding unmark
    unmark-Keeps_free m next [] = λ s h. h
    unmark-Keeps_free m next ((pid, t) ∷ ts) =
        if-both (Keeps P) (t.excluded && not (is_excluded host (lookup pid next))) _ _
          (bind-Keeps P _ _ (set_excluded-Keeps m pid false) (λ _. unmark-Keeps_free m next ts))
          (unmark-Keeps_free m next ts)

    pub mark-Keeps_free : (m : Marker) (ts : Map TrackedProcess) → Keeps P (mark host m ts)
    unfolding mark
    mark-Keeps_free m [] = λ s h. h
    mark-Keeps_free m ((pid, t) ∷ ts) =
        if-both (Keeps P) t.excluded _ _
          (bind-Keeps P _ _ (set_excluded-Keeps m pid true) (λ _. mark-Keeps_free m ts))
          (mark-Keeps_free m ts)

  module _ (P : Inner host → Type 0) (above : IsAbove P) where
    pub on_world-Keeps : {A : Type 0} (m : Act World A) → Keeps P (on_world host m)
    on_world-Keeps m s h = After-both P _ (m s.world).1 (above s s.marker s.tracked (m s.world).0 h)

    set_tracked-Keeps : (t : Map TrackedProcess) → Keeps P (change (λ s. record s { tracked = t }))
    set_tracked-Keeps t s h = above s s.marker t s.world h

    stop_marking-Keeps : Keeps P (stop_marking host)
    unfolding stop_marking
    stop_marking-Keeps s h = above s none [] _ h

    ensure_marker-Keeps : Keeps P (ensure_marker host)
    unfolding ensure_marker
    ensure_marker-Keeps s h = elim (Option-cases s.marker) [
      | inr (m, e) ↦ rw (e, ensure_marker) h
      | inl e ↦ rw (e, ensure_marker) (attached s h)
    ]
      where
        attached :
            Keeps P
              (do m ← on_world host host.attach; change (λ t. record t { marker = some m }); done m)
        attached =
            bind-Keeps P (on_world host host.attach)
              (λ m. (do change (λ t. record t { marker = some m }); done m))
              (on_world-Keeps host.attach) (λ m t k. above t (some m) t.tracked t.world k)

    sync_marker-Keeps : (m : Marker) → Keeps P (sync_marker host m)
    unfolding sync_marker
    sync_marker-Keeps m s h =
        After-synced (host.sync_configs s.configs s.destination_policies m s.world)
      where
        After-synced :
            (r : (World × Marker) × IoResult (Unit {0})) → After (λ _. P) P (synced host s r)
        After-synced ((w, n), ok _) = above s (some n) s.tracked w h
        After-synced ((w, n), failed e) = above s (some n) s.tracked w h

    unmark-Keeps : (m : Marker) (next ts : Map TrackedProcess) → Keeps P (unmark host m next ts)
    unmark-Keeps = unmark-Keeps_free P (λ s w h. above s s.marker s.tracked w h)

    mark-Keeps : (m : Marker) (ts : Map TrackedProcess) → Keeps P (mark host m ts)
    mark-Keeps = mark-Keeps_free P (λ s w h. above s s.marker s.tracked w h)

    retrack-Keeps : (m : Marker) (next : Map TrackedProcess) → Keeps P (retrack host m next)
    unfolding retrack
    retrack-Keeps m next s h =
        bind-Keeps P (unmark host m next s.tracked) (λ _. (do mark host m next; finish))
          (unmark-Keeps m next s.tracked)
          (λ _.
            bind-Keeps P (mark host m next) (λ _. finish) (mark-Keeps m next)
              (λ _. set_tracked-Keeps next))
          s h
      where
        finish : Act (Inner host) (Unit {0})
        finish = change (λ t. record t { tracked = next })

    track_processes-Keeps : (m : Marker) → Keeps P (track_processes host m)
    unfolding track_processes
    track_processes-Keeps m s h =
        if-both {A = Act (Inner host) (Unit {0})} (λ a. After (λ _. P) P (a s))
          (any_value needs_process_tracking s.configs) _ _
          (bind-Keeps P (on_world host host.scan) _ (on_world-Keeps host.scan)
            (λ ps. retrack-Keeps m (build_tracking s.configs ps)) s h)
          (retrack-Keeps m [] s h)

    pub reconcile-Keeps : Keeps P (reconcile host)
    unfolding reconcile
    reconcile-Keeps s h =
        if-both {A = Act (Inner host) (Unit {0})} (λ a. After (λ _. P) P (a s)) (is_idle host s) _ _
          (stop_marking-Keeps s h)
          (bind-Keeps P (ensure_marker host) _ ensure_marker-Keeps
            (λ m. bind-Keeps P (sync_marker host m) _ (sync_marker-Keeps m) track_processes-Keeps) s
            h)
