-- ===== src/Splitd/Follow.antt =====
-- splitd/src/engine.rs: process events keep the kernel's marks in step with the tracking.
use proton_vpn_omarchy_core.Base.{
  ℕ, ◌==◌, ==_iff, Bool, true, false, Option, none, some, Bool-cases, inl, inr, ◌≡◌, refl, sym, ap,
  subst, ◌∙◌, Map, lookup, insert, remove, lookup-insert, lookup-remove, if◌then◌else◌,
}
use proton_vpn_omarchy_core.Splitd.Config.{SplitConfig}
use proton_vpn_omarchy_core.Splitd.Tracking.{ProcessInfo, TrackedProcess}
use proton_vpn_omarchy_core.Io.{
  IoResult, ok, failed, ◌>>=◌, proceed, current, change, attempt, After, Triple, bind-Triple,
  if-After,
}
use proton_vpn_omarchy_core.Splitd.Engine.{Host, Inner, on_world, set_excluded, is_excluded}
use proton_vpn_omarchy_core.Splitd.Engine.{ProcessEvent, fork, exec, exit}
use proton_vpn_omarchy_core.Splitd.Events.{
  forget, follow, follow_found, inherited_from, by_itself, forked, executed_by, executed, dispatch,
  handle_event,
}
use proton_vpn_omarchy_core.Splitd.Marks.{MarkLaws, IsInStep, Lost}
use proton_vpn_omarchy_core.Splitd.InStep.{Armed}

module _ (host : Host) (laws : MarkLaws host) where
  open host use {World, Marker}
  open laws use {marked}

  module _ (m : Marker) (pid : ℕ) where
    -- Where the table and the marks change at `pid` alone, and to the same.
    changed-IsInStep :
        (s : Inner host) (t : Map TrackedProcess) (w : World) (b : Bool)
        → Armed host laws m s
        → ((q : ℕ)
            → is_excluded host (lookup q t)
              ≡ (if pid == q then b else is_excluded host (lookup q s.tracked)))
        → ((q : ℕ) → marked w q ≡ (if pid == q then b else marked s.world q))
        → IsInStep host laws (record s { tracked = t; world = w })
    changed-IsInStep s t w b h table marks = record {
      marks_fit =
          λ q. marks q ∙ ap (λ c. if pid == q then b else c) (h.0.marks_fit q) ∙ sym (table q);
      unmarked = λ e. absurd (let clash = sym h.1 ∙ e in let no : ⊥ = cc in no);
    }

    removed :
        (s : Inner host) (q : ℕ)
        → is_excluded host (lookup q (remove pid s.tracked))
          ≡ (if pid == q then false else is_excluded host (lookup q s.tracked))
    removed s q = ap (is_excluded host) (lookup-remove pid q s.tracked) ∙ swap (pid == q)
      where
        swap :
            (b : Bool)
            → is_excluded host (if b then none else lookup q s.tracked)
              ≡ (if b then false else is_excluded host (lookup q s.tracked))
        swap true = refl
        swap false = refl

    inserted :
        (p : TrackedProcess) (s : Inner host) (q : ℕ)
        → is_excluded host (lookup q (insert pid p s.tracked))
          ≡ (if pid == q then p.excluded else is_excluded host (lookup q s.tracked))
    inserted p s q = ap (is_excluded host) (lookup-insert pid q p s.tracked) ∙ swap (pid == q)
      where
        swap :
            (b : Bool)
            → is_excluded host (if b then some p else lookup q s.tracked)
              ≡ (if b then p.excluded else is_excluded host (lookup q s.tracked))
        swap true = refl
        swap false = refl

    forget-IsInStep :
        Triple (Armed host laws m) (forget host m pid) (λ _. IsInStep host laws) (Lost host laws)
    unfolding forget set_excluded
    forget-IsInStep s h =
        if-After (λ _. IsInStep host laws) (Lost host laws)
          (is_excluded host (lookup pid s.tracked)) _ _
          (record s { tracked = remove pid s.tracked })
          (λ _. ended (host.set_excluded m pid false s.world).1 refl)
          (λ e.
            changed-IsInStep s (remove pid s.tracked) s.world false h (removed s) (λ q. idle q e))
      where
        ended :
            (r : IoResult (Unit {0}))
            → (host.set_excluded m pid false s.world).1 ≡ r
            → After
                (λ _. IsInStep host laws)
                (Lost host laws)
                (
                  record s {
                    tracked = remove pid s.tracked;
                    world = (host.set_excluded m pid false s.world).0;
                  },
                  r,
                )
        ended (failed f) k = tt
        ended (ok _) k =
            changed-IsInStep s (remove pid s.tracked) (host.set_excluded m pid false s.world).0
              false h (removed s) (λ q. laws.set_ok m pid false s.world q k)

        idle :
            (q : ℕ)
            → is_excluded host (lookup pid s.tracked) ≡ false
            → marked s.world q ≡ (if pid == q then false else marked s.world q)
        idle q e = elim (Bool-cases (pid == q)) [
          | inl f ↦ rw f (
              h.0.marks_fit q
              ∙ subst (λ k. is_excluded host (lookup k s.tracked) ≡ false) ((==_iff pid q).0 f) e)
          | inr f ↦ rw f refl
        ]

    follow-IsInStep :
        (p : TrackedProcess)
        → Triple
            (Armed host laws m)
            (follow host m pid p)
            (λ _. IsInStep host laws)
            (Lost host laws)
    unfolding follow set_excluded
    follow-IsInStep p s h = ended (host.set_excluded m pid p.excluded s.world).1 refl
      where
        ended :
            (r : IoResult (Unit {0}))
            → (host.set_excluded m pid p.excluded s.world).1 ≡ r
            → After
                (λ _. IsInStep host laws)
                (Lost host laws)
                (proceed
                  (λ _. change (λ t. record t { tracked = insert pid p t.tracked }))
                  (record s { world = (host.set_excluded m pid p.excluded s.world).0 }, r))
        ended (failed f) k = tt
        ended (ok _) k =
            changed-IsInStep s (insert pid p s.tracked)
              (host.set_excluded m pid p.excluded s.world).0 p.excluded h (inserted p s)
              (λ q. laws.set_ok m pid p.excluded s.world q k)

    follow_found-IsInStep :
        (o : Option TrackedProcess)
        → Triple
            (Armed host laws m)
            (follow_found host m pid o)
            (λ _. IsInStep host laws)
            (Lost host laws)
    follow_found-IsInStep none = λ s h. h.0
    follow_found-IsInStep (some p) = follow-IsInStep p

    attempt-read :
        Triple
          (Armed host laws m)
          (attempt (on_world host (host.read_process pid)))
          (λ _. Armed host laws m)
          (Lost host laws)
    attempt-read s h = (
      record {
        marks_fit = λ q. laws.read_same pid s.world q ∙ h.0.marks_fit q;
        unmarked = h.0.unmarked;
      },
      h.1,
    )

    forked-IsInStep :
        (o : Option TrackedProcess)
        → Triple
            (Armed host laws m)
            (forked host m pid o)
            (λ _. IsInStep host laws)
            (Lost host laws)
    unfolding forked
    forked-IsInStep (some parent) =
        λ s h. follow_found-IsInStep (inherited_from host s.configs parent) s h
    forked-IsInStep none =
        bind-Triple (Armed host laws m) (attempt (on_world host (host.read_process pid)))
          (λ _. Armed host laws m)
          (λ info. (do s ← current; follow_found host m pid (by_itself host s.configs info)))
          (λ _. IsInStep host laws) (Lost host laws) attempt-read
          (λ info s h. follow_found-IsInStep (by_itself host s.configs info) s h)

    executed_by-IsInStep :
        (info : ProcessInfo) (old : Option TrackedProcess) (c : Option SplitConfig)
        → Triple
            (Armed host laws m)
            (executed_by host m pid info old c)
            (λ _. IsInStep host laws)
            (Lost host laws)
    executed_by-IsInStep info old none = forget-IsInStep
    executed_by-IsInStep info old (some c) = follow-IsInStep _

    executed-IsInStep :
        (r : IoResult ProcessInfo)
        → Triple
            (Armed host laws m)
            (executed host m pid r)
            (λ _. IsInStep host laws)
            (Lost host laws)
    unfolding executed
    executed-IsInStep (failed e) = λ s h. h.0
    executed-IsInStep (ok info) =
        λ s h. executed_by-IsInStep info (lookup pid s.tracked) (lookup info.uid s.configs) s h

  dispatch-IsInStep :
      (event : ProcessEvent) (o : Option Marker) (s : Inner host)
      → s.marker ≡ o
      → IsInStep host laws s
      → After (λ _. IsInStep host laws) (Lost host laws) (dispatch host event o s)
  unfolding dispatch
  dispatch-IsInStep event none s e h = h
  dispatch-IsInStep (exit pid) (some m) s e h = forget-IsInStep m pid s (h, e)
  dispatch-IsInStep (fork parent child) (some m) s e h =
      forked-IsInStep m child (lookup parent s.tracked) s (h, e)
  dispatch-IsInStep (exec pid) (some m) s e h =
      bind-Triple (Armed host laws m) (attempt (on_world host (host.read_process pid)))
        (λ _. Armed host laws m) (executed host m pid) (λ _. IsInStep host laws) (Lost host laws)
        (attempt-read m pid) (executed-IsInStep m pid) s (h, e)

  -- A process event that is handled without an error leaves the kernel's marks in step with the
  -- tracking, if they were before. (The kernel does as it is told when a call succeeds.)
  pub handle_event-IsInStep :
      (event : ProcessEvent)
      → Triple
          (IsInStep host laws)
          (handle_event host event)
          (λ _. IsInStep host laws)
          (Lost host laws)
  unfolding handle_event
  handle_event-IsInStep event s h = dispatch-IsInStep event s.marker s refl h
