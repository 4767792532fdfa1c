-- ===== src/Splitd/Quiet.antt =====
-- splitd/src/engine.rs: process events and the start change no rule and no bypass.
use proton_vpn_omarchy_core.Base.{
  ℕ, Bool, false, List, [], ◌∷◌, Option, none, some, Map, lookup, insert, remove, if◌then◌else◌,
  if-both,
}
use proton_vpn_omarchy_core.Splitd.Config.{SplitConfig}
use proton_vpn_omarchy_core.Io.{
  IoResult, ok, failed, Act, ◌>>=◌, ◌>>◌, done, current, change, attempt, Keeps, bind-Keeps,
  attempt-Keeps,
}
use proton_vpn_omarchy_core.Splitd.Engine.{Host, Inner, on_world, reconcile}
use proton_vpn_omarchy_core.Splitd.Requests.{save}
use proton_vpn_omarchy_core.Splitd.Keeps.{IsAbove, on_world-Keeps, reconcile-Keeps}
use proton_vpn_omarchy_core.Splitd.Outcome.{save-Keeps}
use proton_vpn_omarchy_core.Splitd.Tracking.{ProcessInfo, TrackedProcess}
use proton_vpn_omarchy_core.Splitd.Engine.{
  ProcessEvent, fork, exec, exit, set_excluded, is_excluded,
}
use proton_vpn_omarchy_core.Splitd.Events.{
  forget, follow, follow_found, inherited_from, by_itself, forked, executed_by, executed, dispatch,
  handle_event, disable_all, is_nonempty, with_store,
}
use proton_vpn_omarchy_core.Splitd.Outcome.{save-Keeps}

module _ (host : Host) (P : Inner host → Type 0) (above : IsAbove host P) where
  open host use {Marker, Route}

  forget-Keeps : (m : Marker) (pid : ℕ) → Keeps P (forget host m pid)
  unfolding forget set_excluded
  forget-Keeps m pid s h =
      if-both {A = Act (Inner host) (Unit {0})} (Keeps P) (is_excluded host (lookup pid s.tracked))
        _ _ (on_world-Keeps host P above (host.set_excluded m pid false)) (λ t k. k)
        (record s { tracked = remove pid s.tracked })
        (above s s.marker (remove pid s.tracked) s.world h)

  follow-Keeps : (m : Marker) (pid : ℕ) (p : TrackedProcess) → Keeps P (follow host m pid p)
  unfolding follow set_excluded
  follow-Keeps m pid p =
      bind-Keeps P (on_world host (host.set_excluded m pid p.excluded))
        (λ _. change (λ t. record t { tracked = insert pid p t.tracked }))
        (on_world-Keeps host P above (host.set_excluded m pid p.excluded))
        (λ _ t k. above t t.marker (insert pid p t.tracked) t.world k)

  follow_found-Keeps :
      (m : Marker) (pid : ℕ) (o : Option TrackedProcess) → Keeps P (follow_found host m pid o)
  follow_found-Keeps m pid none = λ s h. h
  follow_found-Keeps m pid (some p) = follow-Keeps m pid p

  forked-Keeps :
      (m : Marker) (child : ℕ) (o : Option TrackedProcess) → Keeps P (forked host m child o)
  unfolding forked
  forked-Keeps m child (some parent) =
      λ s h. follow_found-Keeps m child (inherited_from host s.configs parent) s h
  forked-Keeps m child none =
      bind-Keeps P (attempt (on_world host (host.read_process child)))
        (λ info. (do s ← current; follow_found host m child (by_itself host s.configs info)))
        (attempt-Keeps P (on_world host (host.read_process child))
          (on_world-Keeps host P above (host.read_process child)))
        (λ info s h. follow_found-Keeps m child (by_itself host s.configs info) s h)

  executed_by-Keeps :
      (m : Marker) (pid : ℕ) (info : ProcessInfo) (old : Option TrackedProcess)
      (c : Option SplitConfig)
      → Keeps P (executed_by host m pid info old c)
  executed_by-Keeps m pid info old none = forget-Keeps m pid
  executed_by-Keeps m pid info old (some c) = follow-Keeps m pid _

  executed-Keeps :
      (m : Marker) (pid : ℕ) (r : IoResult ProcessInfo) → Keeps P (executed host m pid r)
  unfolding executed
  executed-Keeps m pid (failed e) = λ s h. h
  executed-Keeps m pid (ok info) =
      λ s h. executed_by-Keeps m pid info (lookup pid s.tracked) (lookup info.uid s.configs) s h

  dispatch-Keeps : (event : ProcessEvent) (o : Option Marker) → Keeps P (dispatch host event o)
  unfolding dispatch
  dispatch-Keeps event none = λ s h. h
  dispatch-Keeps (exit pid) (some m) = forget-Keeps m pid
  dispatch-Keeps (fork parent child) (some m) =
      λ s h. forked-Keeps m child (lookup parent s.tracked) s h
  dispatch-Keeps (exec pid) (some m) =
      bind-Keeps P (attempt (on_world host (host.read_process pid))) (executed host m pid)
        (attempt-Keeps P (on_world host (host.read_process pid))
          (on_world-Keeps host P above (host.read_process pid)))
        (executed-Keeps m pid)

  -- A process event changes no rule and no bypass.
  pub handle_event-Keeps : (event : ProcessEvent) → Keeps P (handle_event host event)
  unfolding handle_event
  handle_event-Keeps event s h = dispatch-Keeps event s.marker s h

  disable_all-Keeps : (b : Map (List Route)) → Keeps P (disable_all host b)
  unfolding disable_all
  disable_all-Keeps [] = λ s h. h
  disable_all-Keeps ((uid, routes) ∷ b) =
      bind-Keeps P (on_world host (host.disable uid routes)) (λ _. disable_all host b)
        (on_world-Keeps host P above (host.disable uid routes)) (λ _. disable_all-Keeps b)

  pub with_store-Keeps :
      (routing : Bool) (b : Map (List Route)) → Keeps P (with_store host routing b)
  unfolding with_store
  with_store-Keeps routing b =
      bind-Keeps P before (λ _. reconcile host) before-Keeps (λ _. reconcile-Keeps host P above)
    where
      before : Act (Inner host) (Unit {0})
      before =
          if routing
          then (do disable_all host b; if is_nonempty host b then save host else done tt)
          else done tt

      before-Keeps : Keeps P before
      before-Keeps =
          if-both {A = Act (Inner host) (Unit {0})} (Keeps P) routing _ _
            (bind-Keeps P (disable_all host b)
              (λ _. (if is_nonempty host b then save host else done tt)) (disable_all-Keeps b)
              (λ _.
                if-both {A = Act (Inner host) (Unit {0})} (Keeps P) (is_nonempty host b) _ _
                  (save-Keeps host P above) (λ s h. h)))
            (λ s h. h)
