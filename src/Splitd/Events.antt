-- ===== src/Splitd/Events.antt =====
-- splitd/src/engine.rs: the start of the engine, the events of the kernel's process connector, and
-- what clients and timers send to an engine.
use proton_vpn_omarchy_core.Base.{
  ℕ, Bool, true, false, ◌||◌, String, List, [], ◌∷◌, Option, none, some, Map, lookup, insert,
  remove, map_some, if◌then◌else◌,
}
use proton_vpn_omarchy_core.Splitd.Config.{SplitConfig, matches}
use proton_vpn_omarchy_core.Splitd.Tracking.{ProcessInfo, TrackedProcess, tracked_process}
use proton_vpn_omarchy_core.Io.{
  IoResult, ok, failed, Act, ◌>>=◌, ◌>>◌, done, current, change, attempt,
}
use proton_vpn_omarchy_core.Splitd.Engine.{
  Host, Inner, ProcessEvent, fork, exec, exit, on_world, set_excluded, is_excluded, reconcile,
}
use proton_vpn_omarchy_core.Splitd.Requests.{
  save, set_config, clear_config, set_destination_policy, set_kill_switch_bypass,
}

module _ (host : Host) where
  open host use {World, Marker, Route}

  -- A process is no longer tracked, and its mark is taken away if it has one.
  unfoldable pub forget : Marker → ℕ → Act (Inner host) (Unit {0})
  unfolding set_excluded lookup remove
  forget m pid = do
    s ← current
    change (λ t. record t { tracked = remove pid t.tracked })
    if is_excluded host (lookup pid s.tracked) then set_excluded host m pid false else done tt

  unfoldable pub follow : Marker → ℕ → TrackedProcess → Act (Inner host) (Unit {0})
  unfolding set_excluded insert
  follow m pid process = do
    set_excluded host m pid process.excluded
    change (λ t. record t { tracked = insert pid process t.tracked })

  abbrev pub follow_found : Marker → ℕ → Option TrackedProcess → Act (Inner host) (Unit {0})
  follow_found m pid none = done tt
  follow_found m pid (some process) = follow m pid process

  -- A child of a tracked process inherits; one of another process is looked at by itself.
  abbrev pub inherited_from : Map SplitConfig → TrackedProcess → Option TrackedProcess
  inherited_from configs parent =
      map_some (λ c. tracked_process c parent.uid parent.matched) (lookup parent.uid configs)

  abbrev pub by_itself : Map SplitConfig → IoResult ProcessInfo → Option TrackedProcess
  by_itself configs (failed e) = none
  by_itself configs (ok info) =
      map_some (λ c. tracked_process c info.uid (matches c info.identities))
        (lookup info.uid configs)

  unfoldable pub forked : Marker → ℕ → Option TrackedProcess → Act (Inner host) (Unit {0})
  unfolding follow lookup matches tracked_process
  forked m child (some parent) = do
    s ← current
    follow_found m child (inherited_from s.configs parent)
  forked m child none = do
    info ← attempt (on_world host (host.read_process child))
    s ← current
    follow_found m child (by_itself s.configs info)

  abbrev pub is_matched : Option TrackedProcess → Bool
  is_matched none = false
  is_matched (some t) = t.matched

  abbrev pub executed_by :
      Marker
      → ℕ
      → ProcessInfo
      → Option TrackedProcess
      → Option SplitConfig
      → Act (Inner host) (Unit {0})
  executed_by m pid info old none = forget m pid
  executed_by m pid info old (some c) =
      follow m pid (tracked_process c info.uid (is_matched old || matches c info.identities))

  unfoldable pub executed : Marker → ℕ → IoResult ProcessInfo → Act (Inner host) (Unit {0})
  unfolding follow forget lookup matches tracked_process
  executed m pid (failed e) = done tt
  executed m pid (ok info) = do
    s ← current
    executed_by m pid info (lookup pid s.tracked) (lookup info.uid s.configs)

  unfoldable pub dispatch : ProcessEvent → Option Marker → Act (Inner host) (Unit {0})
  unfolding forget forked executed lookup
  dispatch event none = done tt
  dispatch (exit pid) (some m) = forget m pid
  dispatch (fork parent child) (some m) = do s ← current; forked m child (lookup parent s.tracked)
  dispatch (exec pid) (some m) = do
    info ← attempt (on_world host (host.read_process pid))
    executed m pid info

  unfoldable pub handle_event : ProcessEvent → Act (Inner host) (Unit {0})
  unfolding dispatch
  handle_event event = do s ← current; dispatch event s.marker

  -- `with_store` after the load: what an earlier engine had brought up is taken down, and the file no
  -- longer lists it.
  unfoldable pub disable_all : Map (List Route) → Act (Inner host) (Unit {0})
  disable_all [] = done tt
  disable_all ((uid, routes) ∷ rest) = do on_world host (host.disable uid routes); disable_all rest

  abbrev pub is_nonempty : Map (List Route) → Bool
  is_nonempty [] = false
  is_nonempty (_ ∷ _) = true

  unfoldable pub with_store : Bool → Map (List Route) → Act (Inner host) (Unit {0})
  unfolding disable_all save reconcile
  with_store routing bypass = do
    (if routing
        then (do disable_all bypass; if is_nonempty bypass then save host else done tt)
        else done tt)
    reconcile host

  abbrev pub loaded : Map SplitConfig → Map (List String) → World → Inner host
  loaded configs policies w = record {
    configs = configs;
    destination_policies = policies;
    marker = none;
    tracked = [];
    kill_switch_bypass = [];
    world = w;
  }

  -- What reaches the engine: the requests of clients, process events, and the timer's rounds.
  pub data Command : Type 0 where
    configure : ℕ → SplitConfig → Command
    clear : ℕ → Command
    choose_ranges : ℕ → List String → Command
    switch_bypass : ℕ → Bool → List Route → Command
    notice : ProcessEvent → Command
    refresh : Command

  unfoldable pub perform : Bool → Command → Act (Inner host) (Unit {0})
  unfolding set_config clear_config set_destination_policy set_kill_switch_bypass handle_event
      reconcile
  perform routing (configure uid config) = set_config host routing uid config
  perform routing (clear uid) = clear_config host routing uid
  perform routing (choose_ranges uid ranges) = set_destination_policy host uid ranges
  perform routing (switch_bypass uid enabled routes) =
      set_kill_switch_bypass host routing uid enabled routes
  perform routing (notice event) = handle_event event
  perform routing refresh = reconcile host

  -- The state after some commands, whether each succeeds or not.
  unfoldable pub perform_all : Bool → List Command → Inner host → Inner host
  unfolding perform
  perform_all routing [] s = s
  perform_all routing (c ∷ cs) s = perform_all routing cs (perform routing c s).0
