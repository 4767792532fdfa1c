-- ===== src/Splitd/Requests.antt =====
-- splitd/src/engine.rs: the requests that change the rules of a user.
use proton_vpn_omarchy_core.Base.{
  ℕ, Bool, false, ◌&&◌, ◌||◌, not, String, List, [], Option, none, some, Map, lookup, insert,
  remove, restore, has_key, leb, is_some, unwrap_or, if◌then◌else◌, length,
}
use proton_vpn_omarchy_core.Splitd.Config.{SplitConfig, max_configs, has_rules}
use proton_vpn_omarchy_core.Splitd.Engine.{
  Host, Inner, on_world, configured_user_count, has_ranges, reconcile,
}
use proton_vpn_omarchy_core.Io.{
  invalid_input, unsupported, IoError, IoResult, ok, failed, Act, ◌>>=◌, ◌>>◌, done, fail, current,
  change, attempt, or_undo,
}

module _ (host : Host) where
  open host use {Route}

  abbrev bad_input : String → IoError
  bad_input what = record { kind = invalid_input; message = what }

  unfoldable pub has_room : ℕ → Inner host → Bool
  unfolding configured_user_count lookup
  has_room uid s =
      has_key uid s.configs
      || has_key uid s.destination_policies
      || not (leb max_configs (configured_user_count host s))

  unfoldable pub save : Act (Inner host) (Unit {0})
  save = do
    s ← current
    on_world host (host.save s.configs s.destination_policies s.kill_switch_bypass)

  unfoldable pub reconcile_and_save : Act (Inner host) (Unit {0})
  unfolding reconcile save
  reconcile_and_save = do reconcile host; save

  abbrev pub set_configs : (Map SplitConfig → Map SplitConfig) → Inner host → Inner host
  set_configs f s = record s { configs = f s.configs }

  abbrev pub set_policies : (Map (List String) → Map (List String)) → Inner host → Inner host
  set_policies f s = record s { destination_policies = f s.destination_policies }

  abbrev pub set_bypass : (Map (List Route) → Map (List Route)) → Inner host → Inner host
  set_bypass f s = record s { kill_switch_bypass = f s.kill_switch_bypass }

  -- A bypass is taken down, and its entry with it; the routes that it had.
  unfoldable pub take_down : ℕ → List Route → Act (Inner host) (Unit {0})
  unfolding remove
  take_down uid routes = do
    on_world host (host.disable uid routes)
    change (set_bypass (remove uid))

  abbrev pub take_found : ℕ → Option (List Route) → Act (Inner host) (Unit {0})
  take_found uid none = done tt
  take_found uid (some routes) = take_down uid routes

  unfoldable pub take_bypass : ℕ → Act (Inner host) (Unit {0})
  unfolding lookup take_down
  take_bypass uid = do s ← current; take_found uid (lookup uid s.kill_switch_bypass)

  -- A bypass is put back, as far as the kernel takes it.
  abbrev pub put_back : ℕ → IoResult (List Route) → Act (Inner host) (Unit {0})
  put_back uid (ok installed) = change (set_bypass (insert uid installed))
  put_back uid (failed e) = done tt

  unfoldable pub bring_back : ℕ → Option (List Route) → Act (Inner host) (Unit {0})
  unfolding insert
  bring_back uid none = done tt
  bring_back uid (some routes) = do
    installed ← attempt (on_world host (host.enable uid routes))
    put_back uid installed

  unfoldable pub set_config : Bool → ℕ → SplitConfig → Act (Inner host) (Unit {0})
  unfolding has_room has_rules take_bypass reconcile_and_save bring_back lookup insert remove
      restore
  set_config routing uid config = do
    s ← current
    if not (has_room uid s)
        then fail (bad_input "at most 64 users may configure split tunneling")
        else (do
          let dropped = routing && not (has_rules config)
          (if dropped then take_bypass uid else done tt)
          change (set_configs (insert uid config))
          or_undo reconcile_and_save (do
            change (set_configs (restore uid (lookup uid s.configs)))
            _ ← attempt (reconcile host)
            bring_back uid (if dropped then lookup uid s.kill_switch_bypass else none)))

  -- The configuration that was taken out is put back in, if there was one.
  abbrev pub put_in : ℕ → Option SplitConfig → Act (Inner host) (Unit {0})
  put_in uid none = done tt
  put_in uid (some config) = do
    change (set_configs (insert uid config))
    _ ← attempt (reconcile host)
    done tt

  unfoldable pub clear_config : Bool → ℕ → Act (Inner host) (Unit {0})
  unfolding take_bypass reconcile_and_save bring_back lookup insert remove
  clear_config routing uid = do
    s ← current
    (if routing then take_bypass uid else done tt)
    change (set_configs (remove uid))
    or_undo reconcile_and_save
        (do put_in uid (lookup uid s.configs); bring_back uid (lookup uid s.kill_switch_bypass))

  unfoldable pub set_destination_policy : ℕ → List String → Act (Inner host) (Unit {0})
  unfolding has_room reconcile_and_save lookup insert remove restore
  set_destination_policy uid ranges = do
    s ← current
    if not (has_room uid s)
        then fail (bad_input "at most 64 users may configure destination policies")
        else (do
          change (set_policies (if has_ranges ranges then insert uid ranges else remove uid))
          or_undo reconcile_and_save (do
            change (set_policies (restore uid (lookup uid s.destination_policies)))
            _ ← attempt (reconcile host)
            done tt))

  unfoldable pub has_own_rules : ℕ → Inner host → Bool
  unfolding has_rules lookup
  has_own_rules uid s = elim (lookup uid s.configs) [ none ↦ false | some c ↦ has_rules c ]

  unfoldable pub has_bypass : ℕ → List Route → Inner host → Bool
  unfolding lookup
  has_bypass uid routes s = elim (lookup uid s.kill_switch_bypass) [
    | none ↦ false
    | some old ↦ host.same_routes old routes
  ]

  -- The routes that the kernel took are entered and saved; if they cannot be saved they are taken
  -- down and the former ones brought back.
  unfoldable pub keep_installed : ℕ → Option (List Route) → List Route → Act (Inner host) (Unit {0})
  unfolding bring_back save insert remove
  keep_installed uid previous installed = do
    change (set_bypass (insert uid installed))
    or_undo save (do
      change (set_bypass (remove uid))
      _ ← attempt (on_world host (host.disable uid installed))
      bring_back uid previous)

  unfoldable pub replace_bypass : ℕ → Option (List Route) → List Route → Act (Inner host) (Unit {0})
  unfolding take_bypass keep_installed bring_back
  replace_bypass uid previous routes = do
    take_bypass uid
    installed ← or_undo (on_world host (host.enable uid routes)) (bring_back uid previous)
    keep_installed uid previous installed

  unfoldable pub enable_bypass : ℕ → List Route → Act (Inner host) (Unit {0})
  unfolding has_bypass replace_bypass lookup
  enable_bypass uid routes = do
    s ← current
    if has_bypass uid routes s
        then done tt
        else replace_bypass uid (lookup uid s.kill_switch_bypass) routes

  unfoldable pub disable_bypass : ℕ → List Route → Act (Inner host) (Unit {0})
  unfolding take_down save bring_back
  disable_bypass uid installed = do
    take_down uid installed
    or_undo save (bring_back uid (some installed))

  abbrev pub disable_found : ℕ → Option (List Route) → Act (Inner host) (Unit {0})
  disable_found uid none = done tt
  disable_found uid (some installed) = disable_bypass uid installed

  unfoldable pub set_kill_switch_bypass : Bool → ℕ → Bool → List Route → Act (Inner host) (Unit {0})
  unfolding has_own_rules enable_bypass disable_bypass lookup
  set_kill_switch_bypass routing uid enabled routes = do
    s ← current
    if not routing
        then fail
            (record { kind = unsupported; message = "kernel routing is disabled for this engine" })
        else if enabled && not (has_own_rules uid s)
        then fail (bad_input "kill-switch bypass requires an active split-tunneling policy")
        else if enabled
        then enable_bypass uid routes
        else disable_found uid (lookup uid s.kill_switch_bypass)

  unfoldable pub get_config : ℕ → Inner host → Option SplitConfig
  unfolding lookup
  get_config uid s = lookup uid s.configs

  unfoldable pub destination_policy : ℕ → Inner host → List String
  unfolding lookup
  destination_policy uid s = unwrap_or (lookup uid s.destination_policies) []

  unfoldable pub get_all_configs : Inner host → List (ℕ × SplitConfig)
  get_all_configs s = s.configs

  unfoldable pub status : Inner host → ℕ × ℕ × Bool
  status s = (length s.configs, length s.tracked, is_some s.marker)
