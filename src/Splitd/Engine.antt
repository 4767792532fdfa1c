-- ===== src/Splitd/Engine.antt =====
-- splitd/src/engine.rs: the engine's state and its requests. The kernel, the process table and the
-- state file are behind an interface.
use proton_vpn_omarchy_core.Base.{
  ℕ, suc, Bool, true, false, ◌&&◌, not, String, List, [], ◌∷◌, ◌++◌, Option, none, some, Map,
  lookup, keys, any_value, any, ◌==◌, if_some, if◌then◌else◌,
}
use proton_vpn_omarchy_core.Splitd.Config.{SplitConfig, has_rules}
use proton_vpn_omarchy_core.Splitd.Tracking.{
  ProcessInfo, TrackedProcess, build_tracking, needs_process_tracking,
}
use proton_vpn_omarchy_core.Io.{IoResult, ok, failed, Act, ◌>>=◌, ◌>>◌, done, current, change}

-- bpf.rs, routing.rs, procfs.rs and store.rs, as the engine calls them.
pub record Host : Type 1 where
  pub World : Type 0
  pub Marker : Type 0
  pub Route : Type 0
  pub same_routes : List Route → List Route → Bool
  pub attach : Act World Marker
  pub detach : Marker → World → World
  pub sync_configs :
      Map SplitConfig → Map (List String) → Marker → World → (World × Marker) × IoResult (Unit {0})
  pub set_excluded : Marker → ℕ → Bool → Act World (Unit {0})
  pub scan : Act World (List ProcessInfo)
  pub read_process : ℕ → Act World ProcessInfo
  pub enable : ℕ → List Route → Act World (List Route)
  pub disable : ℕ → List Route → Act World (Unit {0})
  pub save : Map SplitConfig → Map (List String) → Map (List Route) → Act World (Unit {0})

pub data ProcessEvent : Type 0 where
  fork : ℕ → ℕ → ProcessEvent
  exec exit : ℕ → ProcessEvent

abbrev pub has_ranges : List String → Bool
has_ranges [] = false
has_ranges (_ ∷ _) = true

-- How many different numbers a list has: the length of its `BTreeSet`.
unfoldable pub count_distinct : List ℕ → ℕ
unfolding any
count_distinct [] = 0
count_distinct (k ∷ ks) =
    let rest = count_distinct ks in if any (λ j. j == k) ks then rest else suc rest

module _ (host : Host) where
  open host use {World, Marker, Route}

  pub record Inner : Type 0 where
    pub configs : Map SplitConfig
    pub destination_policies : Map (List String)
    pub marker : Option Marker
    pub tracked : Map TrackedProcess
    pub kill_switch_bypass : Map (List Route)
    -- What lies outside the engine.
    pub world : World

  abbrev pub on_world : {A : Type 0} → Act World A → Act Inner A
  on_world m s = let r = m s.world in (record s { world = r.0 }, r.1)

  unfoldable pub configured_user_count : Inner → ℕ
  unfolding count_distinct
  configured_user_count s = count_distinct (keys s.configs ++ keys s.destination_policies)

  -- No user has a rule or a range.
  unfoldable pub is_idle : Inner → Bool
  unfolding any_value has_rules
  is_idle s =
      not (any_value has_rules s.configs) && not (any_value has_ranges s.destination_policies)

  -- `tracked.clear()`, and the drop of the marker.
  unfoldable pub stop_marking : Act Inner (Unit {0})
  stop_marking s = (
    record s {
      tracked = [];
      marker = none;
      world = if_some s.marker (λ m. host.detach m s.world) s.world;
    },
    ok tt,
  )

  unfoldable pub ensure_marker : Act Inner Marker
  ensure_marker s = elim s.marker [
    | some m ↦ (s, ok m)
    | none ↦ (do m ← on_world host.attach; change (λ t. record t { marker = some m }); done m) s
  ]

  abbrev pub synced : Inner → (World × Marker) × IoResult (Unit {0}) → Inner × IoResult Marker
  synced s ((w, m), ok _) = (record s { world = w; marker = some m }, ok m)
  synced s ((w, m), failed e) = (record s { world = w; marker = some m }, failed e)

  unfoldable pub sync_marker : Marker → Act Inner Marker
  sync_marker m s = synced s (host.sync_configs s.configs s.destination_policies m s.world)

  unfoldable pub set_excluded : Marker → ℕ → Bool → Act Inner (Unit {0})
  set_excluded m pid excluded = on_world (host.set_excluded m pid excluded)

  abbrev pub is_excluded : Option TrackedProcess → Bool
  is_excluded none = false
  is_excluded (some t) = t.excluded

  -- The loops of `reconcile` over the processes that were tracked, and over those that are.
  unfoldable pub unmark : Marker → Map TrackedProcess → Map TrackedProcess → Act Inner (Unit {0})
  unfolding set_excluded lookup
  unmark m next [] = done tt
  unmark m next ((pid, t) ∷ ts) =
      let rest = unmark m next ts in
      if t.excluded && not (is_excluded (lookup pid next))
      then (do set_excluded m pid false; rest)
      else rest

  unfoldable pub mark : Marker → Map TrackedProcess → Act Inner (Unit {0})
  unfolding set_excluded
  mark m [] = done tt
  mark m ((pid, t) ∷ ts) =
      let rest = mark m ts in if t.excluded then (do set_excluded m pid true; rest) else rest

  unfoldable pub retrack : Marker → Map TrackedProcess → Act Inner (Unit {0})
  unfolding unmark mark
  retrack m next = do
    s ← current
    unmark m next s.tracked
    mark m next
    change (λ t. record t { tracked = next })

  -- `reconcile` after the marker is in step. Where no configuration needs the processes, the loop that
  -- takes the marks away and the `clear` are those for an empty table.
  unfoldable pub track_processes : Marker → Act Inner (Unit {0})
  unfolding any_value needs_process_tracking retrack build_tracking
  track_processes m = do
    s ← current
    if any_value needs_process_tracking s.configs
        then (do ps ← on_world host.scan; retrack m (build_tracking s.configs ps))
        else retrack m []

  unfoldable pub reconcile : Act Inner (Unit {0})
  unfolding is_idle stop_marking ensure_marker sync_marker track_processes
  reconcile = do
    s ← current
    if is_idle s then stop_marking else (do m ← ensure_marker; m ← sync_marker m; track_processes m)
