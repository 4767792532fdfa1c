-- ===== src/Agent/Runs.antt =====
-- agent/src/store.rs, state_reducer.rs and operations.rs: what holds after any sequence of what
-- reaches the agent.
use proton_vpn_omarchy_core.Base.{String, List, [], ◌∷◌, Option}
use proton_vpn_omarchy_core.Operations.Registry.{new_coordinator}
use proton_vpn_omarchy_core.Operations.Runs.{new_coordinator-IsSound}
use proton_vpn_omarchy_core.StateReducer.Runs.{default-IsConsistent}
use proton_vpn_omarchy_core.Store.Disk.{Disk}
use proton_vpn_omarchy_core.Store.Handle.{Inner}
use proton_vpn_omarchy_core.Agent.{Step, perform, perform_all, new_agent}
use proton_vpn_omarchy_core.Agent.Whole.{IsWell, perform-IsWell}

module _ (disk : Disk) (path lifecycle_path : disk.FilePath) (ip_text : String → Option String)
    (to_lowercase : String → String) where
  perform_all-IsWell_from :
      (steps : List Step) (s : Inner disk path lifecycle_path)
      → IsWell disk path lifecycle_path s
      → IsWell disk path lifecycle_path
          (perform_all disk path lifecycle_path ip_text to_lowercase s steps)
  unfolding perform_all
  perform_all-IsWell_from [] s well = well
  perform_all-IsWell_from (step ∷ steps) s well =
      perform_all-IsWell_from steps (perform disk path lifecycle_path ip_text to_lowercase s step)
        (perform-IsWell disk path lifecycle_path ip_text to_lowercase s step well)

  new_agent-IsWell :
      (w : disk.World)
      → IsWell disk path lifecycle_path (new_agent disk path lifecycle_path ip_text to_lowercase w)
  unfolding new_coordinator
  new_agent-IsWell w = (tt, (default-IsConsistent, new_coordinator-IsSound))

  -- After any requests to an empty store, events of the backend with the sign-ins among them, and
  -- calls of the coordinator by other tasks, in any order and whatever the file system does: each
  -- account has at most six recents that are not pinned and at most 256 excluded locations, well
  -- formed and with different keys, no two recents with one target and no two profiles with one
  -- identifier; and the snapshot that they all write is as consistent as after events alone, and
  -- shows a sound registry.
  pub perform_all-IsWell :
      (w : disk.World) (steps : List Step)
      → IsWell disk path lifecycle_path (
          perform_all disk path lifecycle_path ip_text to_lowercase
            (new_agent disk path lifecycle_path ip_text to_lowercase w)
            steps)
  perform_all-IsWell w steps = perform_all-IsWell_from steps _ (new_agent-IsWell w)
