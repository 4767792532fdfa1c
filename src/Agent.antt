-- ===== src/Agent.antt =====
-- agent/src/state_reducer.rs and agent/src/store.rs: the coordinator, the reducer and the preferences
-- store on the one snapshot that they share, and a sequence of what reaches them.
use proton_vpn_omarchy_core.Base.{ℕ, String, List, [], ◌∷◌, Option, none, some}
use proton_vpn_omarchy_core.Json.{Value}
use proton_vpn_omarchy_core.Protocol.Snapshot.{default_snapshot}
use proton_vpn_omarchy_core.Operations.Registry.{Coordinator, new_coordinator}
use proton_vpn_omarchy_core.Operations.Calls.{Call}
use proton_vpn_omarchy_core.StateReducer.Events.{apply_event}
use proton_vpn_omarchy_core.Store.File.{default_store_file}
use proton_vpn_omarchy_core.Store.Disk.{Disk}
use proton_vpn_omarchy_core.Store.Handle.{Inner, request}
use proton_vpn_omarchy_core.Store.Accounts.{activate_account}
mod Whole
mod Runs
mod Tests

-- A request to the store, an event of the backend, or a call of the coordinator by another task. The
-- numbers and functions are what the clock says.
pub data Step : Type 0 where
  asked : ℕ → ℕ → ℕ → ℕ → String → String → Value → Step
  reported : ℕ → (String → ℕ) → String → Value → Step
  called : Call → Step

module _ (disk : Disk) (path lifecycle_path : disk.FilePath) (ip_text : String → Option String)
    (to_lowercase : String → String) where
  -- The end of `apply_event`: an account that has signed in becomes the active one.
  abbrev pub activating :
      (String → ℕ)
      → Inner disk path lifecycle_path
      → Coordinator × Option String
      → Inner disk path lifecycle_path
  activating dates s (c, none) = record s { coordinator = c }
  activating dates s (c, some name) =
      (activate_account ip_text disk path lifecycle_path to_lowercase dates (some name)
        (record s { coordinator = c })).0

  unfoldable pub report :
      ℕ
      → (String → ℕ)
      → String
      → Value
      → Inner disk path lifecycle_path
      → Inner disk path lifecycle_path
  unfolding apply_event activate_account
  report now dates event v s = activating dates s (apply_event now event v s.coordinator)

  unfoldable pub perform : Inner disk path lifecycle_path → Step → Inner disk path lifecycle_path
  unfolding request report proton_vpn_omarchy_core.Operations.Calls.step
  perform s (asked earlier later id_time now client method params) =
      (request disk path lifecycle_path ip_text id_time now earlier later client method params s).0
  perform s (reported now dates event v) = report now dates event v s
  perform s (called call) = record s {
    coordinator = proton_vpn_omarchy_core.Operations.Calls.step s.coordinator call;
  }

  unfoldable pub perform_all :
      Inner disk path lifecycle_path → List Step → Inner disk path lifecycle_path
  unfolding perform
  perform_all s [] = s
  perform_all s (step ∷ steps) = perform_all (perform s step) steps

  -- An agent with an empty store, in a world of any files.
  abbrev pub new_agent : disk.World → Inner disk path lifecycle_path
  new_agent w = record {
    file = default_store_file;
    coordinator = new_coordinator default_snapshot;
    world = w;
  }
