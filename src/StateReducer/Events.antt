-- ===== src/StateReducer/Events.antt =====
-- agent/src/state_reducer.rs: `apply_event`. Beside the coordinator and the snapshot it gives the
-- name of the account that the store is to activate; the store's own step follows.
use proton_vpn_omarchy_core.Base.{
  ℕ, ◌+◌, ◌%◌, ◌&&◌, String, List, [], ◌∷◌, Option, none, unwrap_or, and_then, str_eq, if-both,
  if◌then◌else◌,
}
use proton_vpn_omarchy_core.Json.{Value, as_bool, member, text_of}
use proton_vpn_omarchy_core.Protocol.Snapshot.{StateSnapshot}
use proton_vpn_omarchy_core.Operations.Ids.{u64_mod}
use proton_vpn_omarchy_core.Operations.Registry.{Coordinator}
use proton_vpn_omarchy_core.Operations.Finish.{update_stage}
use proton_vpn_omarchy_core.StateReducer.Account.{
  reduce_backend, reduce_account, reduce_device_location,
}
use proton_vpn_omarchy_core.StateReducer.Features.{reduce_features}
use proton_vpn_omarchy_core.StateReducer.Connection.{reduce_connection, is_secure_core}

abbrev pub bump : StateSnapshot → StateSnapshot
bump s = record s { revision = (s.revision + 1) % u64_mod }

-- The closure that the watch channel runs on the snapshot.
unfoldable pub reduce : ℕ → String → Value → StateSnapshot → StateSnapshot
reduce now event v s =
    if str_eq event "backend"
    then bump (record s { backend = reduce_backend v })
    else if str_eq event "account"
    then bump (record s { account = reduce_account v })
    else if str_eq event "device_location"
    then bump (record s { device_location = reduce_device_location v })
    else if str_eq event "features"
    then bump (record s { features = reduce_features v s.features })
    else if str_eq event "connection"
    then bump (record s {
      connection = reduce_connection now v s.connection;
      features = record s.features { secure_core = is_secure_core v };
    })
    else s

-- What holds of the snapshot after each kind of event holds after any event.
pub reduce_rule {ℓ} :
    (P : StateSnapshot → Type ℓ) (now : ℕ) (event : String) (v : Value) (s : StateSnapshot)
    → P (bump (record s { backend = reduce_backend v }))
    → P (bump (record s { account = reduce_account v }))
    → P (bump (record s { device_location = reduce_device_location v }))
    → P (bump (record s { features = reduce_features v s.features }))
    → P (
        bump (record s {
          connection = reduce_connection now v s.connection;
          features = record s.features { secure_core = is_secure_core v };
        }))
    → P s
    → P (reduce now event v s)
unfolding reduce
reduce_rule P now event v s backend account location features connection other =
    if-both P (str_eq event "backend") _ _ backend (
      if-both P (str_eq event "account") _ _ account (
        if-both P (str_eq event "device_location") _ _ location (
          if-both P (str_eq event "features") _ _ features
            (if-both P (str_eq event "connection") _ _ connection other))))

unfoldable pub account_to_activate : String → Value → Option String
unfolding text_of
account_to_activate event v =
    if str_eq event "account" && str_eq (unwrap_or (text_of v "status") "") "signed_in"
    then text_of v "name"
    else none

unfoldable pub apply_event : ℕ → String → Value → Coordinator → Coordinator × Option String
unfolding reduce account_to_activate text_of
apply_event now event v c =
    if str_eq event "operation.stage"
    then (
      update_stage now (unwrap_or (text_of v "method") "") (unwrap_or (text_of v "stage") "")
          (and_then (member v "cancelable") as_bool) c,
      none,
    )
    else (record c { state = reduce now event v c.state }, account_to_activate event v)

-- A sequence of events, each with its time, name and payload.
unfoldable pub apply_events : List (ℕ × String × Value) → Coordinator → Coordinator
unfolding apply_event
apply_events [] c = c
apply_events ((now, event, v) ∷ events) c = apply_events events (apply_event now event v c).0
