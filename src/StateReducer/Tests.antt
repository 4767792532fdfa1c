-- ===== src/StateReducer/Tests.antt =====
-- agent/src/state_reducer.rs: a few events.
use proton_vpn_omarchy_core.Base.{ℕ, String, List, [], ◌∷◌, none, some, ◌≡◌, refl, is_one_of}
use proton_vpn_omarchy_core.Json.{Value, object, string, number, pos_int, field, end, get}
use proton_vpn_omarchy_core.Protocol.Snapshot.{default_snapshot}
use proton_vpn_omarchy_core.Operations.Registry.{new_coordinator}
use proton_vpn_omarchy_core.StateReducer.Connection.{reduce_connection}
use proton_vpn_omarchy_core.StateReducer.Events.{reduce, apply_events}
use proton_vpn_omarchy_core.StateReducer.Runs.{IsWhole, apply_events-IsWhole}
use proton_vpn_omarchy_core.StateReducer.Frame.{reduce-revision, reduce_connection-again}

-- A tunnel to Switzerland that comes up at time 5, is reported again at time 9, and goes down.
abbrev up : Value
up = object (
    field "status" (string "connected") (
      field "server"
        (object (
          field "country_code" (string "CH")
            (field "entry_country_code" (string "SE") (field "load" (number (pos_int 300)) end))))
        end))

abbrev down : Value
down = object (field "status" (string "disconnected") end)

abbrev reports : List (ℕ × String × Value)
reports = (5, "connection", up) ∷ (9, "connection", up) ∷ []

since_first_report :
    (apply_events reports (new_coordinator default_snapshot)).state.connection.connected_at_unix_ms
    ≡ some 5
unfolding apply_events reduce reduce_connection new_coordinator get
since_first_report = refl

load_out_of_range :
    (apply_events reports (new_coordinator default_snapshot)).state.connection.server_load ≡ none
unfolding apply_events reduce reduce_connection new_coordinator get
load_out_of_range = refl

apply_events-IsWhole_example : IsWhole (apply_events reports (new_coordinator default_snapshot))
apply_events-IsWhole_example = apply_events-IsWhole reports

reduce-revision_example : (reduce 5 "connection" down default_snapshot).revision ≡ 1
unfolding is_one_of
reduce-revision_example = (reduce-revision 5 "connection" down default_snapshot refl).0

reduce_connection-again_example :
    reduce_connection 9 up (reduce_connection 5 up default_snapshot.connection)
    ≡ reduce_connection 5 up default_snapshot.connection
reduce_connection-again_example = reduce_connection-again 5 9 up default_snapshot.connection
