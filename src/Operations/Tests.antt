-- ===== src/Operations/Tests.antt =====
-- agent/src/operations.rs: short histories of the coordinator.
use proton_vpn_omarchy_core.Base.{
  true, false, List, [], ◌∷◌, map, none, some, ◌≡◌, refl, ◌↔◌, arith, find, is_one_of, take,
  update_first, remove_first, All,
}
use proton_vpn_omarchy_core.Backend.{ok}
use proton_vpn_omarchy_core.Protocol.Operation.{OperationRecord, cancelled, tunnel_configuration}
use proton_vpn_omarchy_core.Protocol.Snapshot.{default_snapshot}
use proton_vpn_omarchy_core.Operations.Ids.{format_id, hex, hex_digit}
use proton_vpn_omarchy_core.Operations.Spec.{
  OperationSpec, ControlSpec, operation_spec, domains_conflict, cancelled_stage,
}
use proton_vpn_omarchy_core.Operations.Registry.{
  OperationLease, Coordinator, new_coordinator, recent_operation_limit,
}
use proton_vpn_omarchy_core.Operations.Begin.{begin, started, owning_lease}
use proton_vpn_omarchy_core.Operations.Finish.{finish}
use proton_vpn_omarchy_core.Operations.Listed.{filed_since}
use proton_vpn_omarchy_core.Operations.Calls.{Call, begins, finishes, run}
use proton_vpn_omarchy_core.Operations.Invariant.{IsSound}
use proton_vpn_omarchy_core.Operations.Identity.{HasOwnIds}
use proton_vpn_omarchy_core.Operations.Runs.{run-IsSound, run-HasOwnIds}
use proton_vpn_omarchy_core.Operations.Leases.{begin-finish}
use proton_vpn_omarchy_core.Operations.Cancel.{cancel-finish}
use proton_vpn_omarchy_core.Operations.Refusal.{begin-admits}
use proton_vpn_omarchy_core.Base.{is_one_of}
use proton_vpn_omarchy_core.Operations.Interrupted.{
  connection_sequence_interrupted, connection_sequence_interrupted-run,
}

abbrev fresh : Coordinator
fresh = new_coordinator default_snapshot

abbrev connect_spec : OperationSpec
connect_spec = record {
  domain = tunnel_configuration;
  stage = "tunnel.preparing_connection";
  cancelable = true;
  control = none;
}

abbrev cancel_control : ControlSpec
cancel_control = record {
  target_kind = "connection.connect";
  stage = "tunnel.cancelling";
  cancelable = false;
  failure_stage = "tunnel.cancel_failed";
  failure_cancelable = true;
  requires_target = false;
}

abbrev cancel_spec : OperationSpec
cancel_spec = record {
  domain = tunnel_configuration;
  stage = "tunnel.cancelling";
  cancelable = false;
  control = some cancel_control;
}

abbrev history : List Call
history =
    begins 10 "ui" "connection.connect"
    ∷ begins 11 "ui" "profiles.save"
    ∷ begins 12 "cli" "connection.cancel"
    ∷ finishes 13 (some (owning_lease "op-0000000000000001")) none
    ∷ []

abbrev connecting : List Call
connecting = begins 10 "ui" "connection.connect" ∷ []

history_outcome : map (λ op. op.state) (run fresh history).registry.recent ≡ cancelled ∷ []
unfolding run begin finish operation_spec new_coordinator format_id hex hex_digit find remove_first
    update_first domains_conflict
history_outcome = refl

run-IsSound_example : IsSound (run fresh history)
run-IsSound_example = run-IsSound history

run-HasOwnIds_example : HasOwnIds (run fresh history).registry
run-HasOwnIds_example = run-HasOwnIds history (omega arith)

begin_connect :
    (begin 10 "ui" "connection.connect" fresh).0 ≡ ok (some (owning_lease (format_id 1)))
unfolding begin operation_spec new_coordinator find
begin_connect = refl

begin-finish_example :
    (finish 20
      (some (owning_lease (format_id 1)))
      none
      (begin 10 "ui" "connection.connect" fresh).1).registry.active
    ≡ []
unfolding new_coordinator run
begin-finish_example =
    (begin-finish 10 20 "ui" "connection.connect" fresh (owning_lease (format_id 1)) none
      (run-HasOwnIds [] (omega arith)) (omega arith) begin_connect refl).0

-- Other operations of the store come and go while the connection is made and after it.
abbrev later_calls : List Call
later_calls =
    begins 11 "ui" "profiles.save"
    ∷ finishes 12 (some (owning_lease (format_id 2))) none
    ∷ finishes 20 (some (owning_lease (format_id 1))) none
    ∷ begins 21 "ui" "profiles.save"
    ∷ finishes 22 (some (owning_lease (format_id 3))) none
    ∷ []

connection_sequence_interrupted-run_example :
    connection_sequence_interrupted
      (run (begin 10 "ui" "connection.connect" fresh).1 later_calls).state
      ("op-0000000000000009" ∷ [])
      "agent-autoconnect"
    ≡ true
unfolding is_one_of format_id hex hex_digit filed_since
connection_sequence_interrupted-run_example =
    connection_sequence_interrupted-run 10 "ui" "connection.connect" fresh
      (owning_lease (format_id 1)) later_calls ("op-0000000000000009" ∷ []) "agent-autoconnect"
      begin_connect refl refl refl refl (omega arith)

connect_op : OperationRecord
connect_op = started 10 "ui" "connection.connect" connect_spec "op-0000000000000001"

cancel-finish_example :
    let d =
      finish 20
        (some (owning_lease "op-0000000000000001"))
        none
        (begin 12 "cli" "connection.cancel" (run fresh connecting)).1 in
    (x : OperationRecord) × (d.registry.recent
      ≡ take recent_operation_limit (x ∷ (run fresh connecting).registry.recent))
    × (x.id ≡ "op-0000000000000001")
    × (x.state ≡ cancelled)
    × (x.stage ≡ cancelled_stage "connection.connect")
    × (x.error ≡ none)
unfolding run begin operation_spec new_coordinator format_id hex hex_digit find is_one_of connect_op
cancel-finish_example =
    cancel-finish 12 20 "cli" "connection.cancel" cancel_spec cancel_control (run fresh connecting)
      connect_op none (run-HasOwnIds connecting (omega arith)) refl refl refl refl

begin-admits_example :
    ((lease : OperationLease) × ((begin 12 "ui" "connection.connect" fresh).0 ≡ ok (some lease)))
    ↔ All (λ op. domains_conflict tunnel_configuration op.domain ≡ false) fresh.registry.active
unfolding operation_spec
begin-admits_example = begin-admits 12 "ui" "connection.connect" connect_spec fresh refl refl
