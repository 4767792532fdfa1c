-- ===== src/Operations/Registry.antt =====
-- agent/src/operations.rs: the coordinator's state. The registry stands behind a mutex, and the
-- snapshot in a watch channel that the store and the event reducer write too.
use proton_vpn_omarchy_core.Base.{
  ℕ, ◌+◌, ◌%◌, Bool, true, false, String, List, [], Option, none, some,
}
use proton_vpn_omarchy_core.Json.{
  Value, Fields, field, end, null, boolean, number, pos_int, string, object,
}
use proton_vpn_omarchy_core.Protocol.Operation.{
  OperationDomain, OperationStatus, OperationError, OperationRecord, auth_session,
  tunnel_configuration, support, store, queued, running, succeeded, failed, cancelled,
}
use proton_vpn_omarchy_core.Protocol.Snapshot.{StateSnapshot}
use proton_vpn_omarchy_core.Operations.Ids.{u64_mod}

-- The newest entry of `recent` stands first.
pub record OperationRegistry : Type 0 where
  pub next_id : ℕ  -- u64
  pub active : List OperationRecord
  pub recent : List OperationRecord

pub record OperationLease : Type 0 where
  pub id : String
  pub owns_completion : Bool
  pub control_failure_stage : Option String
  pub control_failure_cancelable : Bool

pub record Coordinator : Type 0 where
  pub registry : OperationRegistry
  pub state : StateSnapshot

abbrev pub recent_operation_limit : ℕ
recent_operation_limit = 16

unfoldable pub new_coordinator : StateSnapshot → Coordinator
new_coordinator state = record {
  registry = record { next_id = 1; active = []; recent = [] };
  state = state;
}

-- `publish`: the snapshot receives both lists and a new revision.
unfoldable pub publish : OperationRegistry → StateSnapshot → Coordinator
publish registry state = record {
  registry = registry;
  state = record state {
    operations = record { active = registry.active; recent = registry.recent };
    revision = (state.revision + 1) % u64_mod;
  };
}

abbrev pub is_running : OperationStatus → Bool
is_running running = true
is_running _ = false

-- The names that serialisation gives to a domain and to a status.
abbrev domain_name : OperationDomain → String
domain_name auth_session = "auth_session"
domain_name tunnel_configuration = "tunnel_configuration"
domain_name support = "support"
domain_name store = "store"

abbrev status_name : OperationStatus → String
status_name queued = "queued"
status_name running = "running"
status_name succeeded = "succeeded"
status_name failed = "failed"
status_name cancelled = "cancelled"

abbrev optional_number : Option ℕ → Value
optional_number none = null
optional_number (some n) = number (pos_int n)

abbrev with_details_field : Option Value → Fields → Fields
with_details_field none fs = fs
with_details_field (some v) fs = field "details" v fs

abbrev optional_error : Option OperationError → Value
optional_error none = null
optional_error (some e) = object (
    field "code" (string e.code)
      (with_details_field e.details (field "retryable" (boolean e.retryable) end)))

-- The derived serialisation of an operation, which conflict errors carry.
pub operation_value : OperationRecord → Value
operation_value op = object (
    field "id" (string op.id) (
      field "initiator_client_instance_id" (string op.initiator_client_instance_id) (
        field "domain" (string (domain_name op.domain)) (
          field "kind" (string op.kind) (
            field "state" (string (status_name op.state)) (
              field "stage" (string op.stage) (
                field "started_at_unix_ms" (number (pos_int op.started_at_unix_ms)) (
                  field "updated_at_unix_ms" (number (pos_int op.updated_at_unix_ms)) (
                    field "finished_at_unix_ms" (optional_number op.finished_at_unix_ms) (
                      field "cancelable" (boolean op.cancelable)
                        (field "error" (optional_error op.error) end)))))))))))
