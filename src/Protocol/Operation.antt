-- ===== src/Protocol/Operation.antt =====
-- protocol/src/lib.rs: the record of one operation, and the two lists of them in the snapshot.
use proton_vpn_omarchy_core.Base.{ℕ, Bool, String, List, [], Option}
use proton_vpn_omarchy_core.Json.{Value}

pub data OperationDomain : Type 0 where
  auth_session tunnel_configuration support store : OperationDomain

pub data OperationStatus : Type 0 where
  queued running succeeded failed cancelled : OperationStatus

pub record OperationError : Type 0 where
  pub code : String
  pub details : Option Value
  pub retryable : Bool

pub record OperationRecord : Type 0 where
  pub id : String
  pub initiator_client_instance_id : String
  pub domain : OperationDomain
  pub kind : String
  pub state : OperationStatus
  pub stage : String
  pub started_at_unix_ms : ℕ  -- u64
  pub updated_at_unix_ms : ℕ  -- u64
  pub finished_at_unix_ms : Option ℕ  -- u64
  pub cancelable : Bool
  pub error : Option OperationError

pub record OperationState : Type 0 where
  pub active : List OperationRecord
  pub recent : List OperationRecord

abbrev pub default_operation_state : OperationState
default_operation_state = record { active = []; recent = [] }
