-- ===== src/Operations/Finish.antt =====
-- agent/src/operations.rs: `finish` and the two updates of a stage.
use Prim.Native.String.{len}
use proton_vpn_omarchy_core.Base.{
  ℕ, Bool, false, ◌&&◌, ◌||◌, String, [], ◌∷◌, Option, none, some, str_eq, find, update_first,
  remove_first, take, ltb, unwrap_or, is_empty, is_one_of, if◌then◌else◌,
}
use proton_vpn_omarchy_core.Backend.{BackendError}
use proton_vpn_omarchy_core.Protocol.Operation.{
  OperationDomain, OperationError, OperationRecord, succeeded, failed, cancelled,
}
use proton_vpn_omarchy_core.Operations.Spec.{
  same_domain, completion_stage, failure_stage, cancelled_stage, is_cancelled_error,
}
use proton_vpn_omarchy_core.Operations.Registry.{
  OperationLease, Coordinator, publish, is_running, recent_operation_limit,
}

abbrev pub operation_error : BackendError → OperationError
operation_error e = record { code = e.code; details = e.details; retryable = e.retryable }

-- A failed control request leaves its mark on the operation that it tried to control.
abbrev pub control_failed : ℕ → OperationLease → BackendError → OperationRecord → OperationRecord
control_failed now lease e op = record op {
  stage = unwrap_or lease.control_failure_stage "operation.control_failed";
  updated_at_unix_ms = now;
  cancelable = lease.control_failure_cancelable;
  error = some (operation_error e);
}

abbrev pub cancellation_requested : OperationRecord → Bool
cancellation_requested op =
    is_one_of op.stage ("tunnel.cancelling" ∷ "auth.cancelling_security_key" ∷ [])

abbrev pub closed : ℕ → OperationRecord → OperationRecord
closed now op = record op {
  updated_at_unix_ms = now;
  finished_at_unix_ms = some now;
  cancelable = false;
}

-- The last `match` of `finish`: `none` is a success.
unfoldable pub concluded : ℕ → Option BackendError → OperationRecord → OperationRecord
unfolding is_one_of
concluded now none op =
    if cancellation_requested op
    then record (closed now op) { state = cancelled; stage = cancelled_stage op.kind }
    else record (closed now op) { state = succeeded; stage = completion_stage op.kind }
concluded now (some e) op =
    if cancellation_requested op || is_cancelled_error e.code
    then record (closed now op) { state = cancelled; stage = cancelled_stage op.kind; error = none }
    else record (closed now op) {
      state = failed;
      stage = failure_stage op.kind;
      error = some (operation_error e);
    }

abbrev pub has_id : String → OperationRecord → Bool
has_id id op = str_eq op.id id

unfoldable pub finish_owned : ℕ → OperationLease → Option BackendError → Coordinator → Coordinator
unfolding concluded publish
finish_owned now lease failure c = elim (find (has_id lease.id) c.registry.active) [
  | none ↦ c
  | some op ↦
      publish
        (record c.registry {
          active = remove_first (has_id lease.id) c.registry.active;
          recent = take recent_operation_limit (concluded now failure op ∷ c.registry.recent);
        })
        c.state
]

unfoldable pub finish_control : ℕ → OperationLease → Option BackendError → Coordinator → Coordinator
unfolding publish
finish_control now lease none c = c
finish_control now lease (some e) c = elim (find (has_id lease.id) c.registry.active) [
  | none ↦ c
  | some op ↦
      publish
        (record c.registry {
          active = update_first (has_id lease.id) (control_failed now lease e) c.registry.active;
        })
        c.state
]

unfoldable pub finish : ℕ → Option OperationLease → Option BackendError → Coordinator → Coordinator
unfolding finish_owned finish_control
finish now none failure c = c
finish now (some lease) failure c =
    if lease.owns_completion
    then finish_owned now lease failure c
    else finish_control now lease failure c

abbrev pub restaged : ℕ → String → Option Bool → OperationRecord → OperationRecord
restaged now stage cancelable op = record op {
  stage = stage;
  updated_at_unix_ms = now;
  cancelable = unwrap_or cancelable op.cancelable;
}

abbrev is_kind : String → OperationRecord → Bool
is_kind method op = str_eq op.kind method && is_running op.state

abbrev is_in_domain : OperationDomain → OperationRecord → Bool
is_in_domain domain op = same_domain op.domain domain && is_running op.state

-- The common end of both updates: the first operation that passes the test is changed.
unfoldable pub restage :
    (OperationRecord → Bool) → ℕ → String → Option Bool → Coordinator → Coordinator
unfolding publish
restage test now stage cancelable c = elim (find test c.registry.active) [
  | none ↦ c
  | some op ↦
      publish
        (record c.registry {
          active = update_first test (restaged now stage cancelable) c.registry.active;
        })
        c.state
]

abbrev bad_text : String → Bool
bad_text s = is_empty s || ltb 128 (len s)

unfoldable pub update_stage : ℕ → String → String → Option Bool → Coordinator → Coordinator
unfolding restage
update_stage now method stage cancelable c =
    if bad_text method || bad_text stage then c else restage (is_kind method) now stage cancelable c

unfoldable pub update_domain_stage :
    ℕ → OperationDomain → String → Option Bool → Coordinator → Coordinator
unfolding restage
update_domain_stage now domain stage cancelable c =
    if bad_text stage then c else restage (is_in_domain domain) now stage cancelable c
