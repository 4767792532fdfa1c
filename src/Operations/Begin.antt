-- ===== src/Operations/Begin.antt =====
-- agent/src/operations.rs: `begin` and `guard_read`. The time of the call is an argument.
use proton_vpn_omarchy_core.Base.{
  ℕ, ◌+◌, ◌%◌, Bool, true, false, ◌&&◌, String, [], ◌∷◌, ◌++◌, Option, none, some, str_eq, find,
  update_first, if◌then◌else◌,
}
use proton_vpn_omarchy_core.Json.{field, end, object}
use proton_vpn_omarchy_core.Backend.{
  BackendError, Result, ok, err, ◌>>=◌, new_error, with_details, set_retryable,
}
use proton_vpn_omarchy_core.Protocol.Operation.{OperationRecord, auth_session, running}
use proton_vpn_omarchy_core.Operations.Ids.{format_id, u64_mod}
use proton_vpn_omarchy_core.Operations.Spec.{
  OperationSpec, ControlSpec, operation_spec, domains_conflict, same_domain,
  requires_stable_session,
}
use proton_vpn_omarchy_core.Operations.Registry.{
  OperationLease, Coordinator, publish, is_running, operation_value,
}

abbrev pub conflict_error : String → OperationRecord → BackendError
conflict_error message active =
    set_retryable
      (with_details (new_error "operation_conflict" message)
        (object (field "active_operation" (operation_value active) end)))
      true

-- A read that needs a settled session is refused while the session changes.
unfoldable pub guard_read : String → Coordinator → Result (Unit {0})
guard_read method c =
    if requires_stable_session method
    then elim (find (λ op. same_domain op.domain auth_session) c.registry.active) [
      | none ↦ ok tt
      | some active ↦
          err (
            conflict_error "Authentication state is changing; retry this request afterwards" active)
    ]
    else ok tt

-- The running operation that a control request acts on.
abbrev pub is_target : OperationSpec → ControlSpec → OperationRecord → Bool
is_target spec control op =
    same_domain op.domain spec.domain && str_eq op.kind control.target_kind && is_running op.state

abbrev pub controlled : ℕ → ControlSpec → OperationRecord → OperationRecord
controlled now control op = record op {
  stage = control.stage;
  updated_at_unix_ms = now;
  cancelable = control.cancelable;
  error = none;
}

abbrev pub control_lease : ControlSpec → OperationRecord → OperationLease
control_lease control op = record {
  id = op.id;
  owns_completion = false;
  control_failure_stage = some control.failure_stage;
  control_failure_cancelable = control.failure_cancelable;
}

abbrev pub Begun : Type 0
Begun = Result (Option OperationLease) × Coordinator

abbrev pub started : ℕ → String → String → OperationSpec → String → OperationRecord
started now client method spec id = record {
  id = id;
  initiator_client_instance_id = client;
  domain = spec.domain;
  kind = method;
  state = running;
  stage = spec.stage;
  started_at_unix_ms = now;
  updated_at_unix_ms = now;
  finished_at_unix_ms = none;
  cancelable = spec.cancelable;
  error = none;
}

abbrev pub owning_lease : String → OperationLease
owning_lease id = record {
  id = id;
  owns_completion = true;
  control_failure_stage = none;
  control_failure_cancelable = false;
}

-- The part of `begin` after the control request: the conflict test, and the new operation.
unfoldable pub begin_new : ℕ → String → String → OperationSpec → Coordinator → Begun
unfolding publish
begin_new now client method spec c =
    elim (find (λ op. domains_conflict spec.domain op.domain) c.registry.active) [
      | some active ↦ (
        err (conflict_error "Another incompatible Proton VPN operation is already running" active),
        c,
      )
      | none ↦ (
        ok (some (owning_lease (format_id c.registry.next_id))),
        publish
            (record c.registry {
              next_id = (c.registry.next_id + 1) % u64_mod;
              active =
                  c.registry.active
                  ++ started now client method spec (format_id c.registry.next_id) ∷ [];
            })
            c.state,
      )
    ]

unfoldable pub begin_control :
    ℕ → String → String → OperationSpec → ControlSpec → Coordinator → Begun
unfolding publish begin_new
begin_control now client method spec control c =
    elim (find (is_target spec control) c.registry.active) [
      | some target ↦ (
        ok (some (control_lease control target)),
        publish
            (record c.registry {
              active =
                  update_first (is_target spec control) (controlled now control) c.registry.active;
            })
            c.state,
      )
      | none ↦
          if control.requires_target
          then (
            err (
                new_error "operation_not_active"
                  "The operation controlled by this request is not active"),
            c,
          )
          else begin_new now client method spec c
    ]

unfoldable pub begin_tracked : ℕ → String → String → OperationSpec → Coordinator → Begun
unfolding begin_control begin_new
begin_tracked now client method spec c = elim spec.control [
  | none ↦ begin_new now client method spec c
  | some control ↦ begin_control now client method spec control c
]

unfoldable pub begin : ℕ → String → String → Coordinator → Begun
unfolding begin_tracked guard_read
begin now client method c = elim (operation_spec method) [
  | none ↦ (guard_read method c >>= λ _. ok none, c)
  | some spec ↦ begin_tracked now client method spec c
]
