-- ===== src/Operations/Cancel.antt =====
-- agent/src/operations.rs: a control request on a running operation, and the end of that operation.
use proton_vpn_omarchy_core.Base.{
  ℕ, Bool, true, String, List, [], ◌∷◌, Option, none, some, ◌≡◌, ◌≢◌, refl, ◌∙◌, ap, inl, inr, find,
  find-All, take, update_first, Pairwise, Bool-cases, All-of_map, str_eq_of_ne, str_eq_refl,
}
use proton_vpn_omarchy_core.Backend.{BackendError, ok}
use proton_vpn_omarchy_core.Protocol.Operation.{OperationRecord, cancelled}
use proton_vpn_omarchy_core.Operations.Spec.{
  OperationSpec, ControlSpec, operation_spec, cancelled_stage,
}
use proton_vpn_omarchy_core.Operations.Registry.{Coordinator, publish, recent_operation_limit}
use proton_vpn_omarchy_core.Operations.Begin.{
  Begun, begin, begin_tracked, begin_control, is_target, controlled, control_lease, owning_lease,
}
use proton_vpn_omarchy_core.Operations.Finish.{finish, concluded, has_id, cancellation_requested}
use proton_vpn_omarchy_core.Operations.Calls.{changed}
use proton_vpn_omarchy_core.Operations.Identity.{HasOwnIds, ids}
use proton_vpn_omarchy_core.Operations.Leases.{finish-found}

-- Where identifiers differ, the entry that was changed is found by its own.
find-update_first :
    (p : OperationRecord → Bool) (u : OperationRecord → OperationRecord)
    (ops : List OperationRecord) (op : OperationRecord)
    → (u op).id ≡ op.id
    → Pairwise ◌≢◌ (ids ops)
    → find p ops ≡ some op
    → find (has_id op.id) (update_first p u ops) ≡ some (u op)
unfolding find update_first
find-update_first p u [] op same distinct e = absurd (let no : ⊥ = cc in no)
find-update_first p u (x ∷ ops) op same distinct e = elim (Bool-cases (p x)) [
  | inl hit ↦
      let e' = rw hit at e in
      let first : x ≡ op = cc in rw hit (rw first (rw same (rw (str_eq_refl op.id))))
  | inr miss ↦
      let later = rw miss at e in
      let other : x.id ≢ op.id =
        find-All (λ o. x.id ≢ o.id) p ops op later (All-of_map _ _ ops distinct.0) in
      rw miss
        (rw (str_eq_of_ne x.id op.id other) (find-update_first p u ops op same distinct.1 later))
]

-- A request that finds its target changes it, and gets a lease that does not own it.
begin-target :
    (now : ℕ) (client method : String) (spec : OperationSpec) (control : ControlSpec)
    (c : Coordinator) (op : OperationRecord)
    → operation_spec method ≡ some spec
    → spec.control ≡ some control
    → find (is_target spec control) c.registry.active ≡ some op
    → begin now client method c ≡ (
      ok (some (control_lease control op)),
      changed (is_target spec control) (controlled now control) c,
    )
unfolding begin
begin-target now client method spec control c op is controls found =
    rw (is, begin) (rw (controls, begin_tracked) (rw (found, begin_control)))

-- An operation in a cancelling stage ends as cancelled, however its own work ends.
concluded-cancelled :
    (now : ℕ) (failure : Option BackendError) (op : OperationRecord)
    → cancellation_requested op ≡ true
    → op.error ≡ none
    → let x = concluded now failure op in
      (x.id ≡ op.id)
      × (x.state ≡ cancelled)
      × (x.stage ≡ cancelled_stage op.kind)
      × (x.error ≡ none)
unfolding concluded
concluded-cancelled now none op asked clean = rw asked (refl, refl, refl, clean)
concluded-cancelled now (some e) op asked clean = rw asked (refl, refl, refl, refl)

-- A request that controls a running operation by a cancelling stage (`connection.cancel` and
-- `connection.disconnect` on `connection.connect`, `account.cancel_fido2` on
-- `account.authenticate_fido2`) decides how it ends: when the owner of that operation then
-- finishes it, with success or with any error, the head of the recent operations is that operation,
-- cancelled, in its cancelled stage and with no error.
pub cancel-finish :
    (now later : ℕ) (client method : String) (spec : OperationSpec) (control : ControlSpec)
    (c : Coordinator) (op : OperationRecord) (failure : Option BackendError)
    → HasOwnIds c.registry
    → operation_spec method ≡ some spec
    → spec.control ≡ some control
    → cancellation_requested (controlled now control op) ≡ true
    → find (is_target spec control) c.registry.active ≡ some op
    → let d = finish later (some (owning_lease op.id)) failure (begin now client method c).1 in
      (x : OperationRecord) × (d.registry.recent
        ≡ take recent_operation_limit (x ∷ c.registry.recent))
      × (x.id ≡ op.id)
      × (x.state ≡ cancelled)
      × (x.stage ≡ cancelled_stage op.kind)
      × (x.error ≡ none)
unfolding publish
cancel-finish now later client method spec control c op failure own is controls asked found =
    let target = controlled now control op in
    let (same_id, state, stage, clean) = concluded-cancelled later failure target asked refl in
    let opened =
      ap (λ (b : Begun). b.1)
        (begin-target now client method spec control c op is controls found) in
    let closes =
      ap (finish later (some (owning_lease op.id)) failure) opened
      ∙ finish-found later (owning_lease op.id) failure
          (changed (is_target spec control) (controlled now control) c) target refl
          (find-update_first (is_target spec control) (controlled now control) c.registry.active op
            refl own.distinct found) in
    (
      concluded later failure target,
      ap (λ d. d.registry.recent) closes,
      same_id,
      state,
      stage,
      clean,
    )
