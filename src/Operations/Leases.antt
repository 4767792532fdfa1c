-- ===== src/Operations/Leases.antt =====
-- agent/src/operations.rs: what a lease is good for, from `begin` to `finish`.
use proton_vpn_omarchy_core.Base.{
  ℕ, ◌+◌, ◌%◌, ◌<◌, true, false, String, List, ◌∷◌, Option, none, some, ◌≡◌, ◌≢◌, refl, sym, ◌∙◌,
  ap, inl, inr, arith, find, take, All, All-mono, All-of_map, find-snoc, remove_first-snoc,
  Bool-cases, Option-cases, str_eq, str_eq_iff, str_eq_refl,
}
use proton_vpn_omarchy_core.Backend.{BackendError, Result, ok, err, ◌>>=◌}
use proton_vpn_omarchy_core.Protocol.Operation.{OperationRecord}
use proton_vpn_omarchy_core.Operations.Ids.{format_id, u64_mod}
use proton_vpn_omarchy_core.Operations.Spec.{
  OperationSpec, ControlSpec, operation_spec, domains_conflict,
}
use proton_vpn_omarchy_core.Operations.Registry.{
  OperationLease, Coordinator, publish, recent_operation_limit,
}
use proton_vpn_omarchy_core.Operations.Begin.{
  Begun, begin, begin_tracked, begin_control, begin_new, started, owning_lease, is_target,
}
use proton_vpn_omarchy_core.Operations.Finish.{finish, finish_owned, concluded, has_id}
use proton_vpn_omarchy_core.Operations.Calls.{grown, shrunk}
use proton_vpn_omarchy_core.Operations.Identity.{HasOwnIds, ids, next-ne}

-- The lease of a new operation.
abbrev pub Opens : ℕ → String → String → Coordinator → Begun → Type 0
Opens now client method c r =
    (spec : OperationSpec) × (operation_spec method ≡ some spec)
    × (r
        ≡ (ok (some (owning_lease (format_id c.registry.next_id))), grown now client method spec c))

begin_new-opens :
    (now : ℕ) (client method : String) (spec : OperationSpec) (c : Coordinator)
    (lease : OperationLease)
    → (begin_new now client method spec c).0 ≡ ok (some lease)
    → begin_new now client method spec c
      ≡ (ok (some (owning_lease (format_id c.registry.next_id))), grown now client method spec c)
unfolding begin_new
begin_new-opens now client method spec c lease e =
    elim (Option-cases (find (λ op. domains_conflict spec.domain op.domain) c.registry.active)) [
      | inr (active, found) ↦ let e' = rw (found, begin_new) at e in absurd (let no : ⊥ = cc in no)
      | inl free ↦ rw (free, begin_new)
    ]

-- A control request on a running operation does not own it.
begin_control-opens :
    (now : ℕ) (client method : String) (spec : OperationSpec) (control : ControlSpec)
    (c : Coordinator) (lease : OperationLease)
    → (begin_control now client method spec control c).0 ≡ ok (some lease)
    → lease.owns_completion ≡ true
    → begin_control now client method spec control c
      ≡ (ok (some (owning_lease (format_id c.registry.next_id))), grown now client method spec c)
unfolding begin_control
begin_control-opens now client method spec control c lease e owns =
    elim (Option-cases (find (is_target spec control) c.registry.active)) [
      | inr (target, found) ↦
          let e' = rw (found, begin_control) at e in absurd (let no : ⊥ = ground arith in no)
      | inl free ↦ elim (Bool-cases control.requires_target) [
        | inl must ↦ let e' = rw (free, must, begin_control) at e in absurd (let no : ⊥ = cc in no)
        | inr may ↦
            rw (free, may, begin_control)
              (begin_new-opens now client method spec c lease (rw (free, may, begin_control) at e))
      ]
    ]

begin_tracked-opens :
    (now : ℕ) (client method : String) (spec : OperationSpec) (c : Coordinator)
    (lease : OperationLease)
    → (begin_tracked now client method spec c).0 ≡ ok (some lease)
    → lease.owns_completion ≡ true
    → begin_tracked now client method spec c
      ≡ (ok (some (owning_lease (format_id c.registry.next_id))), grown now client method spec c)
unfolding begin_tracked
begin_tracked-opens now client method spec c lease e owns = elim (Option-cases spec.control) [
  | inr (control, is) ↦
      rw (is, begin_tracked)
        (begin_control-opens now client method spec control c lease (rw (is, begin_tracked) at e)
          owns)
  | inl is ↦
      rw (is, begin_tracked)
        (begin_new-opens now client method spec c lease (rw (is, begin_tracked) at e))
]

read_without_lease :
    (r : Result (Unit {0})) (lease : OperationLease) → (r >>= λ _. ok none) ≡ ok (some lease) → ⊥
read_without_lease (ok u) lease e = cc
read_without_lease (err x) lease e = cc

pub begin-Opens :
    (now : ℕ) (client method : String) (c : Coordinator) (lease : OperationLease)
    → (begin now client method c).0 ≡ ok (some lease)
    → lease.owns_completion ≡ true
    → Opens now client method c (begin now client method c)
unfolding begin
begin-Opens now client method c lease e owns = elim (Option-cases (operation_spec method)) [
  | inl is ↦ absurd (read_without_lease _ lease (rw (is, begin) at e))
  | inr (spec, is) ↦ (
    spec,
    is,
    rw (is, begin) (begin_tracked-opens now client method spec c lease (rw (is, begin) at e) owns),
  )
]

-- Where a list has no entry of an identifier, an entry of that identifier at its end is found.
absent :
    (id : String) (ops : List OperationRecord)
    → All (λ x. id ≢ x) (ids ops)
    → All (λ op. has_id id op ≡ false) ops
absent id ops h =
    All-mono ops
      (λ op ne. elim (Bool-cases (str_eq op.id id)) [
        | inl same ↦ absurd (ne (sym ((str_eq_iff op.id id).0 same)))
        | inr other ↦ other
      ])
      (All-of_map (λ op. op.id) (λ x. id ≢ x) ops h)

-- `finish` of an owning lease whose operation is active takes that operation out.
pub finish-found :
    (later : ℕ) (lease : OperationLease) (failure : Option BackendError) (c : Coordinator)
    (op : OperationRecord)
    → lease.owns_completion ≡ true
    → find (has_id lease.id) c.registry.active ≡ some op
    → finish later (some lease) failure c ≡ shrunk (has_id lease.id) (concluded later failure op) c
unfolding finish
finish-found later lease failure c op owns found = rw owns (rw (found, finish_owned))

-- The coordinator after the operation that `grown` adds is closed.
abbrev pub reclosed :
    ℕ → ℕ → String → String → OperationSpec → Coordinator → Option BackendError → Coordinator
reclosed now later client method spec c failure =
    publish
      (record c.registry {
        next_id = (c.registry.next_id + 1) % u64_mod;
        recent = take recent_operation_limit (
            concluded later failure (started now client method spec (format_id c.registry.next_id))
            ∷ c.registry.recent);
      })
      (grown now client method spec c).state

pub finish-grown :
    (now later : ℕ) (client method : String) (spec : OperationSpec) (c : Coordinator)
    (failure : Option BackendError)
    → HasOwnIds c.registry
    → c.registry.next_id < u64_mod
    → finish later
        (some (owning_lease (format_id c.registry.next_id)))
        failure
        (grown now client method spec c)
      ≡ reclosed now later client method spec c failure
unfolding publish
finish-grown now later client method spec c failure own room =
    let id = format_id c.registry.next_id in
    let none_other = absent id c.registry.active (next-ne c.registry.next_id _ room own.issued) in
    let op = started now client method spec id in
    finish-found later (owning_lease id) failure (grown now client method spec c) op refl
      (find-snoc (has_id id) c.registry.active op none_other (str_eq_refl id))
    ∙ rw (remove_first-snoc (has_id id) c.registry.active op none_other (str_eq_refl id))

-- The lease that opens an operation closes it: `begin` of a tracked method and `finish` of the lease
-- leave the active operations as they were, whatever the outcome, and put the operation with its
-- outcome at the head of the recent ones, of which sixteen are kept. (The coordinator's identifiers
-- are its own, and its counter has not come to its end.)
pub begin-finish :
    (now later : ℕ) (client method : String) (c : Coordinator) (lease : OperationLease)
    (failure : Option BackendError)
    → HasOwnIds c.registry
    → c.registry.next_id < u64_mod
    → (begin now client method c).0 ≡ ok (some lease)
    → lease.owns_completion ≡ true
    → let d = finish later (some lease) failure (begin now client method c).1 in
      (d.registry.active ≡ c.registry.active)
      × ((spec : OperationSpec) × (operation_spec method ≡ some spec)
          × (d.registry.recent
              ≡ take recent_operation_limit (
                  concluded later failure (started now client method spec lease.id)
                  ∷ c.registry.recent)))
unfolding publish
begin-finish now later client method c lease failure own room e owns =
    let (spec, is, opened) = begin-Opens now client method c lease e owns in
    let id = format_id c.registry.next_id in
    let mine : owning_lease id ≡ lease = cc (ap (λ (b : Begun). b.0) opened) in
    let closes =
      ap (finish later (some lease) failure) (ap (λ (b : Begun). b.1) opened)
      ∙ ap (λ l. finish later (some l) failure (grown now client method spec c)) (sym mine)
      ∙ finish-grown now later client method spec c failure own room in
    (
      ap (λ d. d.registry.active) closes,
      (
        spec,
        is,
        ap (λ d. d.registry.recent) closes
            ∙ ap
                (λ l. take recent_operation_limit (
                  concluded later failure (started now client method spec l.id)
                  ∷ c.registry.recent))
                mine,
      ),
    )
