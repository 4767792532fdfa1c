-- ===== src/Operations/Interrupted.antt =====
-- agent/src/operations.rs: what ends a sequence of attempts to connect.
use proton_vpn_omarchy_core.Base.{
  ℕ, ◌≤◌, inl, inr, str_eq_iff, any-left, any-right, any_mono, any-last, Bool, true, false, ◌&&◌,
  ◌||◌, not, String, List, [], ◌∷◌, ◌++◌, Option, none, some, if-both, ◌≡◌, refl, ap, ◌∙◌, arith,
  any, is_one_of, str_eq,
}
use proton_vpn_omarchy_core.Backend.{BackendError, ok}
use proton_vpn_omarchy_core.Protocol.Operation.{
  OperationRecord, OperationStatus, queued, running, succeeded, failed, cancelled,
}
use proton_vpn_omarchy_core.Protocol.Snapshot.{StateSnapshot}
use proton_vpn_omarchy_core.Operations.Ids.{format_id}
use proton_vpn_omarchy_core.Operations.Spec.{is_cancelled_error}
use proton_vpn_omarchy_core.Operations.Registry.{
  OperationLease, Coordinator, publish, recent_operation_limit,
}
use proton_vpn_omarchy_core.Operations.Begin.{Begun, begin, started, owning_lease}
use proton_vpn_omarchy_core.Operations.Finish.{concluded, cancellation_requested}
use proton_vpn_omarchy_core.Operations.Calls.{Call, step, run, step_rule, grown}
use proton_vpn_omarchy_core.Operations.Invariant.{IsPublished}
use proton_vpn_omarchy_core.Operations.Leases.{begin-Opens}
use proton_vpn_omarchy_core.Operations.Listed.{Same, filed_since, IsShown, run-IsShown}

abbrev pub sequence_enders : List String
sequence_enders =
    "connection.connect" ∷ "connection.cancel" ∷ "connection.disconnect" ∷ "account.logout" ∷ []

abbrev is_cancelled : OperationStatus → Bool
is_cancelled cancelled = true
is_cancelled queued = false
is_cancelled running = false
is_cancelled succeeded = false
is_cancelled failed = false

unfoldable pub interrupts : List String → String → OperationRecord → Bool
unfolding is_one_of
interrupts initial initiator op =
    not (is_one_of op.id initial)
    && ((str_eq op.kind "connection.connect"
          && (str_eq op.stage "tunnel.cancelling" || is_cancelled op.state))
        || (not (str_eq op.initiator_client_instance_id initiator)
            && is_one_of op.kind sequence_enders))

unfoldable pub connection_sequence_interrupted : StateSnapshot → List String → String → Bool
unfolding interrupts any
connection_sequence_interrupted state initial initiator =
    any (interrupts initial initiator) (state.operations.active ++ state.operations.recent)

-- How an operation ends changes neither its identifier nor whose and of which method it is.
concluded-same :
    (now : ℕ) (failure : Option BackendError) (op : OperationRecord)
    → Same op (concluded now failure op)
unfolding concluded
concluded-same now none op =
    if-both {A = OperationRecord} (Same op) (cancellation_requested op) _ _ (refl, refl, refl)
      (refl, refl, refl)
concluded-same now (some e) op =
    if-both {A = OperationRecord} (Same op) (cancellation_requested op || is_cancelled_error e.code)
      _ _ (refl, refl, refl) (refl, refl, refl)

step-IsPublished : (c : Coordinator) (call : Call) → IsPublished c → IsPublished (step c call)
unfolding publish
step-IsPublished c call h =
    step_rule IsPublished c h (λ test u keeps. (refl, refl))
      (λ now client method spec free. (refl, refl)) (λ now failure test op found. (refl, refl)) call

run-IsPublished : (calls : List Call) (c : Coordinator) → IsPublished c → IsPublished (run c calls)
unfolding run
run-IsPublished [] c h = h
run-IsPublished (call ∷ calls) c h = run-IsPublished calls (step c call) (step-IsPublished c call h)

module _ (id : String) (initial : List String) (initiator : String) where
  -- The operation of this identifier, of another client and of one of the four methods.
  abbrev is_foreign : OperationRecord → Bool
  is_foreign op =
      str_eq op.id id
      && (not (str_eq op.initiator_client_instance_id initiator)
          && is_one_of op.kind sequence_enders)

  is_foreign-named : (op : OperationRecord) → is_foreign op ≡ true → op.id ≡ id
  is_foreign-named op h = (str_eq_iff op.id id).0 (first (str_eq op.id id) _ h)
    where
      first : (a b : Bool) → (a && b) ≡ true → a ≡ true
      first a b h = ground arith

  is_foreign-stable : (op r : OperationRecord) → Same op r → is_foreign r ≡ is_foreign op
  is_foreign-stable op r same =
      ap
        (λ (k : String × String × String).
          str_eq k.0 id && (not (str_eq k.1 initiator) && is_one_of k.2 sequence_enders))
        (λ i. (same.0 i, same.1 i, same.2 i))

  foreign-interrupts :
      (op : OperationRecord)
      → is_one_of id initial ≡ false
      → is_foreign op ≡ true
      → interrupts initial initiator op ≡ true
  unfolding interrupts
  foreign-interrupts op new h =
      let other : is_one_of op.id initial ≡ false =
        ap (λ i. is_one_of i initial) (is_foreign-named op h) ∙ new in
      rw other (both (str_eq op.id id) _ _ h)
    where
      both : (a b c : Bool) → (a && b) ≡ true → (c || b) ≡ true
      both a b c h = ground arith

  shown-interrupts :
      (c : Coordinator)
      → is_one_of id initial ≡ false
      → IsPublished c
      → IsShown id is_foreign is_foreign-named is_foreign-stable concluded-same c
      → connection_sequence_interrupted c.state initial initiator ≡ true
  unfolding connection_sequence_interrupted
  shown-interrupts c new published shown =
      rw (published.0, published.1)
        (any_mono is_foreign (interrupts initial initiator) (c.registry.active ++ c.registry.recent)
          (λ op. foreign-interrupts op new) (listed shown))
    where
      listed :
          IsShown id is_foreign is_foreign-named is_foreign-stable concluded-same c
          → any is_foreign (c.registry.active ++ c.registry.recent) ≡ true
      listed (inl h) = any-left is_foreign c.registry.active c.registry.recent h
      listed (inr h) = any-right is_foreign c.registry.active c.registry.recent h

-- Another client's connect, cancel, disconnect or logout that is admitted as an operation of its own
-- interrupts a sequence of attempts to connect, if it is none of the operations that the sequence
-- started with. It does so after any calls of the coordinator from then on: as long as its owner has not
-- finished it, and after that, whatever its outcome, until sixteen others have been filed. (A request
-- that takes over a running operation is not admitted as one of its own.)
pub connection_sequence_interrupted-run :
    (now : ℕ) (client method : String) (c : Coordinator) (lease : OperationLease)
    (calls : List Call) (initial : List String) (initiator : String)
    → (begin now client method c).0 ≡ ok (some lease)
    → lease.owns_completion ≡ true
    → is_one_of lease.id initial ≡ false
    → str_eq client initiator ≡ false
    → is_one_of method sequence_enders ≡ true
    → filed_since lease.id calls ≤ recent_operation_limit
    → connection_sequence_interrupted
        (run (begin now client method c).1 calls).state
        initial
        initiator
      ≡ true
unfolding publish
connection_sequence_interrupted-run now client method c lease calls initial initiator e owns new
      foreign ends few =
    let (spec, is, opened) = begin-Opens now client method c lease e owns in
    let id = format_id c.registry.next_id in
    let mine : owning_lease id ≡ lease = cc (ap (λ (b : Begun). b.0) opened) in
    let named : id ≡ lease.id = ap (λ l. l.id) mine in
    let d = grown now client method spec c in
    let op = started now client method spec id in
    let hit : is_foreign lease.id initial initiator op ≡ true =
      passes (str_eq id lease.id) (str_eq client initiator) _ ((str_eq_iff id lease.id).1 named)
        foreign ends in
    ap (λ (b : Begun). connection_sequence_interrupted (run b.1 calls).state initial initiator)
      opened
    ∙ shown-interrupts lease.id initial initiator (run d calls) new
        (run-IsPublished calls d (refl, refl))
        (run-IsShown lease.id (is_foreign lease.id initial initiator)
          (is_foreign-named lease.id initial initiator)
          (is_foreign-stable lease.id initial initiator) concluded-same calls d few
          (any-last (is_foreign lease.id initial initiator) c.registry.active op hit))
  where
    passes : (a b c : Bool) → a ≡ true → b ≡ false → c ≡ true → (a && (not b && c)) ≡ true
    passes a b c h k l = ground arith
