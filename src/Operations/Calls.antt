-- ===== src/Operations/Calls.antt =====
-- agent/src/operations.rs: one call of the coordinator after another. The mutex makes each call a
-- step of its own, so a list of calls is an interleaving of the clients' requests.
use proton_vpn_omarchy_core.Base.{
  true, Bool-cases, ℕ, ◌+◌, ◌%◌, Bool, false, String, List, [], ◌∷◌, ◌++◌, Option, none, some, ◌≡◌,
  refl, inl, inr, find, take, update_first, remove_first, All, All-of_find-none, Option-cases,
  if-both,
}
use proton_vpn_omarchy_core.Backend.{BackendError}
use proton_vpn_omarchy_core.Protocol.Operation.{OperationDomain, OperationRecord}
use proton_vpn_omarchy_core.Operations.Ids.{format_id, u64_mod}
use proton_vpn_omarchy_core.Operations.Spec.{
  OperationSpec, ControlSpec, operation_spec, domains_conflict,
}
use proton_vpn_omarchy_core.Operations.Registry.{
  OperationLease, Coordinator, publish, recent_operation_limit,
}
use proton_vpn_omarchy_core.Operations.Begin.{
  Begun, begin, begin_tracked, begin_control, begin_new, started, controlled, is_target,
}
use proton_vpn_omarchy_core.Operations.Finish.{
  finish, finish_owned, finish_control, concluded, control_failed, has_id, restage, restaged,
  update_stage, update_domain_stage,
}

pub data Call : Type 0 where
  begins : ℕ → String → String → Call
  finishes : ℕ → Option OperationLease → Option BackendError → Call
  stages : ℕ → String → String → Option Bool → Call
  domain_stages : ℕ → OperationDomain → String → Option Bool → Call

unfoldable pub step : Coordinator → Call → Coordinator
step c (begins now client method) = (begin now client method c).1
step c (finishes now lease failure) = finish now lease failure c
step c (stages now method stage cancelable) = update_stage now method stage cancelable c
step c (domain_stages now domain stage cancelable) =
    update_domain_stage now domain stage cancelable c

unfoldable pub run : Coordinator → List Call → Coordinator
unfolding step
run c [] = c
run c (call ∷ calls) = run (step c call) calls

-- A change of an operation in progress keeps who it is and how far it is.
pub record Keeps (u : OperationRecord → OperationRecord) : Type 0 where
  pub same_id : (op : OperationRecord) → (u op).id ≡ op.id
  pub same_domain : (op : OperationRecord) → (u op).domain ≡ op.domain
  pub same_state : (op : OperationRecord) → (u op).state ≡ op.state
  pub same_kind : (op : OperationRecord) → (u op).kind ≡ op.kind
  pub same_client :
      (op : OperationRecord) → (u op).initiator_client_instance_id ≡ op.initiator_client_instance_id
  pub same_end : (op : OperationRecord) → (u op).finished_at_unix_ms ≡ op.finished_at_unix_ms

-- What a call may make of the coordinator, other than leave it alone.
abbrev pub changed :
    (OperationRecord → Bool) → (OperationRecord → OperationRecord) → Coordinator → Coordinator
changed test u c =
    publish (record c.registry { active = update_first test u c.registry.active }) c.state

abbrev pub grown : ℕ → String → String → OperationSpec → Coordinator → Coordinator
grown now client method spec c =
    publish
      (record c.registry {
        next_id = (c.registry.next_id + 1) % u64_mod;
        active =
            c.registry.active ++ started now client method spec (format_id c.registry.next_id) ∷ [];
      })
      c.state

abbrev pub shrunk : (OperationRecord → Bool) → OperationRecord → Coordinator → Coordinator
shrunk test closed c =
    publish
      (record c.registry {
        active = remove_first test c.registry.active;
        recent = take recent_operation_limit (closed ∷ c.registry.recent);
      })
      c.state

-- A call of `finish` by the owner of an operation files it among the recent ones.
abbrev pub files : Call → Bool
files (begins now client method) = false
files (finishes now none failure) = false
files (finishes now (some lease) failure) = lease.owns_completion
files (stages now method stage cancelable) = false
files (domain_stages now domain stage cancelable) = false

-- A predicate that the first two changes keep is kept by every call that files no operation, and one
-- that all three keep is kept by every call.
module _ {ℓ} (P : Coordinator → Type ℓ) (c : Coordinator) (same : P c)
    (change : (test : OperationRecord → Bool) (u : OperationRecord → OperationRecord)
      → Keeps u
      → P (changed test u c))
    (grow : (now : ℕ) (client method : String) (spec : OperationSpec)
      → All (λ op. domains_conflict spec.domain op.domain ≡ false) c.registry.active
      → P (grown now client method spec c)) where
  begin_new_rule :
      (now : ℕ) (client method : String) (spec : OperationSpec)
      → P (begin_new now client method spec c).1
  unfolding begin_new
  begin_new_rule now client method spec =
      elim (Option-cases (find (λ op. domains_conflict spec.domain op.domain) c.registry.active)) [
        | inr (active, e) ↦ rw (e, begin_new) same
        | inl e ↦ rw (e, begin_new) (grow now client method spec (All-of_find-none _ _ e))
      ]

  begin_control_rule :
      (now : ℕ) (client method : String) (spec : OperationSpec) (control : ControlSpec)
      → P (begin_control now client method spec control c).1
  unfolding begin_control
  begin_control_rule now client method spec control =
      elim (Option-cases (find (is_target spec control) c.registry.active)) [
        | inr (target, e) ↦
            rw (e, begin_control) (change (is_target spec control) (controlled now control) keeps)
        | inl e ↦
            rw (e, begin_control)
              (if-both {A = Begun} (λ b. P b.1) control.requires_target _ _ same
                (begin_new_rule now client method spec))
      ]
    where
      keeps : Keeps (controlled now control)
      keeps = record {
        same_id = λ op. refl;
        same_domain = λ op. refl;
        same_state = λ op. refl;
        same_kind = λ op. refl;
        same_client = λ op. refl;
        same_end = λ op. refl;
      }

  begin_rule : (now : ℕ) (client method : String) → P (begin now client method c).1
  unfolding begin
  begin_rule now client method = elim (Option-cases (operation_spec method)) [
    | inl e ↦ rw (e, begin) same
    | inr (spec, e) ↦ rw (e, begin) (tracked spec)
  ]
    where
      tracked : (spec : OperationSpec) → P (begin_tracked now client method spec c).1
      tracked spec = elim (Option-cases spec.control) [
        | inr (control, e) ↦
            rw (e, begin_tracked) (begin_control_rule now client method spec control)
        | inl e ↦ rw (e, begin_tracked) (begin_new_rule now client method spec)
      ]

  finish_control_rule :
      (now : ℕ) (lease : OperationLease) (failure : Option BackendError)
      → P (finish_control now lease failure c)
  unfolding finish_control
  finish_control_rule now lease none = same
  finish_control_rule now lease (some e) =
      elim (Option-cases (find (has_id lease.id) c.registry.active)) [
        | inl missing ↦ rw (missing, finish_control) same
        | inr (op, found) ↦
            rw (found, finish_control)
              (change (has_id lease.id) (control_failed now lease e) (record {
                same_id = λ op. refl;
                same_domain = λ op. refl;
                same_state = λ op. refl;
                same_kind = λ op. refl;
                same_client = λ op. refl;
                same_end = λ op. refl;
              }))
      ]

  restage_rule :
      (test : OperationRecord → Bool) (now : ℕ) (stage : String) (cancelable : Option Bool)
      → P (restage test now stage cancelable c)
  unfolding restage
  restage_rule test now stage cancelable = elim (Option-cases (find test c.registry.active)) [
    | inl missing ↦ rw (missing, restage) same
    | inr (op, found) ↦
        rw (found, restage)
          (change test (restaged now stage cancelable) (record {
            same_id = λ op. refl;
            same_domain = λ op. refl;
            same_state = λ op. refl;
            same_kind = λ op. refl;
            same_client = λ op. refl;
            same_end = λ op. refl;
          }))
  ]

  pub unfiled_rule : (call : Call) → files call ≡ false → P (step c call)
  unfolding step update_stage update_domain_stage finish
  unfiled_rule (begins now client method) e = begin_rule now client method
  unfiled_rule (finishes now none failure) e = same
  unfiled_rule (finishes now (some lease) failure) e = rw e (finish_control_rule now lease failure)
  unfiled_rule (stages now method stage cancelable) e =
      if-both P _ _ _ same (restage_rule _ now stage cancelable)
  unfiled_rule (domain_stages now domain stage cancelable) e =
      if-both P _ _ _ same (restage_rule _ now stage cancelable)

  module _
      (shrink : (now : ℕ) (failure : Option BackendError) (test : OperationRecord → Bool)
          (op : OperationRecord)
        → find test c.registry.active ≡ some op
        → P (shrunk test (concluded now failure op) c)) where
    finish_owned_rule :
        (now : ℕ) (lease : OperationLease) (failure : Option BackendError)
        → P (finish_owned now lease failure c)
    unfolding finish_owned
    finish_owned_rule now lease failure =
        elim (Option-cases (find (has_id lease.id) c.registry.active)) [
          | inl missing ↦ rw (missing, finish_owned) same
          | inr (op, found) ↦
              rw (found, finish_owned) (shrink now failure (has_id lease.id) op found)
        ]

    pub step_rule : (call : Call) → P (step c call)
    unfolding step finish
    step_rule call = elim (Bool-cases (files call)) [
      | inr unfiled ↦ unfiled_rule call unfiled
      | inl filed ↦ of_filed call filed
    ]
      where
        of_filed : (call : Call) → files call ≡ true → P (step c call)
        of_filed (begins now client method) e = absurd (let no : ⊥ = cc in no)
        of_filed (finishes now none failure) e = absurd (let no : ⊥ = cc in no)
        of_filed (finishes now (some lease) failure) e = rw e (finish_owned_rule now lease failure)
        of_filed (stages now method stage cancelable) e = absurd (let no : ⊥ = cc in no)
        of_filed (domain_stages now domain stage cancelable) e = absurd (let no : ⊥ = cc in no)
