-- ===== src/Operations/Listed.antt =====
-- agent/src/operations.rs: how long an operation stays listed, in progress or among the recent ones.
use proton_vpn_omarchy_core.Base.{
  ℕ, suc, ◌+◌, ◌≤◌, ◌<◌, Bool, true, false, ◌&&◌, String, List, [], ◌∷◌, Option, none, some, ◌≡◌,
  sym, subst, ◌∙◌, ◌⊎◌, inl, inr, arith, any, find, find-holds, or_left, or_right, any-snoc,
  any-update_first, any-remove_first, any-take, any-take-suc, any-take-take, take, Bool-cases,
  Option-cases, str_eq, str_eq_iff, if◌then◌else◌,
}
use proton_vpn_omarchy_core.Backend.{BackendError}
use proton_vpn_omarchy_core.Protocol.Operation.{OperationRecord}
use proton_vpn_omarchy_core.Operations.Registry.{
  OperationLease, Coordinator, publish, recent_operation_limit,
}
use proton_vpn_omarchy_core.Operations.Finish.{finish, finish_owned, concluded, has_id}
use proton_vpn_omarchy_core.Operations.Calls.{
  Call, begins, finishes, stages, domain_stages, Keeps, step, run, shrunk, files, unfiled_rule,
}
use proton_vpn_omarchy_core.Operations.Leases.{finish-found}

-- The owner of the operation with this identifier finishes it.
abbrev pub closes : String → Call → Bool
closes id (begins now client method) = false
closes id (finishes now none failure) = false
closes id (finishes now (some lease) failure) = lease.owns_completion && str_eq lease.id id
closes id (stages now method stage cancelable) = false
closes id (domain_stages now domain stage cancelable) = false

-- How many operations the calls file, all of them, and from the one on that finishes the operation.
unfoldable pub filed_count : List Call → ℕ
filed_count [] = 0
filed_count (call ∷ calls) = let rest = filed_count calls in if files call then suc rest else rest

unfoldable pub filed_since : String → List Call → ℕ
unfolding filed_count
filed_since id [] = 0
filed_since id (call ∷ calls) =
    let rest = filed_since id calls in if closes id call then suc (filed_count calls) else rest

-- What calls of the coordinator do not change of an operation.
abbrev pub Same : OperationRecord → OperationRecord → Type 0
Same op r =
    (r.id ≡ op.id)
    × (r.initiator_client_instance_id ≡ op.initiator_client_instance_id)
    × (r.kind ≡ op.kind)

-- A test of the operations of one identifier, by what does not change of them.
module _ (id : String) (p : OperationRecord → Bool)
    (named : (op : OperationRecord) → p op ≡ true → op.id ≡ id)
    (stable : (op r : OperationRecord) → Same op r → p r ≡ p op)
    (ended : (now : ℕ) (failure : Option BackendError) (op : OperationRecord)
      → Same op (concluded now failure op)) where
  abbrev pub InProgress : Coordinator → Type 0
  InProgress c = any p c.registry.active ≡ true

  -- In progress, or one of the last `k` that were filed.
  abbrev pub IsListed : ℕ → Coordinator → Type 0
  IsListed k c = InProgress c ⊎ (any p (take k c.registry.recent) ≡ true)

  kept_by :
      (u : OperationRecord → OperationRecord) → Keeps u → (op : OperationRecord) → p (u op) ≡ p op
  kept_by u keeps op = stable op (u op) (keeps.same_id op, keeps.same_client op, keeps.same_kind op)

  unfiled-InProgress :
      (c : Coordinator) (call : Call) → files call ≡ false → InProgress c → InProgress (step c call)
  unfolding publish
  unfiled-InProgress c call unfiled h =
      unfiled_rule InProgress c h
        (λ test u keeps. any-update_first p test u c.registry.active (kept_by u keeps) ∙ h)
        (λ now client method spec free. any-snoc p c.registry.active _ h) call unfiled

  unfiled-IsListed :
      (k : ℕ) (c : Coordinator) (call : Call)
      → files call ≡ false
      → IsListed k c
      → IsListed k (step c call)
  unfolding publish
  unfiled-IsListed k c call unfiled (inl h) = inl (unfiled-InProgress c call unfiled h)
  unfiled-IsListed k c call unfiled (inr h) =
      unfiled_rule (IsListed k) c (inr h) (λ test u keeps. inr h)
        (λ now client method spec free. inr h) call unfiled

  shrunk-IsListed :
      (k now : ℕ) (failure : Option BackendError) (test : OperationRecord → Bool)
      (op : OperationRecord) (c : Coordinator)
      → k < recent_operation_limit
      → find test c.registry.active ≡ some op
      → IsListed k c
      → IsListed (suc k) (shrunk test (concluded now failure op) c)
  unfolding publish any
  shrunk-IsListed k now failure test op c room found (inr h) = inr (
      or_right (p (concluded now failure op)) _
        (any-take-take p k 15 c.registry.recent (omega arith) h))
  shrunk-IsListed k now failure test op c room found (inl h) = elim (Bool-cases (p op)) [
    | inl mine ↦ inr (or_left _ _ (stable op _ (ended now failure op) ∙ mine))
    | inr other ↦ inl (any-remove_first p test c.registry.active op found h other)
  ]

  longer : (k : ℕ) (c : Coordinator) → IsListed k c → IsListed (suc k) c
  longer k c (inl h) = inl h
  longer k c (inr h) = inr (any-take-suc p k c.registry.recent h)

  finishes-IsListed :
      (k now : ℕ) (lease : OperationLease) (failure : Option BackendError) (c : Coordinator)
      → k < recent_operation_limit
      → lease.owns_completion ≡ true
      → IsListed k c
      → IsListed (suc k) (finish now (some lease) failure c)
  unfolding finish
  finishes-IsListed k now lease failure c room owns h =
      elim (Option-cases (find (has_id lease.id) c.registry.active)) [
        | inr (op, found) ↦
            subst (IsListed (suc k)) (sym (finish-found now lease failure c op owns found))
              (shrunk-IsListed k now failure (has_id lease.id) op c room found h)
        | inl missing ↦ rw owns (rw (missing, finish_owned) (longer k c h))
      ]

  -- Another operation than this one is finished.
  finishes-InProgress :
      (now : ℕ) (lease : OperationLease) (failure : Option BackendError) (c : Coordinator)
      → lease.owns_completion ≡ true
      → str_eq lease.id id ≡ false
      → InProgress c
      → InProgress (finish now (some lease) failure c)
  unfolding finish publish
  finishes-InProgress now lease failure c owns other h =
      elim (Option-cases (find (has_id lease.id) c.registry.active)) [
        | inl missing ↦ rw owns (rw (missing, finish_owned) h)
        | inr (op, found) ↦
            let theirs =
              (str_eq_iff op.id lease.id).0
                (find-holds (has_id lease.id) c.registry.active op found) in
            subst InProgress (sym (finish-found now lease failure c op owns found)) (
              any-remove_first p (has_id lease.id) c.registry.active op found h
                (not_mine op lease.id theirs other))
      ]
    where
      not_mine :
          (op : OperationRecord) (other_id : String)
          → op.id ≡ other_id
          → str_eq other_id id ≡ false
          → p op ≡ false
      not_mine op other_id e other = elim (Bool-cases (p op)) [
        | inr missed ↦ missed
        | inl hit ↦
            absurd (
              let same = (str_eq_iff other_id id).1 (sym e ∙ named op hit) in let no : ⊥ = cc in no)
      ]

  step-InProgress :
      (c : Coordinator) (call : Call)
      → closes id call ≡ false
      → InProgress c
      → InProgress (step c call)
  unfolding step
  step-InProgress c call open_ h = elim (Bool-cases (files call)) [
    | inr unfiled ↦ unfiled-InProgress c call unfiled h
    | inl filed ↦ of_filed call filed open_
  ]
    where
      of_filed :
          (call : Call) → files call ≡ true → closes id call ≡ false → InProgress (step c call)
      of_filed (begins now client method) e o = absurd (let no : ⊥ = cc in no)
      of_filed (finishes now none failure) e o = absurd (let no : ⊥ = cc in no)
      of_filed (finishes now (some lease) failure) e o =
          finishes-InProgress now lease failure c e (second lease.owns_completion _ e o) h
        where
          second : (a b : Bool) → a ≡ true → (a && b) ≡ false → b ≡ false
          second a b h k = ground arith
      of_filed (stages now method stage cancelable) e o = absurd (let no : ⊥ = cc in no)
      of_filed (domain_stages now domain stage cancelable) e o = absurd (let no : ⊥ = cc in no)

  step-IsListed :
      (k : ℕ) (c : Coordinator) (call : Call)
      → k < recent_operation_limit
      → files call ≡ true
      → IsListed k c
      → IsListed (suc k) (step c call)
  unfolding step
  step-IsListed k c (begins now client method) room e h = absurd (let no : ⊥ = cc in no)
  step-IsListed k c (finishes now none failure) room e h = absurd (let no : ⊥ = cc in no)
  step-IsListed k c (finishes now (some lease) failure) room e h =
      finishes-IsListed k now lease failure c room e h
  step-IsListed k c (stages now method stage cancelable) room e h = absurd (let no : ⊥ = cc in no)
  step-IsListed k c (domain_stages now domain stage cancelable) room e h =
      absurd (let no : ⊥ = cc in no)

  -- Shown in one of the two lists.
  abbrev pub IsShown : Coordinator → Type 0
  IsShown c = InProgress c ⊎ (any p c.registry.recent ≡ true)

  run-IsListed :
      (calls : List Call) (k : ℕ) (c : Coordinator)
      → k + filed_count calls ≤ recent_operation_limit
      → IsListed k c
      → IsShown (run c calls)
  unfolding run filed_count
  run-IsListed [] k c few (inl h) = inl h
  run-IsListed [] k c few (inr h) = inr (any-take p k c.registry.recent h)
  run-IsListed (call ∷ calls) k c few h = elim (Bool-cases (files call)) [
    | inr unfiled ↦
        run-IsListed calls k (step c call) (rw unfiled at few) (unfiled-IsListed k c call unfiled h)
    | inl filed ↦
        let few' = rw filed at few in
        run-IsListed calls (suc k) (step c call) (omega arith)
          (step-IsListed k c call (omega arith) filed h)
  ]

  -- An operation in progress stays listed until sixteen others have been filed after it.
  pub run-IsShown :
      (calls : List Call) (c : Coordinator)
      → filed_since id calls ≤ recent_operation_limit
      → InProgress c
      → IsShown (run c calls)
  unfolding run filed_since
  run-IsShown [] c few h = inl h
  run-IsShown (call ∷ calls) c few h = elim (Bool-cases (closes id call)) [
    | inr open_ ↦ run-IsShown calls (step c call) (rw open_ at few) (step-InProgress c call open_ h)
    | inl closed ↦
        let few' = rw closed at few in
        run-IsListed calls 1 (step c call) (omega arith)
          (step-IsListed 0 c call (omega arith) (closing call closed) (inl h))
  ]
    where
      closing : (call : Call) → closes id call ≡ true → files call ≡ true
      closing (begins now client method) e = absurd (let no : ⊥ = cc in no)
      closing (finishes now none failure) e = absurd (let no : ⊥ = cc in no)
      closing (finishes now (some lease) failure) e = first lease.owns_completion _ e
        where
          first : (a b : Bool) → (a && b) ≡ true → a ≡ true
          first a b h = ground arith
      closing (stages now method stage cancelable) e = absurd (let no : ⊥ = cc in no)
      closing (domain_stages now domain stage cancelable) e = absurd (let no : ⊥ = cc in no)
