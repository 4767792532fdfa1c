-- ===== src/Operations/Identity.antt =====
-- agent/src/operations.rs: the identifiers of the active operations are the coordinator's own and
-- differ from one another, so that a lease finds its operation.
use mathlib.Core.List.{map-append}
use proton_vpn_omarchy_core.Base.{
  ℕ, ◌+◌, ◌≤◌, ◌<◌, Bool, String, List, map, ◌≡◌, ◌≢◌, refl, sym, ◌∙◌, arith, All, All-append,
  All-mono, All-map-remove_first, Pairwise, Pairwise-snoc, Pairwise-map-remove_first,
  map-update_first,
}
use proton_vpn_omarchy_core.Protocol.Operation.{OperationRecord}
use proton_vpn_omarchy_core.Operations.Ids.{format_id, format_id-injective, u64_mod}
use proton_vpn_omarchy_core.Operations.Spec.{OperationSpec}
use proton_vpn_omarchy_core.Operations.Registry.{OperationRegistry, Coordinator, publish}
use proton_vpn_omarchy_core.Operations.Calls.{Call, Keeps, changed, grown, shrunk, step, step_rule}

abbrev pub ids : List OperationRecord → List String
ids = map (λ op. op.id)

-- The coordinator made the identifier, from a number below `n`.
abbrev pub IsIssued : ℕ → String → Type 0
IsIssued n id = (k : ℕ) × (id ≡ format_id k) × (k < n)

pub record HasOwnIds (r : OperationRegistry) : Type 0 where
  pub issued : All (IsIssued r.next_id) (ids r.active)
  pub distinct : Pairwise ◌≢◌ (ids r.active)

IsIssued-mono : {m n : ℕ} → m ≤ n → (id : String) → IsIssued m id → IsIssued n id
IsIssued-mono h id (k, e, lt) = (k, e, omega arith)

-- The next identifier differs from all that were issued, while the counter has not wrapped.
pub next-ne :
    (n : ℕ) (xs : List String) → n < u64_mod → All (IsIssued n) xs → All (λ x. format_id n ≢ x) xs
next-ne n xs h = All-mono xs (λ x (k, e, lt).
    λ same. absurd (let eq = format_id-injective n k h (omega arith) (same ∙ e) in omega arith))

grown-HasOwnIds :
    (now : ℕ) (client method : String) (spec : OperationSpec) (c : Coordinator)
    → c.registry.next_id + 1 < u64_mod
    → HasOwnIds c.registry
    → HasOwnIds (grown now client method spec c).registry
unfolding publish
grown-HasOwnIds now client method spec c room h = record {
  issued = rw (map-append (λ o. o.id) c.registry.active _) (
      All-append _ (ids c.registry.active) _ (All-mono _ (IsIssued-mono (omega arith)) h.issued)
        ((c.registry.next_id, refl, omega arith), tt));
  distinct = rw (map-append (λ o. o.id) c.registry.active _) (
      Pairwise-snoc ◌≢◌ (ids c.registry.active) _ (λ a b ne e. ne (sym e)) h.distinct
        (next-ne c.registry.next_id _ (omega arith) h.issued));
}

changed-HasOwnIds :
    (test : OperationRecord → Bool) (u : OperationRecord → OperationRecord) (c : Coordinator)
    → Keeps u
    → HasOwnIds c.registry
    → HasOwnIds (changed test u c).registry
unfolding publish
changed-HasOwnIds test u c keeps h =
    let same = map-update_first (λ o. o.id) test u c.registry.active keeps.same_id in
    record { issued = rw same h.issued; distinct = rw same h.distinct }

shrunk-HasOwnIds :
    (test : OperationRecord → Bool) (closed : OperationRecord) (c : Coordinator)
    → HasOwnIds c.registry
    → HasOwnIds (shrunk test closed c).registry
unfolding publish
shrunk-HasOwnIds test closed c h = record {
  issued = All-map-remove_first (λ o. o.id) _ test c.registry.active h.issued;
  distinct = Pairwise-map-remove_first (λ o. o.id) ◌≢◌ test c.registry.active h.distinct;
}

-- One call uses up one identifier at most.
pub record Advances (n : ℕ) (r : OperationRegistry) : Type 0 where
  pub own_ids : HasOwnIds r
  pub used : r.next_id ≤ n + 1

pub step-Advances :
    (c : Coordinator) (call : Call)
    → c.registry.next_id + 1 < u64_mod
    → HasOwnIds c.registry
    → Advances c.registry.next_id (step c call).registry
unfolding publish
step-Advances c call room h =
    step_rule (λ d. Advances c.registry.next_id d.registry) c
      (record { own_ids = h; used = omega arith })
      (λ test u keeps. record { own_ids = changed-HasOwnIds test u c keeps h; used = omega arith })
      (λ now client method spec free. record {
        own_ids = grown-HasOwnIds now client method spec c room h;
        used = omega arith;
      })
      (λ now failure test op found. record {
        own_ids = shrunk-HasOwnIds test _ c h;
        used = omega arith;
      })
      call
