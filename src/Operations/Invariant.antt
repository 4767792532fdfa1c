-- ===== src/Operations/Invariant.antt =====
-- agent/src/operations.rs: what every call of the coordinator preserves.
use proton_vpn_omarchy_core.Base.{
  ◌∙◌, ℕ, ◌||◌, All-map, ◌≤◌, Bool, false, String, List, [], ◌∷◌, ◌++◌, map, Option, none, some,
  ◌≡◌, refl, ◌⊎◌, inl, inr, length, All, Pairwise, All-append, All-take, length-take-le,
  Pairwise-snoc, All-remove_first, All-update_first, map-update_first, Pairwise-map-remove_first,
  if-both,
}
use mathlib.Core.List.{map-append}
use proton_vpn_omarchy_core.Backend.{BackendError}
use proton_vpn_omarchy_core.Protocol.Operation.{
  OperationDomain, OperationRecord, running, succeeded, failed, cancelled,
}
use proton_vpn_omarchy_core.Protocol.Snapshot.{StateSnapshot}
use proton_vpn_omarchy_core.Operations.Spec.{
  OperationSpec, domains_conflict, domains_conflict_sym, is_cancelled_error,
}
use proton_vpn_omarchy_core.Operations.Registry.{
  OperationRegistry, Coordinator, publish, recent_operation_limit,
}
use proton_vpn_omarchy_core.Operations.Calls.{Call, Keeps, changed, grown, shrunk, step, step_rule}
use proton_vpn_omarchy_core.Operations.Finish.{concluded, cancellation_requested}

abbrev pub Compatible : OperationDomain → OperationDomain → Type 0
Compatible a b = domains_conflict a b ≡ false

-- An operation in progress has no end, and one that was closed has its end and its outcome.
abbrev pub IsOpen : OperationRecord → Type 0
IsOpen op = (op.state ≡ running) × (op.finished_at_unix_ms ≡ none)

abbrev pub IsClosed : OperationRecord → Type 0
IsClosed op =
    ((op.state ≡ succeeded) ⊎ (op.state ≡ failed) ⊎ (op.state ≡ cancelled))
    × (op.finished_at_unix_ms ≡ some op.updated_at_unix_ms)
    × (op.cancelable ≡ false)

abbrev pub domains : List OperationRecord → List OperationDomain
domains = map (λ op. op.domain)

pub record IsSoundRegistry (r : OperationRegistry) : Type 0 where
  pub exclusive : Pairwise Compatible (domains r.active)
  pub open_ops : All IsOpen r.active
  pub closed_ops : All IsClosed r.recent
  pub bounded : length r.recent ≤ recent_operation_limit

-- The snapshot shows what the registry holds.
abbrev pub IsPublished : Coordinator → Type 0
IsPublished c =
    (c.state.operations.active ≡ c.registry.active)
    × (c.state.operations.recent ≡ c.registry.recent)

abbrev pub IsSound : Coordinator → Type 0
IsSound c = IsSoundRegistry c.registry × IsPublished c

publish-IsSound :
    (r : OperationRegistry) (s : StateSnapshot) → IsSoundRegistry r → IsSound (publish r s)
unfolding publish
publish-IsSound r s h = (h, (refl, refl))

domains-snoc :
    (ops : List OperationRecord) (op : OperationRecord)
    → domains (ops ++ op ∷ []) ≡ domains ops ++ op.domain ∷ []
domains-snoc ops op = map-append _ ops (op ∷ [])

concluded-IsClosed :
    (now : ℕ) (failure : Option BackendError) (op : OperationRecord)
    → IsClosed (concluded now failure op)
unfolding concluded
concluded-IsClosed now none op =
    if-both IsClosed (cancellation_requested op) _ _ (inr (inr refl), refl, refl)
      (inl refl, refl, refl)
concluded-IsClosed now (some e) op =
    if-both IsClosed (cancellation_requested op || is_cancelled_error e.code) _ _
      (inr (inr refl), refl, refl) (inr (inl refl), refl, refl)

changed-IsSound :
    (test : OperationRecord → Bool) (u : OperationRecord → OperationRecord) (c : Coordinator)
    → Keeps u
    → IsSound c
    → IsSound (changed test u c)
changed-IsSound test u c keeps h = publish-IsSound _ c.state (record {
  exclusive =
      rw (map-update_first (λ o. o.domain) test u c.registry.active keeps.same_domain)
        h.0.exclusive;
  open_ops =
      All-update_first IsOpen test u c.registry.active
        (λ op o. (keeps.same_state op ∙ o.0, keeps.same_end op ∙ o.1)) h.0.open_ops;
  closed_ops = h.0.closed_ops;
  bounded = h.0.bounded;
})

grown-IsSound :
    (now : ℕ) (client method : String) (spec : OperationSpec) (c : Coordinator)
    → IsSound c
    → All (λ o. domains_conflict spec.domain o.domain ≡ false) c.registry.active
    → IsSound (grown now client method spec c)
grown-IsSound now client method spec c h free = publish-IsSound _ c.state (record {
  exclusive = rw (domains-snoc c.registry.active _) (
      Pairwise-snoc Compatible (domains c.registry.active) spec.domain domains_conflict_sym
        h.0.exclusive (All-map (λ o. o.domain) (Compatible spec.domain) _ free));
  open_ops = All-append IsOpen c.registry.active _ h.0.open_ops ((refl, refl), tt);
  closed_ops = h.0.closed_ops;
  bounded = h.0.bounded;
})

shrunk-IsSound :
    (test : OperationRecord → Bool) (closed : OperationRecord) (c : Coordinator)
    → IsSound c
    → IsClosed closed
    → IsSound (shrunk test closed c)
shrunk-IsSound test closed c h done = publish-IsSound _ c.state (record {
  exclusive =
      Pairwise-map-remove_first (λ o. o.domain) Compatible test c.registry.active h.0.exclusive;
  open_ops = All-remove_first IsOpen test c.registry.active h.0.open_ops;
  closed_ops =
      All-take IsClosed recent_operation_limit (closed ∷ c.registry.recent) (done, h.0.closed_ops);
  bounded = length-take-le recent_operation_limit (closed ∷ c.registry.recent);
})

pub step-IsSound : (c : Coordinator) (call : Call) → IsSound c → IsSound (step c call)
step-IsSound c call h =
    step_rule IsSound c h (λ test u keeps. changed-IsSound test u c keeps h)
      (λ now client method spec free. grown-IsSound now client method spec c h free)
      (λ now failure test op found.
        shrunk-IsSound test (concluded now failure op) c h (concluded-IsClosed now failure op))
      call
