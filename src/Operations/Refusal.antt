-- ===== src/Operations/Refusal.antt =====
-- agent/src/operations.rs: when `begin` refuses, and what a refusal leaves behind.
use proton_vpn_omarchy_core.Base.{
  ℕ, Bool, true, false, String, List, [], ◌∷◌, none, some, ◌≡◌, ◌≢◌, refl, ◌⊎◌, ◌↔◌, inl, inr, find,
  All, All-of_find-none, Option-cases,
}
use proton_vpn_omarchy_core.Backend.{BackendError, ok, err}
use proton_vpn_omarchy_core.Protocol.Operation.{OperationRecord}
use proton_vpn_omarchy_core.Operations.Ids.{format_id}
use proton_vpn_omarchy_core.Operations.Spec.{OperationSpec, operation_spec, domains_conflict}
use proton_vpn_omarchy_core.Operations.Registry.{OperationLease, Coordinator}
use proton_vpn_omarchy_core.Operations.Begin.{Begun, begin, begin_tracked, begin_new, owning_lease}

-- A conflict can be retried, and there is an active operation behind it. A control request with
-- nothing to control cannot.
abbrev pub Explained : Coordinator → BackendError → Type 0
Explained c e =
    ((e.code ≡ "operation_conflict") × (e.retryable ≡ true) × (c.registry.active ≢ []))
    ⊎ ((e.code ≡ "operation_not_active") × (e.retryable ≡ false))

abbrev Refused : Coordinator → Begun → Type 0
Refused c b = (e : BackendError) → b.0 ≡ err e → (b.1 ≡ c) × Explained c e

find-none {ℓ} :
    {A : Type ℓ} (p : A → Bool) (xs : List A) → All (λ x. p x ≡ false) xs → find p xs ≡ none
unfolding find
find-none p [] h = refl
find-none p (x ∷ xs) h = rw h.0 (find-none p xs h.1)

-- A tracked request that controls nothing is admitted exactly when its domain conflicts with that
-- of no active operation.
pub begin-admits :
    (now : ℕ) (client method : String) (spec : OperationSpec) (c : Coordinator)
    → operation_spec method ≡ some spec
    → spec.control ≡ none
    → ((lease : OperationLease) × ((begin now client method c).0 ≡ ok (some lease)))
      ↔ All (λ op. domains_conflict spec.domain op.domain ≡ false) c.registry.active
unfolding begin
begin-admits now client method spec c tracked plain = (admitted, admits)
  where
    test : OperationRecord → Bool
    test op = domains_conflict spec.domain op.domain

    reduced : begin now client method c ≡ begin_new now client method spec c
    reduced = rw (tracked, begin) (rw (plain, begin_tracked))

    admitted :
        ((lease : OperationLease) × ((begin now client method c).0 ≡ ok (some lease)))
        → All (λ op. domains_conflict spec.domain op.domain ≡ false) c.registry.active
    admitted (lease, is) = elim (Option-cases (find test c.registry.active)) [
      | inl free ↦ All-of_find-none test c.registry.active free
      | inr (active, found) ↦
          let e' = rw (found, begin_new) at (rw reduced at is) in absurd (let no : ⊥ = cc in no)
    ]

    admits :
        All (λ op. domains_conflict spec.domain op.domain ≡ false) c.registry.active
        → (lease : OperationLease) × ((begin now client method c).0 ≡ ok (some lease))
    admits free = (
      owning_lease (format_id c.registry.next_id),
      rw reduced (rw (find-none test c.registry.active free, begin_new)),
    )
