-- ===== src/Splitd/Outcome/SetPolicy.antt =====
-- splitd/src/engine.rs: what `set_destination_policy` comes to.
use proton_vpn_omarchy_core.Base.{
  ℕ, not, String, List, refl, ap, Map, SameMap, lookup, insert, remove, restore, restore-insert,
  restore-remove, if◌then◌else◌, if-both,
}
use proton_vpn_omarchy_core.Io.{
  Act, ◌>>=◌, ◌>>◌, done, change, attempt, After, Triple, bind-Keeps, or_undo-Triple,
}
use proton_vpn_omarchy_core.Splitd.Engine.{Host, Inner, reconcile, has_ranges}
use proton_vpn_omarchy_core.Splitd.Requests.{
  set_policies, reconcile_and_save, has_room, set_destination_policy,
}
use proton_vpn_omarchy_core.Splitd.Bypass.{Stands, Stands-IsAbove}
use proton_vpn_omarchy_core.Splitd.Outcome.{
  Unchanged, Stands-Unchanged, reconcile_and_save-Keeps, attempt-reconcile-Keeps, Keeps-Unchanged,
}

abbrev pub set_ranges : ℕ → List String → Map (List String) → Map (List String)
set_ranges uid ranges = if has_ranges ranges then insert uid ranges else remove uid

module _ (host : Host) (uid : ℕ) (ranges : List String) (s : Inner host) where
  abbrev undo_policy : Act (Inner host) (Unit {0})
  undo_policy = do
    change (set_policies host (restore uid (lookup uid s.destination_policies)))
    _ ← attempt (reconcile host)
    done tt

  restore-set_ranges :
      SameMap
        (restore uid
          (lookup uid s.destination_policies)
          (set_ranges uid ranges s.destination_policies))
        s.destination_policies
  restore-set_ranges =
      if-both {A = Map (List String) → Map (List String)}
        (λ f.
          SameMap (restore uid (lookup uid s.destination_policies) (f s.destination_policies))
            s.destination_policies)
        (has_ranges ranges) (insert uid ranges) (remove uid)
        (restore-insert uid ranges s.destination_policies)
        (restore-remove uid s.destination_policies)

  undo_policy-Unchanged :
      Triple
        (Stands host s.configs (set_ranges uid ranges s.destination_policies) s.kill_switch_bypass)
        undo_policy
        (λ _. Unchanged host s)
        (Unchanged host s)
  undo_policy-Unchanged t h =
      let c = s.configs in
      let p =
        restore uid (lookup uid s.destination_policies)
          (set_ranges uid ranges s.destination_policies) in
      let b = s.kill_switch_bypass in
      Keeps-Unchanged host s c p (λ k. refl) restore-set_ranges
        (do _ ← attempt (reconcile host); done tt)
        (bind-Keeps (Stands host c p b) (attempt (reconcile host)) (λ _. done tt)
          (attempt-reconcile-Keeps host (Stands host c p b) (Stands-IsAbove host c p b))
          (λ _ t k. k))
        (set_policies host (restore uid (lookup uid s.destination_policies)) t)
        (h.0, ap (restore uid (lookup uid s.destination_policies)) h.1, h.2)

  -- A user's ranges outside the tunnel are set: either they stand, an empty list as none, and no other
  -- rule has changed, or the request fails and every rule is as it was; in neither case has a user a
  -- bypass who had none.
  pub set_destination_policy-Stands :
      After
        (λ _.
          Stands host s.configs (set_ranges uid ranges s.destination_policies) s.kill_switch_bypass)
        (Unchanged host s)
        (set_destination_policy host uid ranges s)
  unfolding set_destination_policy
  set_destination_policy-Stands =
      let P =
        Stands host s.configs (set_ranges uid ranges s.destination_policies) s.kill_switch_bypass in
      if-both {A = Act (Inner host) (Unit {0})} (λ a. After (λ _. P) (Unchanged host s) (a s))
        (not (has_room host uid s)) _ _ (Stands-Unchanged host s s (refl, refl, λ u e. e))
        (or_undo-Triple P (reconcile_and_save host) undo_policy (λ _. P) P (Unchanged host s)
          (reconcile_and_save-Keeps host P (
            Stands-IsAbove host s.configs (set_ranges uid ranges s.destination_policies)
              s.kill_switch_bypass))
          undo_policy-Unchanged (set_policies host (set_ranges uid ranges) s)
          (refl, refl, λ u e. e))
