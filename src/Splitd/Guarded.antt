-- ===== src/Splitd/Guarded.antt =====
-- splitd/src/engine.rs: a kill-switch bypass is open only for users who have rules.
use proton_vpn_omarchy_core.Base.{
  ℕ, ◌==◌, ==_iff, Bool, true, false, String, List, [], ◌∷◌, Option, none, some, Bool-cases, inl,
  inr, ◌≡◌, refl, sym, ap, subst, ◌∙◌, Map, lookup, has_key, lookup-insert, lookup-remove,
}
use proton_vpn_omarchy_core.Splitd.Config.{SplitConfig, has_rules}
use proton_vpn_omarchy_core.Io.{IoResult, After}
use proton_vpn_omarchy_core.Splitd.Engine.{Host, Inner, reconcile}
use proton_vpn_omarchy_core.Splitd.Requests.{
  set_config, clear_config, set_destination_policy, set_kill_switch_bypass, has_own_rules,
}
use proton_vpn_omarchy_core.Splitd.Keeps.{IsAbove, reconcile-Keeps}
use proton_vpn_omarchy_core.Splitd.Bypass.{Within, Stands}
use proton_vpn_omarchy_core.Splitd.Outcome.{Unchanged, IsRouted}
use proton_vpn_omarchy_core.Splitd.Events.{
  handle_event, with_store, loaded, Command, configure, clear, choose_ranges, switch_bypass, notice,
  refresh, perform, perform_all,
}
use proton_vpn_omarchy_core.Io.{After-state}
use proton_vpn_omarchy_core.Splitd.Outcome.SetConfig.{set_config-ConfigSet, ConfigSet}
use proton_vpn_omarchy_core.Splitd.Outcome.ClearConfig.{clear_config-Cleared, Cleared}
use proton_vpn_omarchy_core.Splitd.Outcome.SetPolicy.{set_ranges, set_destination_policy-Stands}
use proton_vpn_omarchy_core.Splitd.Outcome.SetBypass.{set_kill_switch_bypass-BypassSet, BypassSet}
use proton_vpn_omarchy_core.Splitd.Outcome.{Unchanged, IsRouted}
use proton_vpn_omarchy_core.Splitd.Quiet.{handle_event-Keeps, with_store-Keeps}

contrary : {b : Bool} → b ≡ true → b ≡ false → ⊥
contrary e f = let no : ⊥ = cc in no

module _ (host : Host) (routing : Bool) where
  -- Only users who have rules have a bypass, and none has one if the engine does not route.
  pub record IsGuarded (s : Inner host) : Type 0 where
    pub ruled : (u : ℕ) → has_key u s.kill_switch_bypass ≡ true → has_own_rules host u s ≡ true
    pub routed : IsRouted host routing s

  has_own_rules-same :
      (u : ℕ) (s t : Inner host)
      → lookup u t.configs ≡ lookup u s.configs
      → has_own_rules host u s ≡ true
      → has_own_rules host u t ≡ true
  unfolding has_own_rules
  has_own_rules-same u s t e h = ap ruled_by e ∙ h
    where
      ruled_by : Option SplitConfig → Bool
      ruled_by o = elim o [ none ↦ false | some c ↦ has_rules c ]

  IsGuarded-IsAbove : IsAbove host IsGuarded
  unfolding has_own_rules
  IsGuarded-IsAbove s m t w h = record { ruled = h.ruled; routed = h.routed }

  -- The rules of every user who may have a bypass are as they were.
  IsGuarded-still :
      (s t : Inner host)
      → IsGuarded s
      → Within s.kill_switch_bypass t.kill_switch_bypass
      → ((u : ℕ) → has_key u t.kill_switch_bypass ≡ true → lookup u t.configs ≡ lookup u s.configs)
      → IsGuarded t
  IsGuarded-still s t h within same = record {
    ruled = λ u k. has_own_rules-same u s t (same u k) (h.ruled u (within u k));
    routed = λ off u k. h.routed off u (within u k);
  }

  IsGuarded-Unchanged : (s t : Inner host) → IsGuarded s → Unchanged host s t → IsGuarded t
  IsGuarded-Unchanged s t h u = IsGuarded-still s t h u.2 (λ v k. u.0 v)

  ConfigSet-IsGuarded :
      (uid : ℕ) (config : SplitConfig) (s t : Inner host)
      → IsGuarded s
      → ConfigSet host routing uid config s t
      → IsGuarded t
  unfolding has_own_rules
  ConfigSet-IsGuarded uid config s t h k = record {
    ruled = λ u there. elim (Bool-cases (uid == u)) [
      | inr e ↦
          has_own_rules-same u s t
            (ap (lookup u) k.0.0 ∙ lookup-insert uid u config s.configs ∙ rw e refl)
            (h.ruled u (k.0.2 u there))
      | inl e ↦
          let mine : lookup u t.configs ≡ some config =
            ap (lookup u) k.0.0 ∙ lookup-insert uid u config s.configs ∙ rw e refl in
          elim (Bool-cases (has_rules config)) [
            | inl r ↦ rw (mine, has_own_rules) r
            | inr r ↦ absurd (
                contrary there (
                  subst (λ v. has_key v t.kill_switch_bypass ≡ false) ((==_iff uid u).0 e) (k.1 r)))
          ]
    ];
    routed = λ off u there. h.routed off u (k.0.2 u there);
  }

  set_config-IsGuarded :
      (uid : ℕ) (config : SplitConfig) (s : Inner host)
      → IsGuarded s
      → IsGuarded (set_config host routing uid config s).0
  set_config-IsGuarded uid config s h =
      After-state (λ _. ConfigSet host routing uid config s) (Unchanged host s) IsGuarded
        (set_config host routing uid config s) (λ _ t. ConfigSet-IsGuarded uid config s t h)
        (λ t. IsGuarded-Unchanged s t h) (set_config-ConfigSet host routing uid config s h.routed)

  clear_config-IsGuarded :
      (uid : ℕ) (s : Inner host) → IsGuarded s → IsGuarded (clear_config host routing uid s).0
  clear_config-IsGuarded uid s h =
      After-state (λ _. Cleared host routing uid s) (Unchanged host s) IsGuarded
        (clear_config host routing uid s)
        (λ _ t k. IsGuarded-still s t h k.0.2 (λ u there. elim (Bool-cases (uid == u)) [
          | inl e ↦ absurd (
              contrary there
                (subst (λ v. has_key v t.kill_switch_bypass ≡ false) ((==_iff uid u).0 e) k.1))
          | inr e ↦ ap (lookup u) k.0.0 ∙ lookup-remove uid u s.configs ∙ rw e refl
        ]))
        (λ t. IsGuarded-Unchanged s t h) (clear_config-Cleared host routing uid s h.routed)

  set_destination_policy-IsGuarded :
      (uid : ℕ) (ranges : List String) (s : Inner host)
      → IsGuarded s
      → IsGuarded (set_destination_policy host uid ranges s).0
  set_destination_policy-IsGuarded uid ranges s h =
      After-state
        (λ _.
          Stands host s.configs (set_ranges uid ranges s.destination_policies) s.kill_switch_bypass)
        (Unchanged host s) IsGuarded (set_destination_policy host uid ranges s)
        (λ _ t k. IsGuarded-still s t h k.2 (λ u there. ap (lookup u) k.0))
        (λ t. IsGuarded-Unchanged s t h) (set_destination_policy-Stands host uid ranges s)

  set_kill_switch_bypass-IsGuarded :
      (uid : ℕ) (enabled : Bool) (routes : List host.Route) (s : Inner host)
      → IsGuarded s
      → IsGuarded (set_kill_switch_bypass host routing uid enabled routes s).0
  set_kill_switch_bypass-IsGuarded uid enabled routes s h =
      After-state (λ _. BypassSet host routing uid enabled routes s) (Unchanged host s) IsGuarded
        (set_kill_switch_bypass host routing uid enabled routes s)
        (λ _ t k. record {
          ruled = λ u there. elim (k.4 u there) [
            | inl old ↦ has_own_rules-same u s t (ap (lookup u) k.1) (h.ruled u old)
            | inr (e, r) ↦
                has_own_rules-same u s t (ap (lookup u) k.1)
                  (subst (λ v. has_own_rules host v s ≡ true) (sym e) r)
          ];
          routed = λ off u there. absurd (contrary k.0 off);
        })
        (λ t. IsGuarded-Unchanged s t h)
        (set_kill_switch_bypass-BypassSet host routing uid enabled routes s)

  kept : (r : Inner host × IoResult (Unit {0})) → After (λ _. IsGuarded) IsGuarded r → IsGuarded r.0
  kept r h = After-state (λ _. IsGuarded) IsGuarded IsGuarded r (λ _ t k. k) (λ t k. k) h

  loaded-IsGuarded :
      (configs : Map SplitConfig) (policies : Map (List String)) (w : host.World)
      → IsGuarded (loaded host configs policies w)
  unfolding lookup
  loaded-IsGuarded configs policies w = record {
    ruled = λ u there. absurd (contrary there refl);
    routed = λ off u there. there;
  }

  perform-IsGuarded :
      (c : Command host) (s : Inner host) → IsGuarded s → IsGuarded (perform host routing c s).0
  unfolding perform
  perform-IsGuarded (configure uid config) s h = set_config-IsGuarded uid config s h
  perform-IsGuarded (clear uid) s h = clear_config-IsGuarded uid s h
  perform-IsGuarded (choose_ranges uid ranges) s h = set_destination_policy-IsGuarded uid ranges s h
  perform-IsGuarded (switch_bypass uid enabled routes) s h =
      set_kill_switch_bypass-IsGuarded uid enabled routes s h
  perform-IsGuarded (notice event) s h =
      kept (handle_event host event s)
        (handle_event-Keeps host IsGuarded IsGuarded-IsAbove event s h)
  perform-IsGuarded refresh s h =
      kept (reconcile host s) (reconcile-Keeps host IsGuarded IsGuarded-IsAbove s h)

  perform_all-IsGuarded_from :
      (cs : List (Command host)) (s : Inner host)
      → IsGuarded s
      → IsGuarded (perform_all host routing cs s)
  unfolding perform_all
  perform_all-IsGuarded_from [] s h = h
  perform_all-IsGuarded_from (c ∷ cs) s h =
      perform_all-IsGuarded_from cs (perform host routing c s).0 (perform-IsGuarded c s h)

  -- Whatever requests, process events and rounds of the timer an engine sees after its start, and
  -- whichever of them fail: a user with a kill-switch bypass has split-tunnelling rules, and an engine
  -- that does not route has no bypass.
  pub perform_all-IsGuarded :
      (configs : Map SplitConfig) (policies : Map (List String)) (bypass : Map (List host.Route))
      (w : host.World) (cs : List (Command host))
      → IsGuarded (
          perform_all host routing cs
            (with_store host routing bypass (loaded host configs policies w)).0)
  perform_all-IsGuarded configs policies bypass w cs =
      let s = loaded host configs policies w in
      perform_all-IsGuarded_from cs (with_store host routing bypass s).0 (
        kept (with_store host routing bypass s) (
          with_store-Keeps host IsGuarded IsGuarded-IsAbove routing bypass s
            (loaded-IsGuarded configs policies w)))
