-- ===== src/Splitd/Outcome/SetBypass.antt =====
-- splitd/src/engine.rs: what `set_kill_switch_bypass` comes to.
use proton_vpn_omarchy_core.Base.{
  none, ℕ, ◌==◌, ==_iff, Bool, true, false, ◌&&◌, not, List, Option-cases, Bool-cases, inl, inr,
  ◌⊎◌, ◌≡◌, refl, sym, ap, subst, ◌∙◌, arith, lookup, has_key, is_some,
}
use proton_vpn_omarchy_core.Io.{After, After-mono, if-After}
use proton_vpn_omarchy_core.Splitd.Engine.{Host, Inner}
use proton_vpn_omarchy_core.Splitd.Requests.{
  enable_bypass, disable_bypass, disable_found, set_kill_switch_bypass, has_own_rules,
}
use proton_vpn_omarchy_core.Splitd.Outcome.{Unchanged, Stands-Unchanged}
use proton_vpn_omarchy_core.Splitd.Outcome.Switched.{
  Mine, Enabled, IsAsAsked, enable_bypass-Enabled, disable_bypass-Stands,
}

module _ (host : Host) where
  open host use {Route}

  module _ (routing : Bool) (uid : ℕ) (enabled : Bool) (routes : List Route) (s : Inner host) where
    -- The user has a bypass as asked for, and no bypass is new but that of a user with rules.
    abbrev pub BypassSet : Inner host → Type 0
    BypassSet t =
        (routing ≡ true)
        × (t.configs ≡ s.configs)
        × (t.destination_policies ≡ s.destination_policies)
        × (has_key uid t.kill_switch_bypass ≡ enabled)
        × ((u : ℕ)
            → has_key u t.kill_switch_bypass ≡ true
            → (has_key u s.kill_switch_bypass ≡ true)
              ⊎ ((u ≡ uid) × (has_own_rules host uid s ≡ true)))
        × IsAsAsked host uid routes s enabled t

    enabled-BypassSet :
        routing ≡ true
        → enabled ≡ true
        → has_own_rules host uid s ≡ true
        → After (λ _. BypassSet) (Unchanged host s) (enable_bypass host uid routes s)
    enabled-BypassSet able on ruled =
        After-mono (λ _. Enabled host uid routes s) (λ _. BypassSet) (Unchanged host s)
          (Unchanged host s) (enable_bypass host uid routes s)
          (λ _ t (installed, how, k). (
            able,
            k.0,
            k.1,
            ap is_some k.3 ∙ sym on,
            (λ u there. elim (Bool-cases (uid == u)) [
              | inl e ↦ inr (sym ((==_iff uid u).0 e), ruled)
              | inr e ↦ inl (k.2 u e there)
            ]),
            subst (λ x. IsAsAsked host uid routes s x t) (sym on) (installed, k.3, how),
          ))
          (λ t k. k) (enable_bypass-Enabled host uid routes s)

    is_none :
        (t : Inner host)
        → has_key uid t.kill_switch_bypass ≡ false
        → lookup uid t.kill_switch_bypass ≡ none
    is_none t h = elim (Option-cases (lookup uid t.kill_switch_bypass)) [
      | inl e ↦ e
      | inr (old, e) ↦ absurd (
          let there : has_key uid t.kill_switch_bypass ≡ true = ap is_some e in
          let no : ⊥ = cc in no)
    ]

    disabled-BypassSet :
        routing ≡ true
        → enabled ≡ false
        → After
            (λ _. BypassSet)
            (Unchanged host s)
            (disable_found host uid (lookup uid s.kill_switch_bypass) s)
    disabled-BypassSet able off = elim (Option-cases (lookup uid s.kill_switch_bypass)) [
      | inl e ↦
          subst (λ o. After (λ _. BypassSet) (Unchanged host s) (disable_found host uid o s))
            (sym e)
            (
              able,
              refl,
              refl,
              ap is_some e ∙ sym off,
              (λ u there. inl there),
              subst (λ x. IsAsAsked host uid routes s x s) (sym off) e,
            )
      | inr (installed, e) ↦
          subst (λ o. After (λ _. BypassSet) (Unchanged host s) (disable_found host uid o s))
            (sym e)
            (After-mono
              (λ _ t. Mine host uid routes s t × (has_key uid t.kill_switch_bypass ≡ false))
              (λ _. BypassSet) (Unchanged host s) (Unchanged host s)
              (disable_bypass host uid installed s)
              (λ _ t k. (
                able,
                k.0.0,
                k.0.1,
                k.1 ∙ sym off,
                (λ u there. inl (k.0.2 u there)),
                subst (λ x. IsAsAsked host uid routes s x t) (sym off) (is_none t k.1),
              ))
              (λ t k. k) (disable_bypass-Stands host uid routes s installed e))
    ]

    -- A user's kill-switch bypass is switched. Either the engine routes and the bypass is as asked for:
    -- switched off, there is none; switched on, its routes are those that the kernel took for the ones
    -- that were asked for, or are the user's former ones and the same as these. Then no rule has
    -- changed, and a bypass that is new is that of this user, who has rules; or the request fails, every rule is as it was
    -- and no user has a bypass who had none.
    pub set_kill_switch_bypass-BypassSet :
        After
          (λ _. BypassSet)
          (Unchanged host s)
          (set_kill_switch_bypass host routing uid enabled routes s)
    unfolding set_kill_switch_bypass
    set_kill_switch_bypass-BypassSet =
        let same = Stands-Unchanged host s s (refl, refl, λ u k. k) in
        if-After (λ _. BypassSet) (Unchanged host s) (not routing) _ _ s (λ _. same)
          (λ able.
            if-After (λ _. BypassSet) (Unchanged host s) (enabled && not (has_own_rules host uid s))
              _ _ s (λ _. same)
              (λ passed.
                if-After (λ _. BypassSet) (Unchanged host s) enabled _ _ s
                  (λ on.
                    enabled-BypassSet (routes_on routing able) on
                      (ruled enabled (has_own_rules host uid s) on passed))
                  (disabled-BypassSet (routes_on routing able))))
      where
        routes_on : (a : Bool) → not a ≡ false → a ≡ true
        routes_on a h = ground arith

        ruled : (a b : Bool) → a ≡ true → (a && not b) ≡ false → b ≡ true
        ruled a b h k = ground arith
