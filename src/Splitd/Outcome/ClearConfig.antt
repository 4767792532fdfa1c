-- ===== src/Splitd/Outcome/ClearConfig.antt =====
-- splitd/src/engine.rs: what `clear_config` comes to.
use proton_vpn_omarchy_core.Base.{
  ℕ, Bool, false, Option, none, some, ◌≡◌, refl, ap, subst, arith, SameMap, lookup, insert, remove,
  restore, restore-remove, has_key, lookup-remove, if◌then◌else◌,
}
use proton_vpn_omarchy_core.Splitd.Config.{SplitConfig}
use proton_vpn_omarchy_core.Io.{
  Act, ◌>>=◌, ◌>>◌, done, change, attempt, or_undo, After, Triple, bind-Triple, bind-Keeps,
  After-mono, or_undo-Triple,
}
use proton_vpn_omarchy_core.Splitd.Engine.{Host, Inner, reconcile}
use proton_vpn_omarchy_core.Splitd.Requests.{
  set_configs, take_bypass, bring_back, put_in, reconcile_and_save, clear_config,
}
use proton_vpn_omarchy_core.Splitd.Bypass.{Stands, Stands-IsAbove, bring_back-Stands}
use proton_vpn_omarchy_core.Splitd.Outcome.{
  Unchanged, IsRouted, reconcile_and_save-Keeps, attempt-reconcile-Keeps, Settled, Settled-IsAbove,
  drop-Unchanged, Settled-gone, Keeps-Unchanged,
}

module _ (host : Host) (routing : Bool) (uid : ℕ) (s : Inner host) where
  abbrev undo_clear : Act (Inner host) (Unit {0})
  undo_clear = do
    put_in host uid (lookup uid s.configs)
    bring_back host uid (lookup uid s.kill_switch_bypass)

  put_in-Unchanged :
      (o : Option SplitConfig)
      → lookup uid s.configs ≡ o
      → Triple
          (Stands host (remove uid s.configs) s.destination_policies s.kill_switch_bypass)
          (do put_in host uid o; bring_back host uid (lookup uid s.kill_switch_bypass))
          (λ _. Unchanged host s)
          (Unchanged host s)
  unfolding restore
  put_in-Unchanged none e t h =
      let b = s.kill_switch_bypass in
      Keeps-Unchanged host s (remove uid s.configs) s.destination_policies absent (λ k. refl)
        (bring_back host uid (lookup uid b))
        (bring_back-Stands host (remove uid s.configs) s.destination_policies b uid (lookup uid b)
          (λ k. k))
        t h
    where
      absent : SameMap (remove uid s.configs) s.configs
      absent k = ground (arith, lookup-remove uid k s.configs)
  put_in-Unchanged (some config) e t h =
      let c = insert uid config (remove uid s.configs) in
      let p = s.destination_policies in
      let b = s.kill_switch_bypass in
      Keeps-Unchanged host s c p
        (subst (λ o. SameMap (restore uid o (remove uid s.configs)) s.configs) e
          (restore-remove uid s.configs))
        (λ k. refl)
        (do (do _ ← attempt (reconcile host); done tt); bring_back host uid (lookup uid b))
        (bind-Keeps (Stands host c p b) (do _ ← attempt (reconcile host); done tt)
          (λ _. bring_back host uid (lookup uid b))
          (bind-Keeps (Stands host c p b) (attempt (reconcile host)) (λ _. done tt)
            (attempt-reconcile-Keeps host (Stands host c p b) (Stands-IsAbove host c p b))
            (λ _ r k. k))
          (λ _. bring_back-Stands host c p b uid (lookup uid b) (λ k. k)))
        (set_configs host (insert uid config) t) (ap (insert uid config) h.0, h.1, h.2)

  -- The user has no configuration and no bypass, and no other rule has changed.
  abbrev pub Cleared : Inner host → Type 0
  Cleared t =
      Stands host (remove uid s.configs) s.destination_policies s.kill_switch_bypass t
      × (has_key uid t.kill_switch_bypass ≡ false)

  -- A user's configuration is cleared: either the user has none and no bypass and no other rule has
  -- changed, or the request fails, every rule is as it was and no user has a bypass who had none.
  -- (An engine that does not route has no bypass before.)
  pub clear_config-Cleared :
      IsRouted host routing s
      → After (λ _. Cleared) (Unchanged host s) (clear_config host routing uid s)
  unfolding clear_config
  clear_config-Cleared routed =
      let b = s.kill_switch_bypass in
      let p = s.destination_policies in
      let c = remove uid s.configs in
      After-mono (λ _. Settled host c p b routing uid) (λ _. Cleared) (Unchanged host s)
        (Unchanged host s) (clear_config host routing uid s)
        (λ _ t k.
          (k.0, Settled-gone host s routing routing uid {c = c} {p = p} t routed (λ e. e) k))
        (λ t k. k)
        (bind-Triple (Stands host s.configs p b) (if routing then take_bypass host uid else done tt)
          (λ _. Settled host s.configs p b routing uid)
          (λ _. (do
            change (set_configs host (remove uid))
            or_undo (reconcile_and_save host) undo_clear))
          (λ _. Settled host c p b routing uid) (Unchanged host s)
          (drop-Unchanged host s routing uid)
          (λ _ t k.
            or_undo-Triple (Settled host c p b routing uid) (reconcile_and_save host) undo_clear
              (λ _. Settled host c p b routing uid) (Settled host c p b routing uid)
              (Unchanged host s)
              (reconcile_and_save-Keeps host (Settled host c p b routing uid)
                (Settled-IsAbove host c p b routing uid))
              (λ r k'. put_in-Unchanged (lookup uid s.configs) refl r k'.0)
              (set_configs host (remove uid) t) ((ap (remove uid) k.0.0, k.0.1, k.0.2), k.1))
          s (refl, refl, λ u e. e))
