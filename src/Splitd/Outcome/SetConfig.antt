-- ===== src/Splitd/Outcome/SetConfig.antt =====
-- splitd/src/engine.rs: what `set_config` comes to.
use proton_vpn_omarchy_core.Base.{
  ℕ, Bool, true, false, ◌&&◌, not, none, ◌≡◌, refl, ap, lookup, insert, restore, restore-insert,
  has_key, is_some, if◌then◌else◌, if-both,
}
use proton_vpn_omarchy_core.Splitd.Config.{SplitConfig, has_rules}
use proton_vpn_omarchy_core.Io.{
  Act, ◌>>=◌, ◌>>◌, done, change, attempt, or_undo, After, Triple, bind-Triple, bind-Keeps,
  After-mono, or_undo-Triple,
}
use proton_vpn_omarchy_core.Splitd.Engine.{Host, Inner, reconcile}
use proton_vpn_omarchy_core.Splitd.Requests.{
  set_configs, take_bypass, bring_back, reconcile_and_save, has_room, set_config,
}
use proton_vpn_omarchy_core.Splitd.Bypass.{Stands, Stands-IsAbove, bring_back-Stands}
use proton_vpn_omarchy_core.Splitd.Outcome.{
  Unchanged, Stands-Unchanged, IsRouted, reconcile_and_save-Keeps, attempt-reconcile-Keeps, Settled,
  Settled-IsAbove, drop-Unchanged, Settled-gone, Keeps-Unchanged,
}

module _ (host : Host) (routing : Bool) (uid : ℕ) (config : SplitConfig) (s : Inner host) where
  abbrev drops : Bool
  drops = routing && not (has_rules config)

  abbrev undo_config : Act (Inner host) (Unit {0})
  undo_config = do
    change (set_configs host (restore uid (lookup uid s.configs)))
    _ ← attempt (reconcile host)
    bring_back host uid (if drops then lookup uid s.kill_switch_bypass else none)

  undo_config-Unchanged :
      Triple
        (Stands host (insert uid config s.configs) s.destination_policies s.kill_switch_bypass)
        undo_config
        (λ _. Unchanged host s)
        (Unchanged host s)
  undo_config-Unchanged t h =
      let c = restore uid (lookup uid s.configs) (insert uid config s.configs) in
      let p = s.destination_policies in
      let b = s.kill_switch_bypass in
      let back = if drops then lookup uid b else none in
      Keeps-Unchanged host s c p (restore-insert uid config s.configs) (λ k. refl)
        (do _ ← attempt (reconcile host); bring_back host uid back)
        (bind-Keeps (Stands host c p b) (attempt (reconcile host)) (λ _. bring_back host uid back)
          (attempt-reconcile-Keeps host (Stands host c p b) (Stands-IsAbove host c p b))
          (λ _. bring_back-Stands host c p b uid back (brought drops)))
        (set_configs host (restore uid (lookup uid s.configs)) t)
        (ap (restore uid (lookup uid s.configs)) h.0, h.1, h.2)
    where
      brought :
          (d : Bool)
          → is_some (if d then lookup uid s.kill_switch_bypass else none) ≡ true
          → has_key uid s.kill_switch_bypass ≡ true
      brought true k = k
      brought false k = absurd (let no : ⊥ = cc in no)

  -- After the guard on the number of users.
  abbrev change_config : Act (Inner host) (Unit {0})
  change_config = do
    (if drops then take_bypass host uid else done tt)
    change (set_configs host (insert uid config))
    or_undo (reconcile_and_save host) undo_config

  -- The new rules stand, and a user who no longer has any has no bypass.
  abbrev pub ConfigSet : Inner host → Type 0
  ConfigSet t =
      Stands host (insert uid config s.configs) s.destination_policies s.kill_switch_bypass t
      × (has_rules config ≡ false → has_key uid t.kill_switch_bypass ≡ false)

  change_config-ConfigSet :
      IsRouted host routing s → After (λ _. ConfigSet) (Unchanged host s) (change_config s)
  change_config-ConfigSet routed =
      let b = s.kill_switch_bypass in
      let p = s.destination_policies in
      let c = insert uid config s.configs in
      After-mono (λ _. Settled host c p b drops uid) (λ _. ConfigSet) (Unchanged host s)
        (Unchanged host s) (change_config s)
        (λ _ t k. (
          k.0,
          λ none.
              Settled-gone host s routing drops uid {c = c} {p = p} t routed
                (λ e. rw (e, none) refl) k,
        ))
        (λ t k. k)
        (bind-Triple (Stands host s.configs p b) (if drops then take_bypass host uid else done tt)
          (λ _. Settled host s.configs p b drops uid)
          (λ _. (do
            change (set_configs host (insert uid config))
            or_undo (reconcile_and_save host) undo_config))
          (λ _. Settled host c p b drops uid) (Unchanged host s) (drop-Unchanged host s drops uid)
          (λ _ t k.
            or_undo-Triple (Settled host c p b drops uid) (reconcile_and_save host) undo_config
              (λ _. Settled host c p b drops uid) (Settled host c p b drops uid) (Unchanged host s)
              (reconcile_and_save-Keeps host (Settled host c p b drops uid)
                (Settled-IsAbove host c p b drops uid))
              (λ r k'. undo_config-Unchanged r k'.0) (set_configs host (insert uid config) t)
              ((ap (insert uid config) k.0.0, k.0.1, k.0.2), k.1))
          s (refl, refl, λ u e. e))

  -- A user's configuration is set: either the new one stands for this user and no other rule has
  -- changed, or the request fails and every rule is as it was; in neither case has a user a bypass
  -- who had none, and on success a user who no longer has rules keeps none. (An engine that does not
  -- route has no bypass before.)
  pub set_config-ConfigSet :
      IsRouted host routing s
      → After (λ _. ConfigSet) (Unchanged host s) (set_config host routing uid config s)
  unfolding set_config
  set_config-ConfigSet routed =
      if-both {A = Act (Inner host) (Unit {0})}
        (λ a. After (λ _. ConfigSet) (Unchanged host s) (a s)) (not (has_room host uid s)) _ _
        (Stands-Unchanged host s s (refl, refl, λ u e. e)) (change_config-ConfigSet routed)
