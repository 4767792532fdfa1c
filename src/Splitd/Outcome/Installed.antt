-- ===== src/Splitd/Outcome/Installed.antt =====
-- splitd/src/engine.rs: the end of `set_kill_switch_bypass`, where the installed routes are entered.
use proton_vpn_omarchy_core.Base.{
  some, lookup, lookup-insert, ℕ, ◌==◌, true, false, String, List, Option, ◌≡◌, arith, Map, insert,
  remove, has_key, is_some,
}
use proton_vpn_omarchy_core.Splitd.Config.{SplitConfig}
use proton_vpn_omarchy_core.Io.{
  Act, ◌>>=◌, ◌>>◌, change, attempt, Triple, Keeps, bind-Keeps, attempt-Keeps, or_undo-Triple,
}
use proton_vpn_omarchy_core.Splitd.Engine.{Host, Inner, on_world}
use proton_vpn_omarchy_core.Splitd.Requests.{set_bypass, bring_back, save, keep_installed}
use proton_vpn_omarchy_core.Splitd.Keeps.{IsAbove, on_world-Keeps}
use proton_vpn_omarchy_core.Splitd.Bypass.{
  has_key-insert, has_key-remove_other, Stands, Stands-IsAbove, bring_back-Stands,
}
use proton_vpn_omarchy_core.Splitd.Outcome.{save-Keeps}

module _ (host : Host) where
  open host use {Route}

  module _ (c : Map SplitConfig) (p : Map (List String)) (b : Map (List Route)) (uid : ℕ) where
    -- The user's bypass has these routes, and every other user with a bypass has one in `b`.
    abbrev pub Opened : List Route → Inner host → Type 0
    Opened installed t =
        (t.configs ≡ c)
        × (t.destination_policies ≡ p)
        × ((u : ℕ)
            → (uid == u) ≡ false
            → has_key u t.kill_switch_bypass ≡ true
            → has_key u b ≡ true)
        × (lookup uid t.kill_switch_bypass ≡ some installed)

    Opened-IsAbove : (installed : List Route) → IsAbove host (Opened installed)
    Opened-IsAbove installed s m t w h = h

    insert-Opened :
        (installed : List Route) (t : Inner host)
        → Stands host c p b t
        → Opened installed (set_bypass host (insert uid installed) t)
    insert-Opened installed t h = (
      h.0,
      h.1,
      (λ u e k. h.2 u (ground (arith, has_key-insert uid u installed t.kill_switch_bypass))),
      ground (arith, lookup-insert uid uid installed t.kill_switch_bypass),
    )

    remove-Stands :
        (installed : List Route) (t : Inner host)
        → Opened installed t
        → Stands host c p b (set_bypass host (remove uid) t)
    remove-Stands installed t h = (
      h.0,
      h.1,
      λ u k.
          let kept = has_key-remove_other uid u t.kill_switch_bypass in
          h.2 u (ground arith) (ground arith),
    )

    module _ (o : Option (List Route)) (old : is_some o ≡ true → has_key uid b ≡ true) where
      pub keep_installed-Opened :
          (installed : List Route)
          → Triple
              (Stands host c p b)
              (keep_installed host uid o installed)
              (λ _. Opened installed)
              (Stands host c p b)
      unfolding keep_installed
      keep_installed-Opened installed t h =
          or_undo-Triple (Opened installed) (save host) give_up (λ _. Opened installed)
            (Opened installed) (Stands host c p b)
            (save-Keeps host (Opened installed) (Opened-IsAbove installed))
            (λ r k. rest (set_bypass host (remove uid) r) (remove-Stands installed r k))
            (set_bypass host (insert uid installed) t) (insert-Opened installed t h)
        where
          give_up : Act (Inner host) (Unit {0})
          give_up = do
            change (set_bypass host (remove uid))
            _ ← attempt (on_world host (host.disable uid installed))
            bring_back host uid o

          rest :
              Keeps
                (Stands host c p b)
                (do _ ← attempt (on_world host (host.disable uid installed)); bring_back host uid o)
          rest =
              bind-Keeps (Stands host c p b) (attempt (on_world host (host.disable uid installed)))
                (λ _. bring_back host uid o)
                (attempt-Keeps (Stands host c p b) (on_world host (host.disable uid installed)) (
                  on_world-Keeps host (Stands host c p b) (Stands-IsAbove host c p b)
                    (host.disable uid installed)))
                (λ _. bring_back-Stands host c p b uid o old)
