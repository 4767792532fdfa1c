-- ===== src/Splitd/Bypass.antt =====
-- splitd/src/engine.rs: taking a user's kill-switch bypass down, and bringing it back.
use proton_vpn_omarchy_core.Base.{
  ℕ, ◌==◌, ==_iff, true, false, ◌&&◌, ◌||◌, not, String, List, [], Option, none, some, Option-cases,
  Bool-cases, inl, inr, ◌≡◌, refl, sym, ap, subst, ◌∙◌, arith, Map, lookup, insert, remove, has_key,
  is_some, lookup-insert, lookup-remove,
}
use proton_vpn_omarchy_core.Splitd.Config.{SplitConfig}
use proton_vpn_omarchy_core.Io.{
  IoResult, ok, failed, change, attempt, After, Triple, Keeps, bind-Triple, bind-Keeps,
  attempt-Keeps,
}
use proton_vpn_omarchy_core.Splitd.Engine.{Host, Inner, on_world}
use proton_vpn_omarchy_core.Splitd.Requests.{
  set_bypass, take_down, take_found, take_bypass, put_back, bring_back,
}
use proton_vpn_omarchy_core.Splitd.Keeps.{IsAbove, on_world-Keeps}

module _ {R : Type 0} where
  -- Every user of one map of bypasses is one of the other.
  abbrev pub Within : Map R → Map R → Type 0
  Within b m = (u : ℕ) → has_key u m ≡ true → has_key u b ≡ true

  pub none-Within : (u : ℕ) (m : Map R) → Within [] m → has_key u m ≡ false
  unfolding lookup
  none-Within u m h = elim (Bool-cases (has_key u m)) [
    | inl e ↦ absurd (let h' = h u e in let no : ⊥ = cc in no)
    | inr e ↦ e
  ]

  pub remove-Within : (uid : ℕ) (b m : Map R) → Within b m → Within b (remove uid m)
  remove-Within uid b m h u k = ground (arith, lookup-remove uid u m, h u)

  pub has_key-remove : (uid : ℕ) (m : Map R) → has_key uid (remove uid m) ≡ false
  has_key-remove uid m = ground (arith, lookup-remove uid uid m)

  pub has_key-insert :
      (uid u : ℕ) (r : R) (m : Map R) → has_key u (insert uid r m) ≡ ((uid == u) || has_key u m)
  has_key-insert uid u r m = ground (arith, lookup-insert uid u r m)

  pub has_key-remove_other :
      (uid u : ℕ) (m : Map R) → has_key u (remove uid m) ≡ (not (uid == u) && has_key u m)
  has_key-remove_other uid u m = ground (arith, lookup-remove uid u m)

  pub insert-Within :
      (uid : ℕ) (r : R) (b m : Map R)
      → has_key uid b ≡ true
      → Within b m
      → Within b (insert uid r m)
  insert-Within uid r b m old h u k = elim (Bool-cases (uid == u)) [
    | inl e ↦ subst (λ v. has_key v b ≡ true) ((==_iff uid u).0 e) old
    | inr e ↦ h u (sym (ap is_some (lookup-insert uid u r m ∙ (rw e refl))) ∙ k)
  ]

module _ (host : Host) where
  open host use {Route}

  -- The rules are these, and every bypass is that of a user who has one in `b`.
  abbrev pub Stands : Map SplitConfig → Map (List String) → Map (List Route) → Inner host → Type 0
  Stands c p b s = (s.configs ≡ c) × (s.destination_policies ≡ p) × Within b s.kill_switch_bypass

  module _ (c : Map SplitConfig) (p : Map (List String)) (b : Map (List Route)) where
    pub Stands-IsAbove : IsAbove host (Stands c p b)
    Stands-IsAbove s m t w h = h

    pub take_down-Stands :
        (uid : ℕ) (routes : List Route)
        → Triple
            (Stands c p b)
            (take_down host uid routes)
            (λ _ s. Stands c p b s × (has_key uid s.kill_switch_bypass ≡ false))
            (Stands c p b)
    unfolding take_down
    take_down-Stands uid routes =
        bind-Triple (Stands c p b) (on_world host (host.disable uid routes)) (λ _. Stands c p b)
          (λ _. change (set_bypass host (remove uid)))
          (λ _ s. Stands c p b s × (has_key uid s.kill_switch_bypass ≡ false)) (Stands c p b)
          (on_world-Keeps host (Stands c p b) Stands-IsAbove (host.disable uid routes))
          (λ _ s h. (
            (h.0, h.1, remove-Within uid b s.kill_switch_bypass h.2),
            has_key-remove uid s.kill_switch_bypass,
          ))

    pub take_bypass-Stands :
        (uid : ℕ)
        → Triple
            (Stands c p b)
            (take_bypass host uid)
            (λ _ s. Stands c p b s × (has_key uid s.kill_switch_bypass ≡ false))
            (Stands c p b)
    unfolding take_bypass
    take_bypass-Stands uid s h = elim (Option-cases (lookup uid s.kill_switch_bypass)) [
      | inl e ↦
          subst (λ o. After Gone (Stands c p b) (take_found host uid o s)) (sym e) (h, ap is_some e)
      | inr (routes, e) ↦
          subst (λ o. After Gone (Stands c p b) (take_found host uid o s)) (sym e)
            (take_down-Stands uid routes s h)
    ]
      where
        Gone : Unit {0} → Inner host → Type 0
        Gone _ t = Stands c p b t × (has_key uid t.kill_switch_bypass ≡ false)

    pub bring_back-Stands :
        (uid : ℕ) (o : Option (List Route))
        → (is_some o ≡ true → has_key uid b ≡ true)
        → Keeps (Stands c p b) (bring_back host uid o)
    unfolding bring_back
    bring_back-Stands uid none old = λ s h. h
    bring_back-Stands uid (some routes) old =
        bind-Keeps (Stands c p b) (attempt (on_world host (host.enable uid routes)))
          (put_back host uid)
          (attempt-Keeps (Stands c p b) (on_world host (host.enable uid routes))
            (on_world-Keeps host (Stands c p b) Stands-IsAbove (host.enable uid routes)))
          put_back-Stands
      where
        put_back-Stands : (r : IoResult (List Route)) → Keeps (Stands c p b) (put_back host uid r)
        put_back-Stands (ok installed) s h =
            (h.0, h.1, insert-Within uid installed b s.kill_switch_bypass (old refl) h.2)
        put_back-Stands (failed e) s h = h
