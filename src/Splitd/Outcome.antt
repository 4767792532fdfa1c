-- ===== src/Splitd/Outcome.antt =====
-- splitd/src/engine.rs: what each request comes to, done or refused.
pub mod SetConfig
pub mod ClearConfig
pub mod SetPolicy
pub mod Installed
pub mod Switched
pub mod SetBypass
use proton_vpn_omarchy_core.Base.{
  ℕ, ◌==◌, ==_iff, Bool, true, false, ◌&&◌, not, String, List, [], ◌∷◌, Option, none, some,
  Option-cases, Bool-cases, inl, inr, ◌≡◌, refl, sym, ap, subst, ◌∙◌, arith, Map, SameMap, lookup,
  insert, remove, restore, restore-insert, restore-remove, has_key, is_some, lookup-insert,
  lookup-remove, if◌then◌else◌, if-both,
}
use proton_vpn_omarchy_core.Splitd.Config.{SplitConfig, has_rules}
use proton_vpn_omarchy_core.Io.{
  IoError, IoResult, ok, failed, Act, ◌>>=◌, ◌>>◌, proceed, done, fail, current, change, attempt,
  observed, or_undo, undone_by, After, Triple, Keeps, After-both, bind-Triple, bind-Keeps,
  attempt-Keeps, attempt-Triple, weaken-Keeps, After-mono, or_undo-Triple,
}
use proton_vpn_omarchy_core.Splitd.Engine.{Host, Inner, on_world, reconcile, has_ranges}
use proton_vpn_omarchy_core.Splitd.Requests.{
  set_bypass, set_configs, set_policies, take_down, take_found, take_bypass, put_back, bring_back,
  put_in, save, reconcile_and_save, has_room, set_config, clear_config, set_destination_policy,
  keep_installed, enable_bypass, disable_bypass, disable_found, set_kill_switch_bypass,
  has_own_rules, has_bypass,
}
use proton_vpn_omarchy_core.Splitd.Keeps.{IsAbove, on_world-Keeps, reconcile-Keeps}
use proton_vpn_omarchy_core.Splitd.Bypass.{
  Within, none-Within, remove-Within, insert-Within, has_key-remove, Stands, Stands-IsAbove,
  take_down-Stands, take_bypass-Stands, bring_back-Stands,
}

module _ (host : Host) where
  open host use {Route}

  -- A request that fails leaves the rules of every user as they were, and no new bypass.
  abbrev pub Unchanged : Inner host → Inner host → Type 0
  Unchanged s t =
      SameMap t.configs s.configs
      × SameMap t.destination_policies s.destination_policies
      × Within s.kill_switch_bypass t.kill_switch_bypass

  pub Stands-Unchanged :
      (s t : Inner host)
      → Stands host s.configs s.destination_policies s.kill_switch_bypass t
      → Unchanged s t
  Stands-Unchanged s t h = ((λ k. ap (lookup k) h.0), (λ k. ap (lookup k) h.1), h.2)

  -- An engine that does not route has no bypass.
  abbrev pub IsRouted : Bool → Inner host → Type 0
  IsRouted routing s = routing ≡ false → Within [] s.kill_switch_bypass

  module _ (P : Inner host → Type 0) (above : IsAbove host P) where
    pub save-Keeps : Keeps P (save host)
    unfolding save
    save-Keeps s h =
        on_world-Keeps host P above
          (host.save s.configs s.destination_policies s.kill_switch_bypass) s h

    pub reconcile_and_save-Keeps : Keeps P (reconcile_and_save host)
    unfolding reconcile_and_save
    reconcile_and_save-Keeps =
        bind-Keeps P (reconcile host) (λ _. save host) (reconcile-Keeps host P above)
          (λ _. save-Keeps)

    pub attempt-reconcile-Keeps : Keeps P (attempt (reconcile host))
    attempt-reconcile-Keeps = attempt-Keeps P (reconcile host) (reconcile-Keeps host P above)

  module _ (c : Map SplitConfig) (p : Map (List String)) (b : Map (List Route)) where
    -- The user's bypass is gone, if `drop` says so.
    abbrev pub Settled : Bool → ℕ → Inner host → Type 0
    Settled drop uid t =
        Stands host c p b t × (drop ≡ true → has_key uid t.kill_switch_bypass ≡ false)

    pub Settled-IsAbove : (drop : Bool) (uid : ℕ) → IsAbove host (Settled drop uid)
    Settled-IsAbove drop uid s m t w h = h

    drop-Settled :
        (drop : Bool) (uid : ℕ)
        → Triple
            (Stands host c p b)
            (if drop then take_bypass host uid else done tt)
            (λ _. Settled drop uid)
            (Stands host c p b)
    drop-Settled false uid = λ s h. (h, λ e. absurd (let no : ⊥ = cc in no))
    drop-Settled true uid = λ s h.
        After-mono (λ _ t. Stands host c p b t × (has_key uid t.kill_switch_bypass ≡ false))
          (λ _. Settled true uid) (Stands host c p b) (Stands host c p b) (take_bypass host uid s)
          (λ _ t k. (k.0, λ _. k.1)) (λ t k. k) (take_bypass-Stands host c p b uid s h)

  pub drop-Unchanged :
      (s : Inner host) (drop : Bool) (uid : ℕ)
      → Triple
          (Stands host s.configs s.destination_policies s.kill_switch_bypass)
          (if drop then take_bypass host uid else done tt)
          (λ _. Settled s.configs s.destination_policies s.kill_switch_bypass drop uid)
          (Unchanged s)
  drop-Unchanged s drop uid t h =
      let c = s.configs in
      let p = s.destination_policies in
      let b = s.kill_switch_bypass in
      After-mono (λ _. Settled c p b drop uid) (λ _. Settled c p b drop uid) (Stands host c p b)
        (Unchanged s) ((if drop then take_bypass host uid else done tt) t) (λ _ r k. k)
        (Stands-Unchanged s) (drop-Settled c p b drop uid t h)

  -- The bypass is gone, also where there was none to take down.
  pub Settled-gone :
      (s : Inner host) (routing drop : Bool) (uid : ℕ) {c : Map SplitConfig} {p : Map (List String)}
      (t : Inner host)
      → IsRouted routing s
      → (routing ≡ true → drop ≡ true)
      → Settled c p s.kill_switch_bypass drop uid t
      → has_key uid t.kill_switch_bypass ≡ false
  Settled-gone s true drop uid t routed dropped h = h.1 (dropped refl)
  Settled-gone s false drop uid t routed dropped h =
      none-Within uid t.kill_switch_bypass (λ u k. routed refl u (h.0.2 u k))

  -- What keeps rules that are the same maps as those of `s` leaves `s` unchanged.
  pub Keeps-Unchanged :
      (s : Inner host) (c : Map SplitConfig) (p : Map (List String))
      → SameMap c s.configs
      → SameMap p s.destination_policies
      → (m : Act (Inner host) (Unit {0})) → Keeps (Stands host c p s.kill_switch_bypass) m
      → Triple (Stands host c p s.kill_switch_bypass) m (λ _. Unchanged s) (Unchanged s)
  Keeps-Unchanged s c p same_configs same_policies m keeps t h =
      After-mono (λ _. Stands host c p s.kill_switch_bypass) (λ _. Unchanged s)
        (Stands host c p s.kill_switch_bypass) (Unchanged s) (m t) (λ _. weaker) weaker (keeps t h)
    where
      weaker : (t : Inner host) → Stands host c p s.kill_switch_bypass t → Unchanged s t
      weaker t k = (
        (λ u. ap (lookup u) k.0 ∙ same_configs u),
        (λ u. ap (lookup u) k.1 ∙ same_policies u),
        k.2,
      )
