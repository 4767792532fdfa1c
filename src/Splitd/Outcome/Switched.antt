-- ===== src/Splitd/Outcome/Switched.antt =====
-- splitd/src/engine.rs: what a user's kill-switch bypass is after it has been switched on or off.
use proton_vpn_omarchy_core.Base.{
  none, ℕ, Bool, true, false, List, some, Option-cases, Bool-cases, inl, inr, ◌⊎◌, ◌≡◌, refl, sym,
  ap, subst, lookup, has_key, is_some, if◌then◌else◌,
}
use proton_vpn_omarchy_core.Io.{
  IoResult, ok, failed, Triple, ◌>>=◌, done, or_undo, After, bind-Triple, After-mono,
  or_undo-Triple,
}
use proton_vpn_omarchy_core.Splitd.Engine.{Host, Inner, on_world}
use proton_vpn_omarchy_core.Splitd.Requests.{
  take_down, take_bypass, bring_back, save, keep_installed, replace_bypass, enable_bypass,
  disable_bypass, has_bypass,
}
use proton_vpn_omarchy_core.Splitd.Bypass.{
  Stands, take_down-Stands, take_bypass-Stands, bring_back-Stands,
}
use proton_vpn_omarchy_core.Splitd.Outcome.{Unchanged, Stands-Unchanged, save-Keeps}
use proton_vpn_omarchy_core.Splitd.Outcome.Installed.{Opened, keep_installed-Opened}

module _ (host : Host) where
  open host use {Route}

  module _ (uid : ℕ) (routes : List Route) (s : Inner host) where
    abbrev pub Mine : Inner host → Type 0
    Mine = Stands host s.configs s.destination_policies s.kill_switch_bypass

    -- The kernel was asked for the routes, and these are the ones that it took.
    abbrev pub Taken : List Route → Type 0
    Taken installed =
        (v : host.World) × (w : host.World) × (host.enable uid routes v ≡ (w, ok installed))

    -- The user's bypass is as asked for. Switched on, its routes are those that the kernel took for the
    -- ones that were asked for, or the user had the same ones before.
    abbrev pub IsAsAsked : Bool → Inner host → Type 0
    IsAsAsked true t =
        (installed : List Route) × (lookup uid t.kill_switch_bypass ≡ some installed)
        × (Taken installed
            ⊎ ((lookup uid s.kill_switch_bypass ≡ some installed)
                × (host.same_routes installed routes ≡ true)))
    IsAsAsked false t = lookup uid t.kill_switch_bypass ≡ none

    has_bypass-same :
        has_bypass host uid routes s ≡ true
        → (old : List Route) × (lookup uid s.kill_switch_bypass ≡ some old)
          × (host.same_routes old routes ≡ true)
    unfolding has_bypass
    has_bypass-same h = elim (Option-cases (lookup uid s.kill_switch_bypass)) [
      | inl e ↦ absurd (let h' = rw (e, has_bypass) at h in let no : ⊥ = cc in no)
      | inr (old, e) ↦ (old, e, rw (e, has_bypass) at h)
    ]

    -- Every other user with a bypass had one, and this user's is as asked for.
    abbrev pub Enabled : Inner host → Type 0
    Enabled t =
        (installed : List Route) × (Taken installed
          ⊎ ((lookup uid s.kill_switch_bypass ≡ some installed)
              × (host.same_routes installed routes ≡ true)))
        × Opened host s.configs s.destination_policies s.kill_switch_bypass uid installed t

    enable-Taken :
        Triple Mine
          (on_world host (host.enable uid routes))
          (λ installed t. Taken installed × Mine t)
          Mine
    enable-Taken t h = of_result (host.enable uid routes t.world) refl
      where
        of_result :
            (r : host.World × IoResult (List Route))
            → host.enable uid routes t.world ≡ r
            → After (λ installed t. Taken installed × Mine t) Mine (record t { world = r.0 }, r.1)
        of_result (w, ok installed) e = ((t.world, w, e), h)
        of_result (w, failed f) e = h

    keep_installed-Enabled :
        (installed : List Route)
        → Triple
            (λ t. Taken installed × Mine t)
            (keep_installed host uid (lookup uid s.kill_switch_bypass) installed)
            (λ _. Enabled)
            Mine
    keep_installed-Enabled installed t h =
        let c = s.configs in
        let p = s.destination_policies in
        let b = s.kill_switch_bypass in
        After-mono (λ _. Opened host c p b uid installed) (λ _. Enabled) Mine Mine
          (keep_installed host uid (lookup uid b) installed t) (λ _ r k. (installed, inl h.0, k))
          (λ r k. k) (keep_installed-Opened host c p b uid (lookup uid b) (λ k. k) installed t h.1)

    replace_bypass-Enabled :
        After
          (λ _. Enabled)
          (Unchanged host s)
          (replace_bypass host uid (lookup uid s.kill_switch_bypass) routes s)
    unfolding replace_bypass
    replace_bypass-Enabled =
        let c = s.configs in
        let p = s.destination_policies in
        let b = s.kill_switch_bypass in
        let previous = lookup uid b in
        After-mono (λ _. Enabled) (λ _. Enabled) Mine (Unchanged host s)
          (replace_bypass host uid previous routes s) (λ _ t k. k) (Stands-Unchanged host s)
          (bind-Triple Mine (take_bypass host uid) (λ _. Mine)
            (λ _. (do
              installed ←
                  or_undo (on_world host (host.enable uid routes)) (bring_back host uid previous)
              keep_installed host uid previous installed))
            (λ _. Enabled) Mine
            (λ t h.
              After-mono (λ _ r. Mine r × (has_key uid r.kill_switch_bypass ≡ false)) (λ _. Mine)
                Mine Mine (take_bypass host uid t) (λ _ r k. k.0) (λ r k. k)
                (take_bypass-Stands host c p b uid t h))
            (λ _.
              bind-Triple Mine
                (or_undo (on_world host (host.enable uid routes)) (bring_back host uid previous))
                (λ installed t. Taken installed × Mine t) (keep_installed host uid previous)
                (λ _. Enabled) Mine
                (or_undo-Triple Mine (on_world host (host.enable uid routes))
                  (bring_back host uid previous) (λ installed t. Taken installed × Mine t) Mine Mine
                  enable-Taken (bring_back-Stands host c p b uid previous (λ k. k)))
                keep_installed-Enabled)
            s (refl, refl, λ u k. k))

    pub enable_bypass-Enabled :
        After (λ _. Enabled) (Unchanged host s) (enable_bypass host uid routes s)
    unfolding enable_bypass
    enable_bypass-Enabled =
        let Q = λ (_ : Unit {0}). Enabled in
        elim (Bool-cases (has_bypass host uid routes s)) [
          | inl e ↦
              subst
                (λ x. After Q (Unchanged host s) (
                  (if x
                      then done tt
                      else replace_bypass host uid (lookup uid s.kill_switch_bypass) routes)
                    s))
                (sym e) (had (has_bypass-same e))
          | inr e ↦
              subst
                (λ x. After Q (Unchanged host s) (
                  (if x
                      then done tt
                      else replace_bypass host uid (lookup uid s.kill_switch_bypass) routes)
                    s))
                (sym e) replace_bypass-Enabled
        ]
      where
        had :
            (old : List Route) × (lookup uid s.kill_switch_bypass ≡ some old)
              × (host.same_routes old routes ≡ true)
            → Enabled s
        had (old, e, same) = (old, inr (e, same), (refl, refl, (λ u _ k. k), e))

    pub disable_bypass-Stands :
        (installed : List Route)
        → lookup uid s.kill_switch_bypass ≡ some installed
        → After
            (λ _ t. Mine t × (has_key uid t.kill_switch_bypass ≡ false))
            (Unchanged host s)
            (disable_bypass host uid installed s)
    unfolding disable_bypass
    disable_bypass-Stands installed e =
        let c = s.configs in
        let p = s.destination_policies in
        let b = s.kill_switch_bypass in
        bind-Triple Mine (take_down host uid installed)
          (λ _ t. Mine t × (has_key uid t.kill_switch_bypass ≡ false))
          (λ _. or_undo (save host) (bring_back host uid (some installed)))
          (λ _ t. Mine t × (has_key uid t.kill_switch_bypass ≡ false)) (Unchanged host s)
          (λ t h.
            After-mono (λ _ r. Mine r × (has_key uid r.kill_switch_bypass ≡ false))
              (λ _ r. Mine r × (has_key uid r.kill_switch_bypass ≡ false)) Mine (Unchanged host s)
              (take_down host uid installed t) (λ _ r k. k) (Stands-Unchanged host s)
              (take_down-Stands host c p b uid installed t h))
          (λ _.
            or_undo-Triple (λ t. Mine t × (has_key uid t.kill_switch_bypass ≡ false)) (save host)
              (bring_back host uid (some installed))
              (λ _ t. Mine t × (has_key uid t.kill_switch_bypass ≡ false))
              (λ t. Mine t × (has_key uid t.kill_switch_bypass ≡ false)) (Unchanged host s)
              (save-Keeps host (λ t. Mine t × (has_key uid t.kill_switch_bypass ≡ false))
                (λ t m r w h. h))
              (λ t h.
                After-mono (λ _. Mine) (λ _. Unchanged host s) Mine (Unchanged host s)
                  (bring_back host uid (some installed) t) (λ _. Stands-Unchanged host s)
                  (Stands-Unchanged host s)
                  (bring_back-Stands host c p b uid (some installed) (λ _. ap is_some e) t h.0)))
          s (refl, refl, λ u k. k)
