-- ===== src/Splitd/Descent.antt =====
-- splitd/src/engine.rs: what `build_tracking` says of a process, by its configuration and its
-- ancestors.
use mathlib.Core.List.Memᴰ.{head, tail}
use proton_vpn_omarchy_core.Base.{
  ℕ, ◌==◌, ==_iff, Bool, true, false, List, [], ◌∷◌, Memᴰ, Option, none, some, ◌≡◌, ◌≢◌, ◌↔◌, ◌⊎◌,
  refl, sym, ap, subst, ◌∙◌, inl, inr, arith, any, All, All-Memᴰ, Pairwise, Map, lookup, insert,
  lookup-insert, if_some, is_some, map_some, unwrap_or, Bool-cases, Option-cases,
}
use proton_vpn_omarchy_core.Splitd.Config.{SplitConfig, include, matches, excludes, is_own_process}
use proton_vpn_omarchy_core.Splitd.Tracking.{
  ProcessInfo, collect, own_matches, all_matches, track, tracked_process, build_tracking,
}
use proton_vpn_omarchy_core.Splitd.Propagation.{IsMatched, own, inherited, all_matches_lem}

-- The kernel gives no two processes the same identifier.
abbrev pub HasOwnPids : List ProcessInfo → Type 0
HasOwnPids ps = Pairwise (λ p q. p.pid ≢ q.pid) ps

module _ {A : Type 0} (configs : Map SplitConfig) (f : SplitConfig → ProcessInfo → A) where
  abbrev add : ProcessInfo → Map A → Map A
  add p m = if_some (lookup p.uid configs) (λ c. insert p.pid (f c p) m) m

  lookup-add_other :
      (p : ProcessInfo) (m : Map A) (k : ℕ) → p.pid ≢ k → lookup k (add p m) ≡ lookup k m
  lookup-add_other p m k ne = elim (Option-cases (lookup p.uid configs)) [
    | inl e ↦ rw e refl
    | inr (c, e) ↦ rw e (lookup-insert p.pid k (f c p) m ∙ (ground arith))
  ]

  lookup-add :
      (p : ProcessInfo) (m : Map A)
      → lookup p.pid m ≡ none
      → lookup p.pid (add p m) ≡ map_some (λ c. f c p) (lookup p.uid configs)
  lookup-add p m h = elim (Option-cases (lookup p.uid configs)) [
    | inl e ↦ rw e h
    | inr (c, e) ↦ rw e (lookup-insert p.pid p.pid (f c p) m ∙ (ground arith))
  ]

  lookup-collect_other :
      (ps : List ProcessInfo) (m : Map A) (k : ℕ)
      → All (λ p. k ≢ p.pid) ps
      → lookup k (collect configs f ps m) ≡ lookup k m
  unfolding collect
  lookup-collect_other [] m k h = refl
  lookup-collect_other (p ∷ ps) m k h =
      lookup-collect_other ps (add p m) k h.1 ∙ lookup-add_other p m k (λ e. h.0 (sym e))

  -- A process has the entry that its own record makes.
  lookup-collect :
      (ps : List ProcessInfo) (m : Map A) (p : ProcessInfo)
      → HasOwnPids ps
      → Memᴰ p ps
      → lookup p.pid m ≡ none
      → lookup p.pid (collect configs f ps m) ≡ map_some (λ c. f c p) (lookup p.uid configs)
  unfolding collect
  lookup-collect [] m p apart mem h = elim mem [ ]
  lookup-collect (q ∷ qs) m p apart (head e) h =
      lookup-collect_other qs (add q m) p.pid
        (subst (λ r. All (λ s. r.pid ≢ s.pid) qs) (sym e) apart.0)
      ∙ subst (λ r. lookup p.pid (add r m) ≡ map_some (λ c. f c p) (lookup p.uid configs)) e
          (lookup-add p m h)
  lookup-collect (q ∷ qs) m p apart (tail mem) h =
      lookup-collect qs (add q m) p apart.1 mem
        (lookup-add_other q m p.pid (All-Memᴰ (λ r. q.pid ≢ r.pid) qs p apart.0 mem) ∙ h)

module _ (configs : Map SplitConfig) (ps : List ProcessInfo) where
  -- A process that its user's rules match, or whose parent is such a process.
  pub data IsDescendant : ProcessInfo → Type 0 where
    direct :
        {p : ProcessInfo} {c : SplitConfig}
        → Memᴰ p ps
        → lookup p.uid configs ≡ some c
        → matches c p.identities ≡ true
        → IsDescendant p
    child :
        {p q : ProcessInfo} {c : SplitConfig}
        → Memᴰ p ps
        → lookup p.uid configs ≡ some c
        → p.ppid ≡ q.pid
        → IsDescendant q
        → IsDescendant p

  own_matches-lookup :
      (p : ProcessInfo)
      → HasOwnPids ps
      → Memᴰ p ps
      → lookup p.pid (own_matches configs ps)
        ≡ map_some (λ c. matches c p.identities) (lookup p.uid configs)
  unfolding own_matches lookup
  own_matches-lookup p apart mem =
      lookup-collect configs (λ c q. matches c q.identities) ps [] p apart mem refl

  IsMatched-of_descendant :
      (p : ProcessInfo)
      → HasOwnPids ps
      → IsDescendant p
      → IsMatched (own_matches configs ps) ps p.pid
  IsMatched-of_descendant p apart (direct {c = c} mem e h) =
      own (own_matches-lookup p apart mem ∙ (rw (e, h) refl))
  IsMatched-of_descendant p apart (child {q = q} {c = c} mem e up d) =
      inherited p mem (ap is_some (own_matches-lookup p apart mem) ∙ (rw e refl))
        (subst (IsMatched (own_matches configs ps) ps) (sym up) (IsMatched-of_descendant q apart d))

same-process :
    (ps : List ProcessInfo) (p q : ProcessInfo)
    → HasOwnPids ps
    → Memᴰ p ps
    → Memᴰ q ps
    → p.pid ≡ q.pid
    → p ≡ q
same-process [] p q apart m n e = elim m [ ]
same-process (r ∷ rs) p q apart (head e) (head f) g = e ∙ sym f
same-process (r ∷ rs) p q apart (head e) (tail n) g =
    absurd (All-Memᴰ (λ s. r.pid ≢ s.pid) rs q apart.0 n (ap (λ s. s.pid) (sym e) ∙ g))
same-process (r ∷ rs) p q apart (tail m) (head f) g =
    absurd (All-Memᴰ (λ s. r.pid ≢ s.pid) rs p apart.0 m (ap (λ s. s.pid) (sym f) ∙ sym g))
same-process (r ∷ rs) p q apart (tail m) (tail n) g = same-process rs p q apart.1 m n g

module _ {A : Type 0} (configs : Map SplitConfig) (f : SplitConfig → ProcessInfo → A) where
  -- The process and the configuration that an entry comes from.
  Source : List ProcessInfo → ℕ → A → Type 0
  Source ps k a =
      (p : ProcessInfo) × (c : SplitConfig) × Memᴰ p ps
      × (p.pid ≡ k)
      × (lookup p.uid configs ≡ some c)
      × (f c p ≡ a)

  add-Source :
      (q : ProcessInfo) (qs : List ProcessInfo) (m : Map A) (k : ℕ) (a : A)
      → lookup k (add configs f q m) ≡ some a
      → (lookup k m ≡ some a) ⊎ Source (q ∷ qs) k a
  unfolding Source
  add-Source q qs m k a h = elim (Option-cases (lookup q.uid configs)) [
    | inl e ↦ inl (rw e at h)
    | inr (c, e) ↦
        let found = sym (lookup-insert q.pid k (f c q) m) ∙ (rw e at h) in
        elim (Bool-cases (q.pid == k)) [
          | inl g ↦
              let here = rw g at found in
              let same : f c q ≡ a = cc in inr (q, c, head refl, (==_iff q.pid k).0 g, e, same)
          | inr g ↦ inl (rw g at found)
        ]
  ]

  collect-Source :
      (ps : List ProcessInfo) (m : Map A) (k : ℕ) (a : A)
      → lookup k (collect configs f ps m) ≡ some a
      → (lookup k m ≡ some a) ⊎ Source ps k a
  unfolding collect Source
  collect-Source [] m k a h = inl h
  collect-Source (q ∷ qs) m k a h = elim (collect-Source qs (add configs f q m) k a h) [
    | inl e ↦ add-Source q qs m k a e
    | inr (p, c, mem, same, e, hit) ↦ inr (p, c, tail mem, same, e, hit)
  ]

module _ (configs : Map SplitConfig) (ps : List ProcessInfo) (apart : HasOwnPids ps) where
  IsDescendant-of_matched :
      (k : ℕ)
      → IsMatched (own_matches configs ps) ps k
      → (p : ProcessInfo) × (p.pid ≡ k) × IsDescendant configs ps p
  unfolding own_matches Source
  IsDescendant-of_matched k (own h) =
      elim (collect-Source configs (λ c p. matches c p.identities) ps [] k true h) [
        | inl e ↦ absurd (let no : ⊥ = cc in no)
        | inr (p, c, mem, same, e, hit) ↦ (p, same, direct mem e hit)
      ]
  IsDescendant-of_matched k (inherited p mem h up) =
      let parent = IsDescendant-of_matched p.ppid up in
      elim (Option-cases (lookup p.uid configs)) [
        | inl e ↦ absurd (
            unlisted
              (ap is_some (
                own_matches-lookup configs ps p apart mem
                ∙ ap (map_some (λ c. matches c p.identities)) e))
              h)
        | inr (c, e) ↦ (p, refl, child mem e (sym parent.1) parent.2)
      ]
    where
      unlisted : {b : Bool} → b ≡ false → b ≡ true → ⊥
      unlisted e f = let no : ⊥ = cc in no

  IsDescendant-listed : (p : ProcessInfo) → IsDescendant configs ps p → Memᴰ p ps
  IsDescendant-listed p (direct mem e h) = mem
  IsDescendant-listed p (child mem e up d) = mem

  all_matches-IsDescendant :
      (p : ProcessInfo)
      → Memᴰ p ps
      → (lookup p.pid (all_matches configs ps) ≡ some true) ↔ IsDescendant configs ps p
  all_matches-IsDescendant p mem =
      let matched = all_matches_lem configs ps p.pid in
      (
        (λ h.
            let found = IsDescendant-of_matched p.pid (matched.0 h) in
            subst (IsDescendant configs ps)
              (same-process ps found.0 p apart (IsDescendant-listed found.0 found.2) mem found.1)
              found.2),
        (λ d. matched.1 (IsMatched-of_descendant configs ps p apart d)),
      )

  -- What `build_tracking` says of a process, when no two processes have one identifier: nothing if its
  -- user has no configuration, and else that it is matched exactly if its user's rules match it or its
  -- parent is such a process in turn.
  pub build_tracking_lem :
      (p : ProcessInfo)
      → Memᴰ p ps
      → (matched : Bool) × (lookup p.pid (build_tracking configs ps)
          ≡ map_some (λ c. tracked_process c p.uid matched) (lookup p.uid configs))
        × ((matched ≡ true) ↔ IsDescendant configs ps p)
  unfolding build_tracking track
  build_tracking_lem p mem =
      let m = all_matches configs ps in
      (
        unwrap_or (lookup p.pid m) false,
        lookup-collect configs (λ c q. tracked_process c q.uid (unwrap_or (lookup q.pid m) false))
            ps [] p apart mem refl,
        (
          (λ h. (all_matches-IsDescendant p mem).0 (is_set (lookup p.pid m) h)),
          (λ d. ap (λ o. unwrap_or o false) ((all_matches-IsDescendant p mem).1 d)),
        ),
      )
    where
      is_set : (o : Option Bool) → unwrap_or o false ≡ true → o ≡ some true
      is_set none h = cc
      is_set (some b) h = ap some h

  -- In include mode the agent's and the application's own processes stay in the tunnel:
  -- `build_tracking` lists each as matched and not excluded, when no two processes have one identifier.
  pub own_process_stays :
      (p : ProcessInfo) (c : SplitConfig)
      → Memᴰ p ps
      → lookup p.uid configs ≡ some c
      → c.mode ≡ include
      → any is_own_process p.identities ≡ true
      → lookup p.pid (build_tracking configs ps)
        ≡ some (record { uid = p.uid; matched = true; excluded = false })
  unfolding matches tracked_process excludes
  own_process_stays p c mem e mode hit =
      let tracked = build_tracking_lem p mem in
      let matched = tracked.2.1 (direct mem e (rw (mode, hit) refl)) in
      tracked.1 ∙ (rw (e, matched, mode) refl)
