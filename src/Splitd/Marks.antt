-- ===== src/Splitd/Marks.antt =====
-- splitd/src/engine.rs: the kernel's marks and the engine's tracking of processes are in step.
use proton_vpn_omarchy_core.Base.{
  ℕ, ◌==◌, ==_iff, Bool, true, false, ◌&&◌, not, String, List, [], ◌∷◌, none, Bool-cases, inl, inr,
  ◌≡◌, ◌≢◌, refl, ap, subst, ◌∙◌, arith, All, Pairwise, Map, lookup, keys, if◌then◌else◌,
}
use proton_vpn_omarchy_core.Splitd.Config.{SplitConfig}
use proton_vpn_omarchy_core.Splitd.Tracking.{TrackedProcess}
use proton_vpn_omarchy_core.Io.{IoResult, ok, failed, Act, After, Triple, bind-Triple, if-After}
use proton_vpn_omarchy_core.Splitd.Engine.{Host, Inner, set_excluded, is_excluded, unmark, mark}

-- What the kernel does with its map of marked processes: `set_excluded` that succeeds changes one
-- entry, a fresh marker has none, and what is not about marks leaves them.
pub record MarkLaws (host : Host) : Type 0 where
  pub marked : host.World → ℕ → Bool
  pub set_ok :
      (m : host.Marker) (pid : ℕ) (b : Bool) (w : host.World) (q : ℕ)
      → (host.set_excluded m pid b w).1 ≡ ok tt
      → marked (host.set_excluded m pid b w).0 q ≡ (if pid == q then b else marked w q)
  pub attach_ok :
      (w : host.World) (m : host.Marker) (q : ℕ)
      → (host.attach w).1 ≡ ok m
      → marked (host.attach w).0 q ≡ false
  pub detached : (m : host.Marker) (w : host.World) (q : ℕ) → marked (host.detach m w) q ≡ false
  pub sync_same :
      (c : Map SplitConfig) (p : Map (List String)) (m : host.Marker) (w : host.World) (q : ℕ)
      → marked (host.sync_configs c p m w).0.0 q ≡ marked w q
  pub scan_same : (w : host.World) (q : ℕ) → marked (host.scan w).0 q ≡ marked w q
  pub read_same :
      (pid : ℕ) (w : host.World) (q : ℕ) → marked (host.read_process pid w).0 q ≡ marked w q

differ : {b : Bool} → b ≡ true → b ≡ false → ⊥
differ e f = let no : ⊥ = cc in no

module _ (host : Host) (laws : MarkLaws host) where
  open host use {World, Marker}
  open laws use {marked}

  -- Exactly the tracked processes that are excluded are marked, and no process is tracked where there
  -- is no marker.
  pub record IsInStep (s : Inner host) : Type 0 where
    pub marks_fit : (q : ℕ) → marked s.world q ≡ is_excluded host (lookup q s.tracked)
    pub unmarked : s.marker ≡ none → s.tracked ≡ []

  -- An error leaves no promise.
  abbrev pub Lost : Inner host → Type 0
  Lost s = Unit {0}

  abbrev pub Ends :
      {A : Type 0} → (Inner host → Type 0) → Act (Inner host) A → (Inner host → Type 0) → Type 0
  Ends P m Q = Triple P m (λ _. Q) Lost

  module _ (q : ℕ) where
    abbrev pub Shows : Bool → Inner host → Type 0
    Shows b s = marked s.world q ≡ b

    -- The call for another process, and for this one.
    pub set_other :
        (m : Marker) (pid : ℕ) (e b : Bool)
        → (pid == q) ≡ false
        → Ends (Shows b) (set_excluded host m pid e) (Shows b)
    unfolding set_excluded
    set_other m pid e b other s h = ended (host.set_excluded m pid e s.world).1 refl
      where
        ended :
            (r : IoResult (Unit {0}))
            → (host.set_excluded m pid e s.world).1 ≡ r
            → After
                (λ _. Shows b)
                Lost
                (record s { world = (host.set_excluded m pid e s.world).0 }, r)
        ended (failed f) k = tt
        ended (ok u) k = laws.set_ok m pid e s.world q k ∙ rw other h

    pub set_this :
        (m : Marker) (pid : ℕ) (e : Bool)
        → (pid == q) ≡ true
        → Ends Lost (set_excluded host m pid e) (Shows e)
    unfolding set_excluded
    set_this m pid e this s h = ended (host.set_excluded m pid e s.world).1 refl
      where
        ended :
            (r : IoResult (Unit {0}))
            → (host.set_excluded m pid e s.world).1 ≡ r
            → After
                (λ _. Shows e)
                Lost
                (record s { world = (host.set_excluded m pid e s.world).0 }, r)
        ended (failed f) k = tt
        ended (ok u) k = laws.set_ok m pid e s.world q k ∙ rw this refl

    set_same :
        (m : Marker) (pid : ℕ) (b : Bool) → Ends (Shows b) (set_excluded host m pid b) (Shows b)
    set_same m pid b s h = elim (Bool-cases (pid == q)) [
      | inl e ↦ set_this m pid b e s tt
      | inr e ↦ set_other m pid b b e s h
    ]

    set-Lost : (m : Marker) (pid : ℕ) (b : Bool) → Ends Lost (set_excluded host m pid b) Lost
    unfolding set_excluded
    set-Lost m pid b s h = ended (host.set_excluded m pid b s.world).1
      where
        ended :
            (r : IoResult (Unit {0}))
            → After (λ _. Lost) Lost (record s { world = (host.set_excluded m pid b s.world).0 }, r)
        ended (ok u) = tt
        ended (failed f) = tt

    module _ (m : Marker) (next : Map TrackedProcess) where
      -- A process that stays excluded keeps its mark.
      pub unmark-same :
          (ts : Map TrackedProcess) (b : Bool)
          → is_excluded host (lookup q next) ≡ true
          → Ends (Shows b) (unmark host m next ts) (Shows b)
      unfolding unmark
      unmark-same [] b stays = λ s h. h
      unmark-same ((pid, t) ∷ ts) b stays = λ s h.
          if-After (λ _. Shows b) Lost (t.excluded && not (is_excluded host (lookup pid next))) _ _
            s
            (λ c.
              bind-Triple (Shows b) (set_excluded host m pid false) (λ _. Shows b)
                (λ _. unmark host m next ts) (λ _. Shows b) Lost (set_other m pid false b (other c))
                (λ _. unmark-same ts b stays) s h)
            (λ _. unmark-same ts b stays s h)
        where
          clash : (a b : Bool) → (a && not b) ≡ true → b ≡ true → ⊥
          clash a b k l = ground arith

          other :
              (t.excluded && not (is_excluded host (lookup pid next))) ≡ true → (pid == q) ≡ false
          other c = elim (Bool-cases (pid == q)) [
            | inr e ↦ e
            | inl e ↦
                let here =
                  subst (λ k. (t.excluded && not (is_excluded host (lookup k next))) ≡ true)
                    ((==_iff pid q).0 e) c in
                absurd (clash t.excluded (is_excluded host (lookup q next)) here stays)
          ]

      pub unmark-false :
          (ts : Map TrackedProcess) → Ends (Shows false) (unmark host m next ts) (Shows false)
      unfolding unmark
      unmark-false [] = λ s h. h
      unmark-false ((pid, t) ∷ ts) = λ s h.
          if-After (λ _. Shows false) Lost (t.excluded && not (is_excluded host (lookup pid next)))
            _ _ s
            (λ c.
              bind-Triple (Shows false) (set_excluded host m pid false) (λ _. Shows false)
                (λ _. unmark host m next ts) (λ _. Shows false) Lost (set_same m pid false)
                (λ _. unmark-false ts) s h)
            (λ _. unmark-false ts s h)

      -- A process that was excluded and no longer is loses its mark.
      pub unmark-clears :
          (ts : Map TrackedProcess)
          → is_excluded host (lookup q next) ≡ false
          → is_excluded host (lookup q ts) ≡ true
          → Ends Lost (unmark host m next ts) (Shows false)
      unfolding unmark lookup
      unmark-clears [] gone was = absurd (let no : ⊥ = cc in no)
      unmark-clears ((pid, t) ∷ ts) gone was = λ s h. elim (Bool-cases (pid == q)) [
        | inl e ↦
            let was' = rw e at was in
            if-After (λ _. Shows false) Lost
              (t.excluded && not (is_excluded host (lookup pid next))) _ _ s
              (λ c.
                bind-Triple Lost (set_excluded host m pid false) (λ _. Shows false)
                  (λ _. unmark host m next ts) (λ _. Shows false) Lost (set_this m pid false e)
                  (λ _. unmark-false ts) s tt)
              (λ c. absurd (
                missed
                  (subst (λ k. (t.excluded && not (is_excluded host (lookup k next))) ≡ false)
                    ((==_iff pid q).0 e) c)
                  was'))
        | inr e ↦
            if-After (λ _. Shows false) Lost
              (t.excluded && not (is_excluded host (lookup pid next))) _ _ s
              (λ c.
                bind-Triple Lost (set_excluded host m pid false) (λ _. Lost)
                  (λ _. unmark host m next ts) (λ _. Shows false) Lost (set-Lost m pid false)
                  (λ _. unmark-clears ts gone (rw e at was)) s tt)
              (λ c. unmark-clears ts gone (rw e at was) s tt)
      ]
        where
          both : (a b : Bool) → (a && not b) ≡ false → a ≡ true → b ≡ false → ⊥
          both a b k l n = ground arith

          missed :
              (t.excluded && not (is_excluded host (lookup q next))) ≡ false → t.excluded ≡ true → ⊥
          missed k l = both t.excluded (is_excluded host (lookup q next)) k l gone

    lookup-absent : (ts : Map TrackedProcess) → All (λ k. q ≢ k) (keys ts) → lookup q ts ≡ none
    unfolding lookup
    lookup-absent [] h = refl
    lookup-absent ((pid, t) ∷ ts) h = ground (arith, h.0, lookup-absent ts h.1)

    module _ (m : Marker) where
      mark-true : (ts : Map TrackedProcess) → Ends (Shows true) (mark host m ts) (Shows true)
      unfolding mark
      mark-true [] = λ s h. h
      mark-true ((pid, t) ∷ ts) = λ s h.
          if-After (λ _. Shows true) Lost t.excluded _ _ s
            (λ c.
              bind-Triple (Shows true) (set_excluded host m pid true) (λ _. Shows true)
                (λ _. mark host m ts) (λ _. Shows true) Lost (set_same m pid true)
                (λ _. mark-true ts) s h)
            (λ _. mark-true ts s h)

      pub mark-sets :
          (ts : Map TrackedProcess)
          → is_excluded host (lookup q ts) ≡ true
          → Ends Lost (mark host m ts) (Shows true)
      unfolding mark lookup
      mark-sets [] is = absurd (let no : ⊥ = cc in no)
      mark-sets ((pid, t) ∷ ts) is = λ s h. elim (Bool-cases (pid == q)) [
        | inl e ↦
            let this = rw e at is in
            if-After (λ _. Shows true) Lost t.excluded _ _ s
              (λ c.
                bind-Triple Lost (set_excluded host m pid true) (λ _. Shows true)
                  (λ _. mark host m ts) (λ _. Shows true) Lost (set_this m pid true e)
                  (λ _. mark-true ts) s tt)
              (λ c. absurd (differ this c))
        | inr e ↦
            if-After (λ _. Shows true) Lost t.excluded _ _ s
              (λ c.
                bind-Triple Lost (set_excluded host m pid true) (λ _. Lost) (λ _. mark host m ts)
                  (λ _. Shows true) Lost (set-Lost m pid true) (λ _. mark-sets ts (rw e at is)) s
                  tt)
              (λ c. mark-sets ts (rw e at is) s tt)
      ]

      -- A process that is not to be excluded keeps what it has.
      pub mark-same :
          (ts : Map TrackedProcess) (b : Bool)
          → Pairwise ◌≢◌ (keys ts)
          → is_excluded host (lookup q ts) ≡ false
          → Ends (Shows b) (mark host m ts) (Shows b)
      unfolding mark lookup
      mark-same [] b apart is = λ s h. h
      mark-same ((pid, t) ∷ ts) b apart is = λ s h. elim (Bool-cases (pid == q)) [
        | inl e ↦
            let this = rw e at is in
            let rest =
              lookup-absent ts
                (subst (λ k. All (λ j. k ≢ j) (keys ts)) ((==_iff pid q).0 e) apart.0) in
            if-After (λ _. Shows b) Lost t.excluded _ _ s (λ c. absurd (differ c this))
              (λ c. mark-same ts b apart.1 (ap (is_excluded host) rest) s h)
        | inr e ↦
            if-After (λ _. Shows b) Lost t.excluded _ _ s
              (λ c.
                bind-Triple (Shows b) (set_excluded host m pid true) (λ _. Shows b)
                  (λ _. mark host m ts) (λ _. Shows b) Lost (set_other m pid true b e)
                  (λ _. mark-same ts b apart.1 (rw e at is)) s h)
              (λ c. mark-same ts b apart.1 (rw e at is) s h)
      ]
