-- ===== src/Splitd/Remark.antt =====
-- splitd/src/engine.rs: the loops of `reconcile` over the marks bring the kernel in step with a new table.
use proton_vpn_omarchy_core.Base.{
  ℕ, ◌==◌, ==_iff, Bool, true, false, List, [], ◌∷◌, some, Option-cases, Bool-cases, inl, inr, ◌≡◌,
  ◌≢◌, sym, subst, ◌∙◌, All, Pairwise, Map, lookup, insert, keys, if-both,
}
use proton_vpn_omarchy_core.Splitd.Config.{SplitConfig}
use proton_vpn_omarchy_core.Splitd.Tracking.{
  ProcessInfo, TrackedProcess, build_tracking, track, collect,
}
use proton_vpn_omarchy_core.Io.{
  IoResult, ok, failed, Act, ◌>>◌, proceed, change, After, bind-Triple, After-mono,
}
use proton_vpn_omarchy_core.Splitd.Engine.{Host, Inner, is_excluded, unmark, mark, retrack}
use proton_vpn_omarchy_core.Io.{proceed-proceed}
use proton_vpn_omarchy_core.Splitd.Keeps.{unmark-Keeps_free, mark-Keeps_free}
use proton_vpn_omarchy_core.Splitd.Marks.{
  MarkLaws, IsInStep, Lost, Shows, unmark-same, unmark-false, unmark-clears, mark-sets, mark-same,
}

module _ {A : Type 0} where
  keys-insert {κ} :
      (P : ℕ → Type κ) (k : ℕ) (a : A) (m : Map A)
      → All P (keys m)
      → P k
      → All P (keys (insert k a m))
  unfolding insert
  keys-insert P k a [] h p = (p, tt)
  keys-insert P k a ((j, b) ∷ m) h p =
      if-both (λ m. All P (keys m)) (j == k) ((k, a) ∷ m) ((j, b) ∷ insert k a m) (p, h.1)
        (h.0, keys-insert P k a m h.1 p)

  insert-apart :
      (k : ℕ) (a : A) (m : Map A) → Pairwise ◌≢◌ (keys m) → Pairwise ◌≢◌ (keys (insert k a m))
  unfolding insert
  insert-apart k a [] h = (tt, tt)
  insert-apart k a ((j, b) ∷ m) h = elim (Bool-cases (j == k)) [
    | inl e ↦ rw (e, insert) (subst (λ i. All (λ l. i ≢ l) (keys m)) ((==_iff j k).0 e) h.0, h.1)
    | inr e ↦
        rw (e, insert)
          (
            keys-insert (λ l. j ≢ l) k a m h.0 (λ same. contrary e ((==_iff j k).1 same)),
            insert-apart k a m h.1,
          )
  ]
    where
      contrary : {b : Bool} → b ≡ false → b ≡ true → ⊥
      contrary e f = let no : ⊥ = cc in no

  collect-apart :
      (configs : Map SplitConfig) (f : SplitConfig → ProcessInfo → A) (ps : List ProcessInfo)
      (m : Map A)
      → Pairwise ◌≢◌ (keys m)
      → Pairwise ◌≢◌ (keys (collect configs f ps m))
  unfolding collect
  collect-apart configs f [] m h = h
  collect-apart configs f (p ∷ ps) m h = elim (Option-cases (lookup p.uid configs)) [
    | inl e ↦ rw (e, collect) (collect-apart configs f ps m h)
    | inr (c, e) ↦
        rw (e, collect)
          (collect-apart configs f ps (insert p.pid (f c p) m) (insert-apart p.pid (f c p) m h))
  ]

pub build_tracking-apart :
    (configs : Map SplitConfig) (ps : List ProcessInfo)
    → Pairwise ◌≢◌ (keys (build_tracking configs ps))
unfolding build_tracking track
build_tracking-apart configs ps = collect-apart configs _ ps [] tt

module _ (host : Host) (laws : MarkLaws host) where
  open host use {World, Marker}
  open laws use {marked}

  -- What holds for each process holds for all.
  After-each :
      {A : Type 0} (S : ℕ → Inner host → Type 0) (r : Inner host × IoResult A)
      → ((q : ℕ) → After (λ _. S q) (Lost host laws) r)
      → After (λ _ t. (q : ℕ) → S q t) (Lost host laws) r
  After-each S (s, ok a) h = h
  After-each S (s, failed e) h = tt

  After-pair :
      {A : Type 0} (P Q : Inner host → Type 0) (r : Inner host × IoResult A)
      → After (λ _. P) (Lost host laws) r
      → After (λ _. Q) (Lost host laws) r
      → After (λ _ t. P t × Q t) (Lost host laws) r
  After-pair P Q (s, ok a) h k = (h, k)
  After-pair P Q (s, failed e) h k = tt

  module _ (m : Marker) (next : Map TrackedProcess) (apart : Pairwise ◌≢◌ (keys next)) where
    abbrev remark : Map TrackedProcess → Act (Inner host) (Unit {0})
    remark old = do unmark host m next old; mark host m next

    remark-shows :
        (q : ℕ) (s : Inner host)
        → marked s.world q ≡ is_excluded host (lookup q s.tracked)
        → After
            (λ _ t. marked t.world q ≡ is_excluded host (lookup q next))
            (Lost host laws)
            (remark s.tracked s)
    remark-shows q s h =
        let L = Lost host laws in
        let S = Shows host laws q in
        let was = is_excluded host (lookup q s.tracked) in
        elim (Bool-cases (is_excluded host (lookup q next))) [
          | inl stays ↦
              subst (λ b. After (λ _ t. marked t.world q ≡ b) L (remark s.tracked s)) (sym stays)
                (bind-Triple (S was) (unmark host m next s.tracked) (λ _. S was)
                  (λ _. mark host m next) (λ _. S true) L
                  (unmark-same host laws q m next s.tracked was stays)
                  (λ _ t k. mark-sets host laws q m next stays t tt) s h)
          | inr gone ↦
              subst (λ b. After (λ _ t. marked t.world q ≡ b) L (remark s.tracked s)) (sym gone)
                (elim (Bool-cases was) [
                  | inl e ↦
                      bind-Triple L (unmark host m next s.tracked) (λ _. S false)
                        (λ _. mark host m next) (λ _. S false) L
                        (unmark-clears host laws q m next s.tracked gone e)
                        (λ _. mark-same host laws q m next false apart gone) s tt
                  | inr e ↦
                      bind-Triple (S false) (unmark host m next s.tracked) (λ _. S false)
                        (λ _. mark host m next) (λ _. S false) L
                        (unmark-false host laws q m next s.tracked)
                        (λ _. mark-same host laws q m next false apart gone) s (h ∙ e)
                ])
        ]

    remark-marker :
        (s : Inner host)
        → s.marker ≡ some m
        → After (λ _ t. t.marker ≡ some m) (λ t. t.marker ≡ some m) (remark s.tracked s)
    remark-marker s h =
        bind-Triple (λ t. t.marker ≡ some m) (unmark host m next s.tracked)
          (λ _ t. t.marker ≡ some m) (λ _. mark host m next) (λ _ t. t.marker ≡ some m)
          (λ t. t.marker ≡ some m)
          (unmark-Keeps_free host (λ t. t.marker ≡ some m) (λ t w k. k) m next s.tracked)
          (λ _. mark-Keeps_free host (λ t. t.marker ≡ some m) (λ t w k. k) m next) s h

    -- The two loops and the new table bring the kernel in step.
    pub retrack-IsInStep :
        (s : Inner host)
        → IsInStep host laws s
        → s.marker ≡ some m
        → After (λ _. IsInStep host laws) (Lost host laws) (retrack host m next s)
    unfolding retrack
    retrack-IsInStep s h has =
        let L = Lost host laws in
        let Fit =
          λ (t : Inner host). (q : ℕ) → marked t.world q ≡ is_excluded host (lookup q next) in
        let fit =
          After-each (λ q t. marked t.world q ≡ is_excluded host (lookup q next))
            (remark s.tracked s) (λ q. remark-shows q s (h.marks_fit q)) in
        let kept =
          After-mono (λ _ t. t.marker ≡ some m) (λ _ t. t.marker ≡ some m) (λ t. t.marker ≡ some m)
            L (remark s.tracked s) (λ _ t k. k) (λ t k. tt) (remark-marker s has) in
        subst (After (λ _. IsInStep host laws) L)
          (proceed-proceed (unmark host m next s.tracked s) (λ _. mark host m next)
            (λ _. change (λ t. record t { tracked = next })))
          (ended (remark s.tracked s)
            (After-pair Fit (λ t. t.marker ≡ some m) (remark s.tracked s) fit kept))
      where
        ended :
            (r : Inner host × IoResult (Unit {0}))
            → After
                (λ _ t.
                  ((q : ℕ) → marked t.world q ≡ is_excluded host (lookup q next))
                  × (t.marker ≡ some m))
                (Lost host laws)
                r
            → After
                (λ _. IsInStep host laws)
                (Lost host laws)
                (proceed (λ _. change (λ t. record t { tracked = next })) r)
        ended (t, ok _) k = record {
          marks_fit = k.0;
          unmarked = λ e. absurd (let clash = sym k.1 ∙ e in let no : ⊥ = cc in no);
        }
        ended (t, failed e) k = tt
