-- ===== src/Splitd/Propagation.antt =====
-- splitd/src/engine.rs: the rounds of `build_tracking` reach every descendant of a matched process.
use proton_vpn_omarchy_core.Base.{
  ℕ, ◌==◌, ==_iff, Bool, true, false, ◌&&◌, List, [], Memᴰ, Option, none, some, ◌≡◌, ◌↔◌, refl, sym,
  ap, subst, ◌∙◌, inl, inr, arith, length, All, All-Memᴰ, Map, lookup, insert, lookup-insert,
  is_some, if-both, Bool-cases,
}
use proton_vpn_omarchy_core.Splitd.Config.{SplitConfig, matches}
use proton_vpn_omarchy_core.Splitd.Tracking.{
  ProcessInfo, is_value, inherits, rounds, own_matches, all_matches,
}
use proton_vpn_omarchy_core.Splitd.Rounds.{
  rounds_rule, unmatched, unmatched-collect, rounds-settled, inherits-lookup,
}

module _ (seeds : Map Bool) (ps : List ProcessInfo) where
  -- A tracked process that its own identities match, or whose parent is matched.
  pub data IsMatched : ℕ → Type 0 where
    own : {k : ℕ} → lookup k seeds ≡ some true → IsMatched k
    inherited :
        (p : ProcessInfo)
        → Memᴰ p ps
        → is_some (lookup p.pid seeds) ≡ true
        → IsMatched p.ppid
        → IsMatched p.pid

module _ (seeds : Map Bool) (ps : List ProcessInfo) where
  -- Only matched processes are marked, the same processes are listed, and a mark stays.
  Sound : Map Bool → Type 0
  Sound m =
      ((k : ℕ) → lookup k m ≡ some true → IsMatched seeds ps k)
      × ((k : ℕ) → is_some (lookup k m) ≡ is_some (lookup k seeds))
      × ((k : ℕ) → lookup k seeds ≡ some true → lookup k m ≡ some true)

  insert-Sound :
      (p : ProcessInfo) (m : Map Bool)
      → Memᴰ p ps
      → inherits m p ≡ true
      → Sound m
      → Sound (insert p.pid true m)
  unfolding Sound
  insert-Sound p m mem e (marked, listed, stays) =
      let hit = inherits-lookup m p e in
      let at = λ (k : ℕ). lookup-insert p.pid k true m in
      let here = listed p.pid in
      let tracked : is_some (lookup p.pid seeds) ≡ true = sym here ∙ ap is_some hit.0 in
      (
        (λ k h. elim (Bool-cases (p.pid == k)) [
          | inl f ↦
              subst (IsMatched seeds ps) ((==_iff p.pid k).0 f)
                (inherited p mem tracked (marked p.ppid hit.1))
          | inr f ↦ marked k (sym (at k ∙ (rw f refl)) ∙ h)
        ]),
        (λ k. elim (Bool-cases (p.pid == k)) [
          | inl f ↦
              let same = (==_iff p.pid k).0 f in
              ap is_some (at k)
              ∙ rw f (sym (subst (λ j. is_some (lookup j seeds) ≡ true) same tracked))
          | inr f ↦ ap is_some (at k) ∙ rw f (listed k)
        ]),
        (λ k h. at k ∙ if-both (λ o. o ≡ some true) (p.pid == k) _ _ refl (stays k h)),
      )

  rounds-Sound : (n : ℕ) → Sound (rounds n ps seeds)
  unfolding Sound
  rounds-Sound n =
      rounds_rule Sound ps insert-Sound n seeds ((λ k h. own h), (λ k. refl), (λ k h. h))

  unblocked :
      (o : Option Bool)
      → (is_value false o && is_value true (some true)) ≡ false
      → is_some o ≡ true
      → o ≡ some true
  unblocked none h k = cc
  unblocked (some true) h k = refl
  unblocked (some false) h k = cc

  reached :
      (m : Map Bool)
      → Sound m
      → All (λ p. inherits m p ≡ false) ps
      → (k : ℕ) → IsMatched seeds ps k
      → lookup k m ≡ some true
  unfolding Sound inherits
  reached m (marked, listed, stays) idle k (own h) = stays k h
  reached m (marked, listed, stays) idle k (inherited p mem h up) =
      let parent = reached m (marked, listed, stays) idle p.ppid up in
      let still = All-Memᴰ (λ q. inherits m q ≡ false) ps p idle mem in
      unblocked (lookup p.pid m)
        (subst (λ o. (is_value false (lookup p.pid m) && is_value true o) ≡ false) parent still)
        (listed p.pid ∙ h)

-- The rounds mark exactly the processes that a configuration matches, and their descendants that
-- are tracked; a round for each process is enough.
pub all_matches_lem :
    (configs : Map SplitConfig) (ps : List ProcessInfo) (k : ℕ)
    → (lookup k (all_matches configs ps) ≡ some true) ↔ IsMatched (own_matches configs ps) ps k
unfolding all_matches own_matches Sound unmatched
all_matches_lem configs ps k =
    let seeds = own_matches configs ps in
    let final = rounds (length ps) ps seeds in
    let sound = rounds-Sound seeds ps (length ps) in
    let idle =
      rounds-settled (length ps) ps seeds
        (omega (arith, unmatched-collect configs (λ c p. matches c p.identities) ps [])) in
    (sound.0 k, reached seeds ps final sound idle k)
