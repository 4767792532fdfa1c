-- ===== src/Splitd/Rounds.antt =====
-- splitd/src/engine.rs: the rounds of `build_tracking` come to an end at which no process is left that
-- would inherit a match.
use mathlib.Core.List.Memᴰ.{head, tail}
use proton_vpn_omarchy_core.Base.{
  ℕ, zero, suc, ◌+◌, ◌≤◌, Bool, true, false, ◌||◌, List, [], ◌∷◌, Memᴰ, some, ◌≡◌, refl, sym, ap,
  subst, ◌∙◌, inl, inr, arith, length, All, Map, lookup, insert, Bool-cases, Option-cases,
}
use proton_vpn_omarchy_core.Splitd.Config.{SplitConfig}
use proton_vpn_omarchy_core.Splitd.Tracking.{
  ProcessInfo, is_value, inherits, inherit, sweep, rounds, collect,
}

-- What the insertions of the loop keep, the loop keeps.
module _ (P : Map Bool → Type 0) (all : List ProcessInfo)
    (keeps : (p : ProcessInfo) (m : Map Bool)
      → Memᴰ p all
      → inherits m p ≡ true
      → P m
      → P (insert p.pid true m)) where
  inherit_rule : (p : ProcessInfo) (m : Map Bool) → Memᴰ p all → P m → P (inherit m p)
  unfolding inherit
  inherit_rule p m mem h = elim (Bool-cases (inherits m p)) [
    | inl e ↦ rw (e, inherit) (keeps p m mem e h)
    | inr e ↦ rw (e, inherit) h
  ]

  sweep_rule :
      (ps : List ProcessInfo) (m : Map Bool) (changed : Bool)
      → ((p : ProcessInfo) → Memᴰ p ps → Memᴰ p all)
      → P m
      → P (sweep ps m changed).0
  unfolding sweep
  sweep_rule [] m changed sub h = h
  sweep_rule (p ∷ ps) m changed sub h =
      sweep_rule ps (inherit m p) (changed || inherits m p) (λ q mem. sub q (tail mem))
        (inherit_rule p m (sub p (head refl)) h)

  pub rounds_rule : (n : ℕ) (m : Map Bool) → P m → P (rounds n all m)
  unfolding rounds
  rounds_rule zero m h = h
  rounds_rule (suc n) m h =
      let swept = sweep_rule all m false (λ q mem. mem) h in
      elim (Bool-cases (sweep all m false).1) [
        | inl e ↦ rw (e, rounds) (rounds_rule n (sweep all m false).0 swept)
        | inr e ↦ rw (e, rounds) swept
      ]

-- How many processes are not matched.
unfoldable pub unmatched : Map Bool → ℕ
unmatched [] = 0
unmatched ((k, true) ∷ m) = unmatched m
unmatched ((k, false) ∷ m) = suc (unmatched m)

unmatched-insert : (k : ℕ) (b : Bool) (m : Map Bool) → unmatched (insert k b m) ≤ suc (unmatched m)
unfolding unmatched insert
unmatched-insert k true [] = omega arith
unmatched-insert k false [] = omega arith
unmatched-insert k true ((j, true) ∷ m) = ground (arith, unmatched-insert k true m)
unmatched-insert k false ((j, true) ∷ m) = ground (arith, unmatched-insert k false m)
unmatched-insert k true ((j, false) ∷ m) = ground (arith, unmatched-insert k true m)
unmatched-insert k false ((j, false) ∷ m) = ground (arith, unmatched-insert k false m)

unmatched-insert-true :
    (k : ℕ) (m : Map Bool)
    → lookup k m ≡ some false
    → suc (unmatched (insert k true m)) ≡ unmatched m
unfolding unmatched insert lookup
unmatched-insert-true k [] h = cc
unmatched-insert-true k ((j, true) ∷ m) h = ground (arith, unmatched-insert-true k m)
unmatched-insert-true k ((j, false) ∷ m) h = ground (arith, unmatched-insert-true k m)

lookup-of_unmatched : (k : ℕ) (m : Map Bool) → unmatched m ≡ 0 → is_value false (lookup k m) ≡ false
unfolding unmatched lookup
lookup-of_unmatched k [] h = refl
lookup-of_unmatched k ((j, true) ∷ m) h = ground (arith, lookup-of_unmatched k m)
lookup-of_unmatched k ((j, false) ∷ m) h = ground arith

pub inherits-lookup :
    (m : Map Bool) (p : ProcessInfo)
    → inherits m p ≡ true
    → (lookup p.pid m ≡ some false) × (lookup p.ppid m ≡ some true)
unfolding inherits
inherits-lookup m p h = ground arith

unmatched-inherit :
    (p : ProcessInfo) (m : Map Bool)
    → inherits m p ≡ true
    → suc (unmatched (inherit m p)) ≡ unmatched m
unfolding inherit
unmatched-inherit p m h = rw (h, inherit) (unmatched-insert-true p.pid m (inherits-lookup m p h).0)

inherit-idle : (p : ProcessInfo) (m : Map Bool) → inherits m p ≡ false → inherit m p ≡ m
unfolding inherit
inherit-idle p m h = rw (h, inherit) refl

or_false : (a b : Bool) → (a || b) ≡ false → (a ≡ false) × (b ≡ false)
or_false a b h = ground arith

sweep-shrinks :
    (ps : List ProcessInfo) (m : Map Bool) (changed : Bool)
    → (unmatched (sweep ps m changed).0 ≤ unmatched m)
      × ((sweep ps m changed).1 ≡ true
          → changed ≡ false
          → suc (unmatched (sweep ps m changed).0) ≤ unmatched m)
unfolding sweep
sweep-shrinks [] m changed = (omega arith, λ e f. absurd (let no : ⊥ = cc in no))
sweep-shrinks (p ∷ ps) m changed = elim (Bool-cases (inherits m p)) [
  | inl e ↦
      let rest = sweep-shrinks ps (inherit m p) (changed || inherits m p) in
      let less = unmatched-inherit p m e in
      (omega (arith, rest.0, less), λ t f. omega (arith, rest.0, less))
  | inr e ↦
      let rest = sweep-shrinks ps (inherit m p) (changed || inherits m p) in
      let same = ap unmatched (inherit-idle p m e) in
      (
        omega (arith, rest.0, same),
        (λ t f. let more = rest.1 t (rw (f, e) refl) in omega (arith, more, same)),
      )
]

sweep-settled :
    (ps : List ProcessInfo) (m : Map Bool) (changed : Bool)
    → (sweep ps m changed).1 ≡ false
    → (changed ≡ false) × ((sweep ps m changed).0 ≡ m) × All (λ p. inherits m p ≡ false) ps
unfolding sweep
sweep-settled [] m changed h = (h, refl, tt)
sweep-settled (p ∷ ps) m changed h =
    let rest = sweep-settled ps (inherit m p) (changed || inherits m p) h in
    let idle = or_false changed (inherits m p) rest.0 in
    let same = inherit-idle p m idle.1 in
    (idle.0, rest.1 ∙ same, (idle.1, subst (λ n. All (λ q. inherits n q ≡ false) ps) same rest.2))

-- Once the rounds are as many as the processes that are not matched, no process is left that would
-- inherit.
pub rounds-settled :
    (n : ℕ) (ps : List ProcessInfo) (m : Map Bool)
    → unmatched m ≤ n
    → All (λ p. inherits (rounds n ps m) p ≡ false) ps
unfolding rounds inherits
rounds-settled zero ps m h = all_of ps
  where
    all_of : (qs : List ProcessInfo) → All (λ p. inherits m p ≡ false) qs
    all_of [] = tt
    all_of (q ∷ qs) = (rw (lookup-of_unmatched q.pid m (omega (arith, h))) refl, all_of qs)
rounds-settled (suc n) ps m h = elim (Bool-cases (sweep ps m false).1) [
  | inl e ↦
      rw (e, rounds)
        (rounds-settled n ps (sweep ps m false).0
          (let less = (sweep-shrinks ps m false).1 e refl in omega (arith, less, h)))
  | inr e ↦
      let settled = sweep-settled ps m false e in
      rw (e, rounds) (subst (λ k. All (λ p. inherits k p ≡ false) ps) (sym settled.1) settled.2)
]

pub unmatched-collect :
    (configs : Map SplitConfig) (f : SplitConfig → ProcessInfo → Bool) (ps : List ProcessInfo)
    (m : Map Bool)
    → unmatched (collect configs f ps m) ≤ unmatched m + length ps
unfolding collect
unmatched-collect configs f [] m = omega arith
unmatched-collect configs f (p ∷ ps) m = elim (Option-cases (lookup p.uid configs)) [
  | inl e ↦ rw (e, collect) (omega (arith, unmatched-collect configs f ps m))
  | inr (c, e) ↦
      rw (e, collect)
        (omega (
          arith,
          unmatched-collect configs f ps (insert p.pid (f c p) m),
          unmatched-insert p.pid (f c p) m,
        ))
]
