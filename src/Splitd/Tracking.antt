-- ===== src/Splitd/Tracking.antt =====
-- splitd/src/engine.rs: which processes are tracked, and whether their traffic goes outside the
-- tunnel.
use proton_vpn_omarchy_core.Base.{
  ℕ, zero, suc, Bool, true, false, ◌&&◌, ◌||◌, not, String, List, [], ◌∷◌, Option, none, some,
  length, Map, lookup, insert, if_some, unwrap_or, if◌then◌else◌,
}
use proton_vpn_omarchy_core.Splitd.Config.{
  SplitMode, exclude, include, SplitConfig, matches, excludes, has_app_rules, has_rules,
}

-- `ProcessInfo` of splitd/src/procfs.rs.
pub record ProcessInfo : Type 0 where
  pub uid : ℕ
  pub pid : ℕ
  pub ppid : ℕ
  pub identities : List String

pub record TrackedProcess : Type 0 where
  pub uid : ℕ
  pub matched : Bool
  pub excluded : Bool

abbrev pub is_value : Bool → Option Bool → Bool
is_value b none = false
is_value true (some c) = c
is_value false (some c) = not c

-- `filter_map` and `collect`: an entry for each process of a configured user. A process identifier
-- that stands twice has the entry of its last process.
unfoldable pub collect :
    {A : Type 0}
    → Map SplitConfig
    → (SplitConfig → ProcessInfo → A)
    → List ProcessInfo
    → Map A
    → Map A
unfolding lookup insert
collect configs f [] m = m
collect configs f (p ∷ ps) m =
    collect configs f ps (if_some (lookup p.uid configs) (λ c. insert p.pid (f c p) m) m)

-- The processes that are matched by their own identities.
unfoldable pub own_matches : Map SplitConfig → List ProcessInfo → Map Bool
unfolding collect matches
own_matches configs ps = collect configs (λ c p. matches c p.identities) ps []

-- The inner loop: a child of a matched process becomes matched; and whether any did.
unfoldable pub inherits : Map Bool → ProcessInfo → Bool
unfolding lookup
inherits m p = is_value false (lookup p.pid m) && is_value true (lookup p.ppid m)

unfoldable pub inherit : Map Bool → ProcessInfo → Map Bool
unfolding inherits insert
inherit m p = if inherits m p then insert p.pid true m else m

unfoldable pub sweep : List ProcessInfo → Map Bool → Bool → Map Bool × Bool
unfolding inherit
sweep [] m changed = (m, changed)
sweep (p ∷ ps) m changed = sweep ps (inherit m p) (changed || inherits m p)

-- The outer loop, a round for each process, which stops once a round changes nothing.
unfoldable pub rounds : ℕ → List ProcessInfo → Map Bool → Map Bool
unfolding sweep
rounds zero ps m = m
rounds (suc n) ps m =
    let swept = sweep ps m false in elim swept.1 [ true ↦ rounds n ps swept.0 | false ↦ swept.0 ]

unfoldable pub tracked_process : SplitConfig → ℕ → Bool → TrackedProcess
unfolding excludes
tracked_process c uid matched = record {
  uid = uid;
  matched = matched;
  excluded = excludes c matched;
}

unfoldable pub track : Map SplitConfig → Map Bool → List ProcessInfo → Map TrackedProcess
unfolding collect tracked_process
track configs m ps =
    collect configs (λ c p. tracked_process c p.uid (unwrap_or (lookup p.pid m) false)) ps []

unfoldable pub all_matches : Map SplitConfig → List ProcessInfo → Map Bool
unfolding own_matches rounds
all_matches configs ps = rounds (length ps) ps (own_matches configs ps)

unfoldable pub build_tracking : Map SplitConfig → List ProcessInfo → Map TrackedProcess
unfolding all_matches track
build_tracking configs ps = track configs (all_matches configs ps) ps

abbrev is_include : SplitMode → Bool
is_include include = true
is_include exclude = false

unfoldable pub needs_process_tracking : SplitConfig → Bool
unfolding has_app_rules has_rules
needs_process_tracking c = has_app_rules c || (is_include c.mode && has_rules c)
