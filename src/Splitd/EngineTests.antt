-- ===== src/Splitd/EngineTests.antt =====
-- splitd/src/engine.rs: an engine on a host whose state file can be full.
use proton_vpn_omarchy_core.Base.{
  ℕ, ◌==◌, arith, Bool, true, false, String, List, [], ◌∷◌, none, ◌≡◌, refl, lookup, insert, any,
  keep, any_value, if◌then◌else◌,
}
use proton_vpn_omarchy_core.Splitd.Config.{SplitConfig, exclude, has_rules}
use proton_vpn_omarchy_core.Splitd.Tracking.{ProcessInfo, build_tracking, needs_process_tracking}
use proton_vpn_omarchy_core.Io.{ok, failed, other, After}
use proton_vpn_omarchy_core.Splitd.Engine.{Host, Inner, fork}
use proton_vpn_omarchy_core.Splitd.Requests.{
  set_config, clear_config, set_destination_policy, set_kill_switch_bypass,
}
use proton_vpn_omarchy_core.Splitd.Events.{
  Command, configure, switch_bypass, notice, perform_all, handle_event, with_store, loaded,
}
use proton_vpn_omarchy_core.Splitd.Bypass.{Stands}
use proton_vpn_omarchy_core.Splitd.Outcome.{Unchanged}
use proton_vpn_omarchy_core.Splitd.Outcome.SetConfig.{set_config-ConfigSet, ConfigSet}
use proton_vpn_omarchy_core.Splitd.Outcome.ClearConfig.{clear_config-Cleared, Cleared}
use proton_vpn_omarchy_core.Splitd.Outcome.SetPolicy.{set_ranges, set_destination_policy-Stands}
use proton_vpn_omarchy_core.Splitd.Outcome.SetBypass.{set_kill_switch_bypass-BypassSet, BypassSet}
use proton_vpn_omarchy_core.Splitd.Marks.{MarkLaws, IsInStep, Lost}
use proton_vpn_omarchy_core.Splitd.InStep.{reconcile-IsInStep}
use proton_vpn_omarchy_core.Splitd.Follow.{handle_event-IsInStep}
use proton_vpn_omarchy_core.Splitd.Guarded.{IsGuarded, perform_all-IsGuarded}
use proton_vpn_omarchy_core.Base.{not, remove}
use proton_vpn_omarchy_core.Splitd.Engine.{reconcile}
use proton_vpn_omarchy_core.Splitd.Events.{handle_event}

-- The kernel's set of excluded processes, and whether the file can be written.
record Machine : Type 0 where
  excluded : List ℕ
  full : Bool

abbrev browser : ProcessInfo
browser = record { uid = 1000; pid = 10; ppid = 1; identities = "/usr/bin/firefox" ∷ [] }

abbrev machine_host : Host
machine_host = record {
  World = Machine;
  Marker = Unit {0};
  Route = String;
  same_routes = λ a b. false;
  attach = λ w. (record w { excluded = [] }, ok tt);
  detach = λ m w. record w { excluded = [] };
  sync_configs = λ c p m w. ((w, m), ok tt);
  set_excluded = λ m pid e w. (
    record w { excluded = if e then pid ∷ w.excluded else keep (λ k. not (k == pid)) w.excluded },
    ok tt,
  );
  scan = λ w. (w, ok (browser ∷ []));
  read_process = λ pid w. (w, ok browser);
  enable = λ uid routes w. (w, ok routes);
  disable = λ uid routes w. (w, ok tt);
  save = λ c p b w. (
    w,
    if w.full then failed (record { kind = other; message = "no space left on device" }) else ok tt,
  );
}

abbrev firefox : SplitConfig
firefox = record { mode = exclude; app_paths = "/usr/bin/firefox" ∷ []; ip_ranges = [] }

abbrev nothing : SplitConfig
nothing = record { mode = exclude; app_paths = []; ip_ranges = [] }

-- A user with a rule and a bypass, on a machine that is full or not.
abbrev running : Bool → Inner machine_host
running full = record {
  configs = (1000, firefox) ∷ [];
  destination_policies = [];
  marker = none;
  tracked = [];
  kill_switch_bypass = (1000, "eth0" ∷ []) ∷ [];
  world = record { excluded = []; full = full };
}

set_config-ConfigSet_example :
    After
      (λ _. ConfigSet machine_host true 1000 nothing (running true))
      (Unchanged machine_host (running true))
      (set_config machine_host true 1000 nothing (running true))
set_config-ConfigSet_example =
    set_config-ConfigSet machine_host true 1000 nothing (running true)
      (λ e. absurd (let no : ⊥ = cc in no))

clear_config-Cleared_example :
    After
      (λ _. Cleared machine_host true 1000 (running false))
      (Unchanged machine_host (running false))
      (clear_config machine_host true 1000 (running false))
clear_config-Cleared_example =
    clear_config-Cleared machine_host true 1000 (running false)
      (λ e. absurd (let no : ⊥ = cc in no))

set_destination_policy-Stands_example :
    After
      (λ _.
        Stands machine_host
          ((1000, firefox) ∷ [])
          (set_ranges 1001 ("10.0.0.0/8" ∷ []) [])
          ((1000, "eth0" ∷ []) ∷ []))
      (Unchanged machine_host (running false))
      (set_destination_policy machine_host 1001 ("10.0.0.0/8" ∷ []) (running false))
set_destination_policy-Stands_example =
    set_destination_policy-Stands machine_host 1001 ("10.0.0.0/8" ∷ []) (running false)

set_kill_switch_bypass-BypassSet_example :
    After
      (λ _. BypassSet machine_host true 1000 true ("wlan0" ∷ []) (running false))
      (Unchanged machine_host (running false))
      (set_kill_switch_bypass machine_host true 1000 true ("wlan0" ∷ []) (running false))
set_kill_switch_bypass-BypassSet_example =
    set_kill_switch_bypass-BypassSet machine_host true 1000 true ("wlan0" ∷ []) (running false)

abbrev commands : List (Command machine_host)
commands =
    configure 1000 firefox
    ∷ switch_bypass 1000 true ("eth0" ∷ [])
    ∷ notice (fork 10 11)
    ∷ configure 1000 nothing
    ∷ []

abbrev empty_machine : Machine
empty_machine = record { excluded = []; full = false }

perform_all-IsGuarded_example : IsGuarded machine_host true (
    perform_all machine_host true commands
      (with_store machine_host true [] (loaded machine_host [] [] empty_machine)).0)
perform_all-IsGuarded_example =
    perform_all-IsGuarded machine_host true [] [] [] empty_machine commands

open_for_user :
    (perform_all machine_host true
      (configure 1000 firefox ∷ switch_bypass 1000 true ("eth0" ∷ []) ∷ [])
      (with_store machine_host true []
        (loaded machine_host [] [] empty_machine)).0).kill_switch_bypass
    ≡ (1000, "eth0" ∷ []) ∷ []
unfolding perform_all with_store lookup insert has_rules any any_value build_tracking
    needs_process_tracking keep
open_for_user = refl

abbrev is_marked : Machine → ℕ → Bool
is_marked w q = any (λ k. k == q) w.excluded

unmarked-keep :
    (pid q : ℕ) (ks : List ℕ)
    → any (λ k. k == q) (keep (λ k. not (k == pid)) ks)
      ≡ (if pid == q then false else any (λ k. k == q) ks)
unfolding any keep
unmarked-keep pid q [] = ground arith
unmarked-keep pid q (k ∷ ks) = ground (arith, unmarked-keep pid q ks)

mark_laws : MarkLaws machine_host
unfolding any
mark_laws = record {
  marked = is_marked;
  set_ok = set_ok_of;
  attach_ok = λ w m q e. refl;
  detached = λ m w q. refl;
  sync_same = λ c p m w q. refl;
  scan_same = λ w q. refl;
  read_same = λ pid w q. refl;
}
  where
    set_ok_of :
        (m : Unit {0}) (pid : ℕ) (b : Bool) (w : Machine) (q : ℕ)
        → (machine_host.set_excluded m pid b w).1 ≡ ok tt
        → is_marked (machine_host.set_excluded m pid b w).0 q
          ≡ (if pid == q then b else is_marked w q)
    set_ok_of m pid true w q e = ground arith
    set_ok_of m pid false w q e = unmarked-keep pid q w.excluded

abbrev started : Inner machine_host
started = loaded machine_host ((1000, firefox) ∷ []) [] empty_machine

started-IsInStep : IsInStep machine_host mark_laws started
unfolding lookup any mark_laws
started-IsInStep = record { marks_fit = λ q. refl; unmarked = λ e. refl }

reconcile-IsInStep_example :
    After
      (λ _. IsInStep machine_host mark_laws)
      (Lost machine_host mark_laws)
      (reconcile machine_host started)
reconcile-IsInStep_example = reconcile-IsInStep machine_host mark_laws started started-IsInStep

handle_event-IsInStep_example :
    After
      (λ _. IsInStep machine_host mark_laws)
      (Lost machine_host mark_laws)
      (handle_event machine_host (fork 10 11) started)
handle_event-IsInStep_example =
    handle_event-IsInStep machine_host mark_laws (fork 10 11) started started-IsInStep

-- A kernel that takes no mark for process 11, and another user whose rules need no tracking: the
-- configuration that could not be applied is gone again, and process 10 still has its mark.
abbrev tab : ProcessInfo
tab = record { uid = 1000; pid = 11; ppid = 10; identities = [] }

abbrev small_host : Host
small_host = record machine_host {
  scan = λ w. (w, ok (browser ∷ tab ∷ []));
  set_excluded = λ m pid e w.
      if pid == 11
      then (w, failed (record { kind = other; message = "argument list too long" }))
      else machine_host.set_excluded m pid e w;
}

abbrev ranges_only : SplitConfig
ranges_only = record { mode = exclude; app_paths = []; ip_ranges = "10.0.0.0/8" ∷ [] }

abbrev refused : Inner small_host
refused =
    (set_config small_host true 1000 firefox
      (loaded small_host ((1001, ranges_only) ∷ []) [] empty_machine)).0

mark_left_behind :
    (lookup 1000 refused.configs ≡ none)
    × (refused.tracked ≡ [])
    × (refused.world.excluded ≡ 10 ∷ [])
unfolding set_config lookup insert remove has_rules any any_value build_tracking
    needs_process_tracking keep
mark_left_behind = (refl, refl, refl)
