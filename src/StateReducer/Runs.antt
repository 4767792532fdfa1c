-- ===== src/StateReducer/Runs.antt =====
-- agent/src/state_reducer.rs: what holds after any sequence of events.
use proton_vpn_omarchy_core.Base.{
  inl, ℕ, String, List, [], ◌∷◌, Option, ◌≡◌, refl, ap, ◌∙◌, arith, str_eq, if-both,
}
use proton_vpn_omarchy_core.Json.{Value}
use proton_vpn_omarchy_core.Protocol.Operation.{OperationState}
use proton_vpn_omarchy_core.Protocol.Snapshot.{StateSnapshot, default_snapshot}
use proton_vpn_omarchy_core.Operations.Registry.{Coordinator, new_coordinator, publish}
use proton_vpn_omarchy_core.Operations.Calls.{Call, stages, step, step_rule}
use proton_vpn_omarchy_core.Operations.Invariant.{IsSound, step-IsSound}
use proton_vpn_omarchy_core.Operations.Runs.{new_coordinator-IsSound}
use proton_vpn_omarchy_core.StateReducer.Events.{reduce, reduce_rule, apply_event, apply_events}
use proton_vpn_omarchy_core.StateReducer.Invariant.{IsConsistent, reduce-IsConsistent}

-- The coordinator's calls do not touch what the events write.
step-IsConsistent :
    (c : Coordinator) (call : Call) → IsConsistent c.state → IsConsistent (step c call).state
unfolding publish
step-IsConsistent c call h =
    step_rule (λ d. IsConsistent d.state) c h (λ test u keeps. published)
      (λ now client method spec free. published) (λ now failure test op found. published) call
  where
    published :
        {operations : OperationState} {revision : ℕ}
        → IsConsistent (record c.state { operations = operations; revision = revision })
    published = record {
      tier_fits = h.tier_fits;
      connection_ok = h.connection_ok;
      features_ok = h.features_ok;
    }

reduce-operations :
    (now : ℕ) (event : String) (v : Value) (s : StateSnapshot)
    → (reduce now event v s).operations ≡ s.operations
reduce-operations now event v s =
    reduce_rule (λ t. t.operations ≡ s.operations) now event v s refl refl refl refl refl refl

-- The snapshot is consistent, and shows a sound registry.
abbrev pub IsWhole : Coordinator → Type 0
IsWhole c = IsConsistent c.state × IsSound c

pub stages-IsWhole : (c : Coordinator) (call : Call) → IsWhole c → IsWhole (step c call)
stages-IsWhole c call (consistent, sound) =
    (step-IsConsistent c call consistent, step-IsSound c call sound)

reduced-IsWhole :
    (now : ℕ) (event : String) (v : Value) (c : Coordinator)
    → IsWhole c
    → IsWhole (record c { state = reduce now event v c.state })
reduced-IsWhole now event v c (consistent, (registry, (active, recent))) =
    let same = reduce-operations now event v c.state in
    (
      reduce-IsConsistent now event v c.state consistent,
      (registry, (ap (λ o. o.active) same ∙ active, ap (λ o. o.recent) same ∙ recent)),
    )

pub apply_event-IsWhole :
    (now : ℕ) (event : String) (v : Value) (c : Coordinator)
    → IsWhole c
    → IsWhole (apply_event now event v c).0
unfolding apply_event step
apply_event-IsWhole now event v c h =
    if-both {A = Coordinator × Option String} (λ r. IsWhole r.0) (str_eq event "operation.stage") _
      _ (stages-IsWhole c (stages now _ _ _) h) (reduced-IsWhole now event v c h)

apply_events-IsWhole_from :
    (events : List (ℕ × String × Value)) (c : Coordinator)
    → IsWhole c
    → IsWhole (apply_events events c)
unfolding apply_events
apply_events-IsWhole_from [] c h = h
apply_events-IsWhole_from ((now, event, v) ∷ events) c h =
    apply_events-IsWhole_from events _ (apply_event-IsWhole now event v c h)

pub default-IsConsistent : IsConsistent default_snapshot
default-IsConsistent = record {
  tier_fits = tt;
  connection_ok = record {
    code_fits = tt;
    load_fits = tt;
    few_conflicts = omega arith;
    dated = λ e. absurd (let no : ⊥ = cc in no);
    undated = λ e. refl;
  };
  features_ok = record {
    netshield_fits = record {
      level_fits = omega arith;
      malware_fits = omega arith;
      ads_fits = omega arith;
      trackers_fits = omega arith;
    };
    dismiss_bounded = inl refl;
    port_fits = tt;
    unknown_unwritable = λ e. refl;
  };
}

-- After any events from the start: a connected tunnel has the time of its start and a disconnected
-- one has none; no more than sixteen conflicting networks are listed; no feature can be written
-- while the features are not known; every number that an event set lies in its field's range, which is
-- from 1 to 300 seconds for a feedback's time; and the snapshot still shows a sound registry of
-- operations.
pub apply_events-IsWhole :
    (events : List (ℕ × String × Value))
    → IsWhole (apply_events events (new_coordinator default_snapshot))
unfolding new_coordinator
apply_events-IsWhole events =
    apply_events-IsWhole_from events (new_coordinator default_snapshot)
      (default-IsConsistent, new_coordinator-IsSound)
