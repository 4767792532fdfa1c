-- ===== src/Operations/Runs.antt =====
-- agent/src/operations.rs: what holds after any sequence of calls.
use proton_vpn_omarchy_core.Base.{◌+◌, ◌<◌, List, [], ◌∷◌, refl, arith, length}
use proton_vpn_omarchy_core.Protocol.Snapshot.{default_snapshot}
use proton_vpn_omarchy_core.Operations.Ids.{u64_mod}
use proton_vpn_omarchy_core.Operations.Registry.{Coordinator, new_coordinator}
use proton_vpn_omarchy_core.Operations.Calls.{Call, step, run}
use proton_vpn_omarchy_core.Operations.Invariant.{IsSound, step-IsSound}
use proton_vpn_omarchy_core.Operations.Identity.{HasOwnIds, step-Advances}

run-IsSound_from : (c : Coordinator) (calls : List Call) → IsSound c → IsSound (run c calls)
unfolding run
run-IsSound_from c [] h = h
run-IsSound_from c (call ∷ calls) h = run-IsSound_from (step c call) calls (step-IsSound c call h)

pub new_coordinator-IsSound : IsSound (new_coordinator default_snapshot)
unfolding new_coordinator
new_coordinator-IsSound =
    (record { exclusive = tt; open_ops = tt; closed_ops = tt; bounded = omega arith }, (refl, refl))

-- After any calls on a new coordinator, no two active operations stand in conflicting domains, each
-- active operation is running with no end, each recent one has an outcome and an end and cannot be
-- cancelled, at most sixteen are recent, and the snapshot shows both lists.
pub run-IsSound : (calls : List Call) → IsSound (run (new_coordinator default_snapshot) calls)
run-IsSound calls = run-IsSound_from _ calls new_coordinator-IsSound

run-HasOwnIds_from :
    (c : Coordinator) (calls : List Call)
    → c.registry.next_id + length calls < u64_mod
    → HasOwnIds c.registry
    → HasOwnIds (run c calls).registry
unfolding run
run-HasOwnIds_from c [] room h = h
run-HasOwnIds_from c (call ∷ calls) room h =
    let next = step-Advances c call (omega arith) h in
    run-HasOwnIds_from (step c call) calls (omega (arith, next.used)) next.own_ids

new_coordinator-HasOwnIds : HasOwnIds (new_coordinator default_snapshot).registry
unfolding new_coordinator
new_coordinator-HasOwnIds = record { issued = tt; distinct = tt }

-- After fewer than 2^64 - 1 calls on a new coordinator, every active operation has an identifier
-- that the coordinator made from a number below its counter, and no two have the same.
pub run-HasOwnIds :
    (calls : List Call)
    → length calls + 1 < u64_mod
    → HasOwnIds (run (new_coordinator default_snapshot) calls).registry
unfolding new_coordinator
run-HasOwnIds calls room =
    run-HasOwnIds_from (new_coordinator default_snapshot) calls (omega arith)
      new_coordinator-HasOwnIds
