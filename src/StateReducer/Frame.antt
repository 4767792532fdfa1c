-- ===== src/StateReducer/Frame.antt =====
-- agent/src/state_reducer.rs: what an event leaves alone, and the same event twice.
use proton_vpn_omarchy_core.Base.{
  ℕ, ◌+◌, ◌%◌, true, String, List, [], ◌∷◌, Option, ◌≡◌, inl, inr, arith, and_then, is_one_of,
  Option-cases,
}
use proton_vpn_omarchy_core.Json.{Value, as_array, member}
use proton_vpn_omarchy_core.Protocol.Connection.{ConnectionStatus, ConnectionState}
use proton_vpn_omarchy_core.Protocol.Snapshot.{StateSnapshot}
use proton_vpn_omarchy_core.Operations.Ids.{u64_mod}
use proton_vpn_omarchy_core.StateReducer.Connection.{
  reduce_connection, reduce_connected_at, reduce_conflicts,
}
use proton_vpn_omarchy_core.StateReducer.Events.{reduce}

abbrev pub reducer_events : List String
reducer_events = "backend" ∷ "account" ∷ "device_location" ∷ "features" ∷ "connection" ∷ []

-- An event that the reducer knows raises the revision by one, modulo 2^64, and leaves the registry
-- and the parts of the snapshot that other components own as they were.
pub reduce-revision :
    (now : ℕ) (event : String) (v : Value) (s : StateSnapshot)
    → is_one_of event reducer_events ≡ true
    → ((reduce now event v s).revision ≡ (s.revision + 1) % u64_mod)
      × ((reduce now event v s).operations ≡ s.operations)
      × ((reduce now event v s).store ≡ s.store)
      × ((reduce now event v s).network_security ≡ s.network_security)
unfolding reduce is_one_of
reduce-revision now event v s h = ground arith

connected_at-again :
    (now later : ℕ) (status previous : ConnectionStatus) (old : Option ℕ)
    → reduce_connected_at later status status (reduce_connected_at now status previous old)
      ≡ reduce_connected_at now status previous old
unfolding reduce_connected_at
connected_at-again now later status previous old = ground arith

conflicts-again :
    (v : Value) (status : ConnectionStatus) (old : List String)
    → reduce_conflicts v status (reduce_conflicts v status old) ≡ reduce_conflicts v status old
unfolding reduce_conflicts
conflicts-again v status old =
    elim (Option-cases (and_then (member v "network_conflicts") as_array)) [
      | inr (conflicts, e) ↦ rw (e, reduce_conflicts)
      | inl e ↦ rw (e, reduce_conflicts) (ground arith)
    ]

-- The same report of the connection, seen again at a later time, changes nothing: the time at which
-- the tunnel came up is that of the first report, and the conflicts are those of the first.
pub reduce_connection-again :
    (now later : ℕ) (v : Value) (old : ConnectionState)
    → reduce_connection later v (reduce_connection now v old) ≡ reduce_connection now v old
unfolding reduce_connection
reduce_connection-again now later v old = λ i. record (reduce_connection now v old) {
  connected_at_unix_ms =
      connected_at-again now later (reduce_connection now v old).status old.status
        old.connected_at_unix_ms i;
  network_conflicts =
      conflicts-again v (reduce_connection now v old).status old.network_conflicts i;
}
