-- ===== src/StateReducer/Connection.antt =====
-- agent/src/state_reducer.rs: the event "connection". The time of the event is an argument.
use Prim.Native.String.{len}
use proton_vpn_omarchy_core.Base.{
  ℕ, Bool, true, false, ◌&&◌, not, String, List, [], ◌∷◌, Option, none, some, leb, unwrap_or,
  or_else, and_then, keep_if, select, take, is_empty, has_control, if◌then◌else◌,
}
use proton_vpn_omarchy_core.Json.{
  Value, Fields, get, as_bool, as_u64, as_array, strings, member, flag_of, text, text_of, object_of,
  nonempty_text, try_bits, try_i32,
}
use proton_vpn_omarchy_core.Protocol.Connection.{
  ConnectionStatus, ConnectionState, unknown, disconnected, connecting, connected, error,
}

unfoldable pub connection_status : String → ConnectionStatus
unfolding select
connection_status s =
    select s
      (("disconnected", disconnected)
        ∷ ("connecting", connecting)
        ∷ ("connected", connected)
        ∷ ("error", error)
        ∷ [])
      unknown

abbrev pub is_connected : ConnectionStatus → Bool
is_connected connected = true
is_connected _ = false

abbrev pub is_disconnected : ConnectionStatus → Bool
is_disconnected disconnected = true
is_disconnected _ = false

abbrev is_settled : ConnectionStatus → Bool
is_settled connected = true
is_settled disconnected = true
is_settled _ = false

abbrev is_profile_id : String → Bool
is_profile_id s = not (is_empty s) && (leb (len s) 128 && not (has_control s))

abbrev server_text : Option Fields → String → Option String
server_text server k = and_then server (λ s. text s k)

abbrev server_flag : Option Fields → String → Option Bool
server_flag server k = and_then (and_then server (λ s. get s k)) as_bool

-- `server_string`: a text that is not empty.
unfoldable pub server_string : Option Fields → String → Option String
unfolding text nonempty_text
server_string server k = nonempty_text (server_text server k)

-- The event's own `secure_core`, or else that of its server.
unfoldable pub is_secure_core : Value → Bool
is_secure_core v =
    unwrap_or
      (or_else (and_then (member v "secure_core") as_bool)
        (server_flag (object_of v "server") "secure_core"))
      false

-- `secure_core.then(|| …).flatten()`.
abbrev when : Bool → Option String → Option String
when b o = if b then o else none

unfoldable pub reduce_conflicts : Value → ConnectionStatus → List String → List String
reduce_conflicts v status old = elim (and_then (member v "network_conflicts") as_array) [
  | some conflicts ↦ take 16 (strings conflicts)
  | none ↦ if is_settled status then [] else old
]

-- The start of a connection is the time of the event that first reports it.
unfoldable pub reduce_connected_at : ℕ → ConnectionStatus → ConnectionStatus → Option ℕ → Option ℕ
reduce_connected_at now status previous old =
    if is_connected status && not (is_connected previous)
    then some now
    else if is_disconnected status
    then none
    else old

unfoldable pub reduce_connection : ℕ → Value → ConnectionState → ConnectionState
unfolding flag_of text_of text nonempty_text server_string connection_status is_secure_core try_bits
    try_i32 reduce_conflicts reduce_connected_at
reduce_connection now v old = record {
  observation_known = flag_of v "observation_known";
  status = status;
  profile_id = keep_if is_profile_id (text_of v "profile_id");
  country_code = server_text server "country_code";
  country_name = server_text server "country_name";
  host_country_code = server_string server "host_country_code";
  host_country_name = server_string server "host_country_name";
  entry_country_code = when (is_secure_core v) (server_string server "entry_country_code");
  entry_country_name = when (is_secure_core v) (server_string server "entry_country_name");
  state = server_string server "state";
  city = server_text server "city";
  server_name = server_text server "name";
  server_ip = server_string server "server_ip";
  server_load = and_then (and_then (and_then server (λ s. get s "load")) as_u64) (try_bits 8);
  p2p = unwrap_or (server_flag server "p2p") false;
  tor = unwrap_or (server_flag server "tor") false;
  latency_ms = none;
  protocol = nonempty_text (text_of v "protocol");
  connected_at_unix_ms = reduce_connected_at now status old.status old.connected_at_unix_ms;
  error = text_of v "error";
  error_code = nonempty_text (text_of v "error_code");
  restriction_reason_code = and_then (member v "restriction_reason_code") try_i32;
  network_conflicts = reduce_conflicts v status old.network_conflicts;
}
  where
    server : Option Fields
    server = object_of v "server"

    status : ConnectionStatus
    status = connection_status (unwrap_or (text_of v "status") "unknown")
