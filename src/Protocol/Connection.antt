-- ===== src/Protocol/Connection.antt =====
-- protocol/src/lib.rs: the tunnel in the snapshot.
use proton_vpn_omarchy_core.Base.{ℕ, Bool, false, String, List, [], Option, none}
use proton_vpn_omarchy_core.Json.{Number}

pub data ConnectionStatus : Type 0 where
  unknown disconnected connecting connected error : ConnectionStatus

pub record ConnectionState : Type 0 where
  pub observation_known : Bool
  pub status : ConnectionStatus
  pub profile_id : Option String
  pub country_code : Option String
  pub country_name : Option String
  pub host_country_code : Option String
  pub host_country_name : Option String
  pub entry_country_code : Option String
  pub entry_country_name : Option String
  pub state : Option String
  pub city : Option String
  pub server_name : Option String
  pub server_ip : Option String
  pub server_load : Option ℕ  -- u8
  pub p2p : Bool
  pub tor : Bool
  pub latency_ms : Option ℕ  -- u32
  pub protocol : Option String
  pub connected_at_unix_ms : Option ℕ  -- u64
  pub error : Option String
  pub error_code : Option String
  pub restriction_reason_code : Option Number  -- i32
  pub network_conflicts : List String

abbrev pub default_connection_state : ConnectionState
default_connection_state = record {
  observation_known = false;
  status = unknown;
  profile_id = none;
  country_code = none;
  country_name = none;
  host_country_code = none;
  host_country_name = none;
  entry_country_code = none;
  entry_country_name = none;
  state = none;
  city = none;
  server_name = none;
  server_ip = none;
  server_load = none;
  p2p = false;
  tor = false;
  latency_ms = none;
  protocol = none;
  connected_at_unix_ms = none;
  error = none;
  error_code = none;
  restriction_reason_code = none;
  network_conflicts = [];
}
