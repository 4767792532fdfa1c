-- ===== src/StateReducer/Account.antt =====
-- agent/src/state_reducer.rs: the events "backend", "account" and "device_location".
use proton_vpn_omarchy_core.Base.{
  String, [], ◌∷◌, unwrap_or, and_then, map_some, select, to_ascii_uppercase,
}
use proton_vpn_omarchy_core.Json.{
  Value, as_u64, as_f64, member, flag_of, text_of, nonempty_text, try_bits,
}
use proton_vpn_omarchy_core.Protocol.Account.{
  AccountStatus, AccountState, BackendState, DeviceLocationState, unknown, restoring, signed_out,
  signing_in, two_factor_required, signed_in, error,
}

unfoldable pub reduce_backend : Value → BackendState
unfolding flag_of text_of
reduce_backend v = record {
  kind = unwrap_or (text_of v "kind") "proton_linux";
  core_available = flag_of v "core_available";
  connection_available = flag_of v "connection_available";
  connection_availability_known = flag_of v "connection_availability_known";
  settings_known = flag_of v "settings_known";
  connector_initialized = flag_of v "connector_initialized";
  network_blocked_known = flag_of v "network_blocked_known";
  network_blocked = flag_of v "network_blocked";
  core_version = text_of v "core_version";
  error = text_of v "error";
}

unfoldable pub account_status : String → AccountStatus
unfolding select
account_status s =
    select s
      (("restoring", restoring)
        ∷ ("signed_out", signed_out)
        ∷ ("signing_in", signing_in)
        ∷ ("two_factor_required", two_factor_required)
        ∷ ("signed_in", signed_in)
        ∷ ("error", error)
        ∷ [])
      unknown

unfoldable pub reduce_account : Value → AccountState
unfolding flag_of text_of account_status try_bits
reduce_account v = record {
  status = account_status (unwrap_or (text_of v "status") "unknown");
  name = text_of v "name";
  tier = and_then (and_then (member v "tier") as_u64) (try_bits 8);
  credentialless = flag_of v "credentialless";
  two_factor_code_supported = flag_of v "two_factor_code_supported";
  two_factor_security_key_supported = flag_of v "two_factor_security_key_supported";
  sso_supported = flag_of v "sso_supported";
}

unfoldable pub reduce_device_location : Value → DeviceLocationState
unfolding flag_of text_of nonempty_text to_ascii_uppercase
reduce_device_location v = record {
  known = flag_of v "known";
  ip_address = nonempty_text (text_of v "ip_address");
  country_code = map_some to_ascii_uppercase (nonempty_text (text_of v "country_code"));
  isp = nonempty_text (text_of v "isp");
  latitude = and_then (member v "latitude") as_f64;
  longitude = and_then (member v "longitude") as_f64;
}
