-- ===== src/Protocol/Account.antt =====
-- protocol/src/lib.rs: the account, the backend and the physical location in the snapshot.
use proton_vpn_omarchy_core.Base.{ℕ, Bool, false, String, Option, none}
use proton_vpn_omarchy_core.Json.{Number}

pub data AccountStatus : Type 0 where
  unknown restoring signed_out signing_in two_factor_required signed_in error : AccountStatus

pub record AccountState : Type 0 where
  pub status : AccountStatus
  pub name : Option String
  pub tier : Option ℕ  -- u8
  pub credentialless : Bool
  pub two_factor_code_supported : Bool
  pub two_factor_security_key_supported : Bool
  pub sso_supported : Bool

abbrev pub default_account_state : AccountState
default_account_state = record {
  status = unknown;
  name = none;
  tier = none;
  credentialless = false;
  two_factor_code_supported = false;
  two_factor_security_key_supported = false;
  sso_supported = false;
}

pub record BackendState : Type 0 where
  pub kind : String
  pub core_available : Bool
  pub connection_available : Bool
  pub connection_availability_known : Bool
  pub settings_known : Bool
  pub connector_initialized : Bool
  pub network_blocked_known : Bool
  pub network_blocked : Bool
  pub core_version : Option String
  pub error : Option String

abbrev pub default_backend_state : BackendState
default_backend_state = record {
  kind = "proton_linux";
  core_available = false;
  connection_available = false;
  connection_availability_known = false;
  settings_known = false;
  connector_initialized = false;
  network_blocked_known = false;
  network_blocked = false;
  core_version = none;
  error = none;
}

-- A coordinate is the number that the source casts to `f64`.
pub record DeviceLocationState : Type 0 where
  pub known : Bool
  pub ip_address : Option String
  pub country_code : Option String
  pub isp : Option String
  pub latitude : Option Number
  pub longitude : Option Number

abbrev pub default_device_location_state : DeviceLocationState
default_device_location_state = record {
  known = false;
  ip_address = none;
  country_code = none;
  isp = none;
  latitude = none;
  longitude = none;
}

pub record NetworkSecurityState : Type 0 where
  pub known : Bool
  pub wifi_connected : Bool
  pub insecure_wifi : Bool
  pub generation : ℕ  -- u64

abbrev pub default_network_security_state : NetworkSecurityState
default_network_security_state = record {
  known = false;
  wifi_connected = false;
  insecure_wifi = false;
  generation = 0;
}
