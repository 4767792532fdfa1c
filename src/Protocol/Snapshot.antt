-- ===== src/Protocol/Snapshot.antt =====
-- protocol/src/lib.rs: the whole snapshot.
use proton_vpn_omarchy_core.Base.{ℕ, Bool, true, false, String}
use proton_vpn_omarchy_core.Json.{Value, object, string, field, end}
use proton_vpn_omarchy_core.Protocol.Operation.{OperationState, default_operation_state}
use proton_vpn_omarchy_core.Protocol.Account.{
  AccountState, BackendState, DeviceLocationState, NetworkSecurityState, default_account_state,
  default_backend_state, default_device_location_state, default_network_security_state,
}
use proton_vpn_omarchy_core.Protocol.Connection.{ConnectionState, default_connection_state}
use proton_vpn_omarchy_core.Protocol.Features.{FeatureState, default_feature_state}

pub record CanonicalStoreState : Type 0 where
  pub revision : ℕ  -- u64
  pub ready : Bool
  pub onboarding_complete : Bool
  pub locale : String
  pub start_with_omarchy : Bool
  pub auto_connect : Bool
  pub notifications_enabled : Bool
  pub port_forwarding_notifications_enabled : Bool
  pub account_scope_known : Bool
  pub profile_count : ℕ
  pub recent_count : ℕ
  pub default_connection : Value
  pub migration_available : Bool

abbrev pub default_store_state : CanonicalStoreState
default_store_state = record {
  revision = 0;
  ready = false;
  onboarding_complete = false;
  locale = "en";
  start_with_omarchy = true;
  auto_connect = false;
  notifications_enabled = true;
  port_forwarding_notifications_enabled = true;
  account_scope_known = false;
  profile_count = 0;
  recent_count = 0;
  default_connection = object (field "type" (string "fastest") end);
  migration_available = false;
}

pub record StateSnapshot : Type 0 where
  pub revision : ℕ  -- u64
  pub account : AccountState
  pub backend : BackendState
  pub connection : ConnectionState
  pub device_location : DeviceLocationState
  pub network_security : NetworkSecurityState
  pub features : FeatureState
  pub operations : OperationState
  pub store : CanonicalStoreState

abbrev pub default_snapshot : StateSnapshot
default_snapshot = record {
  revision = 0;
  account = default_account_state;
  backend = default_backend_state;
  connection = default_connection_state;
  device_location = default_device_location_state;
  network_security = default_network_security_state;
  features = default_feature_state;
  operations = default_operation_state;
  store = default_store_state;
}
