-- ===== src/Protocol/Features.antt =====
-- protocol/src/lib.rs: the VPN features in the snapshot.
use proton_vpn_omarchy_core.Base.{ℕ, Bool, true, false, String, List, [], Option, none}

pub data KillSwitchMode : Type 0 where
  off standard advanced : KillSwitchMode

pub data SplitTunnelingMode : Type 0 where
  off standard inverse : SplitTunnelingMode

pub record ProtocolSettingsState : Type 0 where
  pub selected : String
  pub available : List String
  pub profile_available : List String

pub record KillSwitchState : Type 0 where
  pub mode : KillSwitchMode

pub record NetShieldState : Type 0 where
  pub level : ℕ  -- u8
  pub statistics_known : Bool
  pub malware_blocked : ℕ  -- u32
  pub ads_blocked : ℕ  -- u32
  pub trackers_blocked : ℕ  -- u32

-- `VpnAcceleratorState`, `AnonymousCrashReportsState`, `AnonymousUsageStatisticsState` and
-- `ToggleFeatureState` are one record of one Boolean.
pub record ToggleFeatureState : Type 0 where
  pub enabled : Bool

pub record ConnectionFeedbackState : Type 0 where
  pub available : Bool
  pub viewed : Bool
  pub sent : Bool
  pub auto_dismiss_seconds : ℕ  -- u32

pub record SplitTunnelingConfigState : Type 0 where
  pub app_paths : List String
  pub ip_ranges : List String

pub record SplitTunnelingState : Type 0 where
  pub mode : SplitTunnelingMode
  pub availability_known : Bool
  pub available : Bool
  pub app_paths_supported : Bool
  pub ip_ranges_supported : Bool
  pub standard : SplitTunnelingConfigState
  pub inverse : SplitTunnelingConfigState

pub record PortForwardingState : Type 0 where
  pub enabled : Bool
  pub active_port : Option ℕ  -- u16

pub record CustomDnsState : Type 0 where
  pub enabled : Bool
  pub servers : List String

pub record FeatureWriteCapabilities : Type 0 where
  pub protocol : Bool
  pub kill_switch : Bool
  pub netshield : Bool
  pub vpn_accelerator : Bool
  pub anonymous_crash_reports : Bool
  pub anonymous_usage_statistics : Bool
  pub moderate_nat : Bool
  pub ipv6 : Bool
  pub ipv6_leak_protection : Bool
  pub alternative_routing : Bool
  pub allow_lan_connections : Bool
  pub allow_local_dns : Bool
  pub custom_dns : Bool
  pub secure_core : Bool
  pub split_tunneling : Bool
  pub port_forwarding : Bool

pub record FeatureState : Type 0 where
  pub protocol : ProtocolSettingsState
  pub kill_switch : KillSwitchState
  pub netshield : NetShieldState
  pub vpn_accelerator : ToggleFeatureState
  pub anonymous_crash_reports : ToggleFeatureState
  pub anonymous_usage_statistics : ToggleFeatureState
  pub connection_feedback : ConnectionFeedbackState
  pub moderate_nat : ToggleFeatureState
  pub ipv6 : ToggleFeatureState
  pub ipv6_leak_protection : ToggleFeatureState
  pub alternative_routing : ToggleFeatureState
  pub allow_lan_connections : ToggleFeatureState
  pub allow_local_dns : ToggleFeatureState
  pub secure_core : Bool
  pub split_tunneling : SplitTunnelingState
  pub port_forwarding : PortForwardingState
  pub custom_dns : CustomDnsState
  pub writes : FeatureWriteCapabilities
  pub known : Bool
  pub writable : Bool

abbrev pub default_write_capabilities : FeatureWriteCapabilities
default_write_capabilities = record {
  protocol = false;
  kill_switch = false;
  netshield = false;
  vpn_accelerator = false;
  anonymous_crash_reports = false;
  anonymous_usage_statistics = false;
  moderate_nat = false;
  ipv6 = false;
  ipv6_leak_protection = false;
  alternative_routing = false;
  allow_lan_connections = false;
  allow_local_dns = false;
  custom_dns = false;
  secure_core = false;
  split_tunneling = false;
  port_forwarding = false;
}

abbrev empty_split_config : SplitTunnelingConfigState
empty_split_config = record { app_paths = []; ip_ranges = [] }

abbrev pub default_feature_state : FeatureState
default_feature_state = record {
  protocol = record { selected = ""; available = []; profile_available = [] };
  kill_switch = record { mode = KillSwitchMode.off };
  netshield = record {
    level = 0;
    statistics_known = false;
    malware_blocked = 0;
    ads_blocked = 0;
    trackers_blocked = 0;
  };
  vpn_accelerator = record { enabled = false };
  anonymous_crash_reports = record { enabled = false };
  anonymous_usage_statistics = record { enabled = false };
  connection_feedback = record {
    available = false;
    viewed = false;
    sent = false;
    auto_dismiss_seconds = 0;
  };
  moderate_nat = record { enabled = false };
  ipv6 = record { enabled = true };
  ipv6_leak_protection = record { enabled = true };
  alternative_routing = record { enabled = true };
  allow_lan_connections = record { enabled = false };
  allow_local_dns = record { enabled = false };
  secure_core = false;
  split_tunneling = record {
    mode = SplitTunnelingMode.off;
    availability_known = false;
    available = false;
    app_paths_supported = false;
    ip_ranges_supported = false;
    standard = empty_split_config;
    inverse = empty_split_config;
  };
  port_forwarding = record { enabled = false; active_port = none };
  custom_dns = record { enabled = false; servers = [] };
  writes = default_write_capabilities;
  known = false;
  writable = false;
}
