-- ===== src/StateReducer/Features.antt =====
-- agent/src/state_reducer.rs: the event "features". A group that the event does not mention keeps
-- its value, and write capabilities are dropped while the features are not known.
use proton_vpn_omarchy_core.Base.{
  ℕ, String, [], ◌∷◌, ◌&&◌, leb, unwrap_or, and_then, keep_if, if_some, select, if◌then◌else◌,
  map_some,
}
use proton_vpn_omarchy_core.Json.{
  Value, Fields, get, as_bool, as_u64, as_object, as_array, strings, member, flag, flag_of, text,
  object_of, string_array, try_bits,
}
use proton_vpn_omarchy_core.Protocol.Features.{
  KillSwitchMode, SplitTunnelingMode, ProtocolSettingsState, KillSwitchState, NetShieldState,
  ToggleFeatureState, ConnectionFeedbackState, SplitTunnelingConfigState, SplitTunnelingState,
  PortForwardingState, CustomDnsState, FeatureWriteCapabilities, FeatureState,
  default_write_capabilities,
}

unfoldable pub reduce_protocol : Fields → ProtocolSettingsState
unfolding text string_array
reduce_protocol o = record {
  selected = unwrap_or (text o "selected") "";
  available = string_array o "available";
  profile_available = string_array o "profile_available";
}

unfoldable pub reduce_kill_switch : Fields → KillSwitchState
unfolding text select
reduce_kill_switch o = record {
  mode =
      select (unwrap_or (text o "mode") "off")
        (("advanced", KillSwitchMode.advanced) ∷ ("standard", KillSwitchMode.standard) ∷ [])
        KillSwitchMode.off;
}

-- `and_then(as_u64).and_then(|n| u8::try_from(n).ok()).unwrap_or(0)`, and the same at 32 bits.
unfoldable pub count_field : ℕ → Fields → String → ℕ
unfolding try_bits
count_field w o k = unwrap_or (and_then (and_then (get o k) as_u64) (try_bits w)) 0

unfoldable pub reduce_netshield : Fields → NetShieldState
unfolding count_field flag
reduce_netshield o = record {
  level = count_field 8 o "level";
  statistics_known = flag o "statistics_known";
  malware_blocked = count_field 32 o "malware_blocked";
  ads_blocked = count_field 32 o "ads_blocked";
  trackers_blocked = count_field 32 o "trackers_blocked";
}

-- `vpn_accelerator`, `anonymous_crash_reports`, `anonymous_usage_statistics`, `moderate_nat`, `ipv6`,
-- `ipv6_leak_protection`, `alternative_routing`, `allow_lan_connections` and `allow_local_dns`.
unfoldable pub reduce_toggle : Fields → ToggleFeatureState
unfolding flag
reduce_toggle o = record { enabled = flag o "enabled" }

unfoldable pub reduce_feedback : Fields → ConnectionFeedbackState
unfolding flag
reduce_feedback o = record {
  available = flag o "available";
  viewed = flag o "viewed";
  sent = flag o "sent";
  auto_dismiss_seconds =
      unwrap_or
        (keep_if (λ n. leb 1 n && leb n 300) (and_then (get o "auto_dismiss_seconds") as_u64)) 10;
}

unfoldable pub reduce_split_config : Fields → SplitTunnelingConfigState
unfolding string_array
reduce_split_config o = record {
  app_paths = string_array o "app_paths";
  ip_ranges = string_array o "ip_ranges";
}

unfoldable pub reduce_split_tunneling : Fields → SplitTunnelingState → SplitTunnelingState
unfolding flag text select reduce_split_config
reduce_split_tunneling o old = record {
  mode =
      select (unwrap_or (text o "mode") "off")
        (("inverse", SplitTunnelingMode.inverse) ∷ ("standard", SplitTunnelingMode.standard) ∷ [])
        SplitTunnelingMode.off;
  availability_known = flag o "availability_known";
  available = flag o "available";
  app_paths_supported = flag o "app_paths_supported";
  ip_ranges_supported = flag o "ip_ranges_supported";
  standard = if_some (and_then (get o "standard") as_object) reduce_split_config old.standard;
  inverse = if_some (and_then (get o "inverse") as_object) reduce_split_config old.inverse;
}

unfoldable pub reduce_port_forwarding : Fields → PortForwardingState
unfolding flag try_bits
reduce_port_forwarding o = record {
  enabled = flag o "enabled";
  active_port = and_then (and_then (get o "active_port") as_u64) (try_bits 16);
}

unfoldable pub reduce_custom_dns : Fields → CustomDnsState
unfolding flag
reduce_custom_dns o = record {
  enabled = flag o "enabled";
  servers = unwrap_or (map_some strings (and_then (get o "servers") as_array)) [];
}

unfoldable pub reduce_writes : Fields → FeatureWriteCapabilities
unfolding flag
reduce_writes o = record {
  protocol = flag o "protocol";
  kill_switch = flag o "kill_switch";
  netshield = flag o "netshield";
  vpn_accelerator = flag o "vpn_accelerator";
  anonymous_crash_reports = flag o "anonymous_crash_reports";
  anonymous_usage_statistics = flag o "anonymous_usage_statistics";
  moderate_nat = flag o "moderate_nat";
  ipv6 = flag o "ipv6";
  ipv6_leak_protection = flag o "ipv6_leak_protection";
  alternative_routing = flag o "alternative_routing";
  allow_lan_connections = flag o "allow_lan_connections";
  allow_local_dns = flag o "allow_local_dns";
  custom_dns = flag o "custom_dns";
  secure_core = flag o "secure_core";
  split_tunneling = flag o "split_tunneling";
  port_forwarding = flag o "port_forwarding";
}

-- The branch taken while the features are known: a group that is an object in the event is set.
unfoldable pub reduce_known_features : Value → FeatureState → FeatureState
reduce_known_features v old = record old {
  protocol = if_some (object_of v "protocol") reduce_protocol old.protocol;
  kill_switch = if_some (object_of v "kill_switch") reduce_kill_switch old.kill_switch;
  netshield = if_some (object_of v "netshield") reduce_netshield old.netshield;
  vpn_accelerator = if_some (object_of v "vpn_accelerator") reduce_toggle old.vpn_accelerator;
  anonymous_crash_reports =
      if_some (object_of v "anonymous_crash_reports") reduce_toggle old.anonymous_crash_reports;
  anonymous_usage_statistics =
      if_some (object_of v "anonymous_usage_statistics") reduce_toggle
        old.anonymous_usage_statistics;
  connection_feedback =
      if_some (object_of v "connection_feedback") reduce_feedback old.connection_feedback;
  moderate_nat = if_some (object_of v "moderate_nat") reduce_toggle old.moderate_nat;
  ipv6 = if_some (object_of v "ipv6") reduce_toggle old.ipv6;
  ipv6_leak_protection =
      if_some (object_of v "ipv6_leak_protection") reduce_toggle old.ipv6_leak_protection;
  alternative_routing =
      if_some (object_of v "alternative_routing") reduce_toggle old.alternative_routing;
  allow_lan_connections =
      if_some (object_of v "allow_lan_connections") reduce_toggle old.allow_lan_connections;
  allow_local_dns = if_some (object_of v "allow_local_dns") reduce_toggle old.allow_local_dns;
  secure_core = unwrap_or (and_then (member v "secure_core") as_bool) old.secure_core;
  split_tunneling =
      if_some (object_of v "split_tunneling") (λ o. reduce_split_tunneling o old.split_tunneling)
        old.split_tunneling;
  port_forwarding =
      if_some (object_of v "port_forwarding") reduce_port_forwarding old.port_forwarding;
  custom_dns = if_some (object_of v "custom_dns") reduce_custom_dns old.custom_dns;
  writes = if_some (object_of v "writes") reduce_writes old.writes;
}

unfoldable pub reduce_features : Value → FeatureState → FeatureState
unfolding flag_of reduce_known_features
reduce_features v old =
    let seen = record old { known = flag_of v "known"; writable = flag_of v "writable" } in
    if flag_of v "known"
    then reduce_known_features v seen
    else record seen { writes = default_write_capabilities }
