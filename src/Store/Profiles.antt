-- ===== src/Store/Profiles.antt =====
-- agent/src/store.rs: what is stored of a profile that a client sends.
use proton_vpn_omarchy_core.Base.{
  ℕ, ◌==◌, Bool, true, false, ◌&&◌, ◌||◌, not, String, List, [], ◌∷◌, ◌++◌, map, Option, none, some,
  any, length, ltb, str_eq, select, is_one_of, is_empty, and_then, or_else, keep_if, unwrap_or,
  concat, trim, min, to_ascii_lowercase, to_ascii_uppercase, if◌then◌else◌,
}
use proton_vpn_omarchy_core.Json.{
  Value, Fields, end, string, boolean, array, natural, get, put, put_all, as_str, as_u64, as_array,
  from_list, u64_or,
}
use proton_vpn_omarchy_core.Backend.{BackendError, Result, ok, new_error}
use proton_vpn_omarchy_core.Store.Checks.{require, refuse_if, ◌>>=◌, ◌>>◌}
use proton_vpn_omarchy_core.Store.Values.{
  required_string, string_or, string_value, optional_bool, nonempty,
}
use proton_vpn_omarchy_core.Store.Excluded.{is_country_code}

unfoldable pub insert_profile_string : Fields → Fields → String → ℕ → Bool → Result Fields
unfolding string_value
insert_profile_string source target key max_chars uppercase = do
  value ← string_value (get source key) max_chars true
  if is_empty value
      then ok target
      else if uppercase
      then (do
        refuse_if (not (is_country_code value))
            (new_error "invalid_params" (concat (key ∷ " must be a two-letter country code" ∷ [])))
        ok (put target key (string (to_ascii_uppercase value))))
      else ok (put target key (string value))

abbrev pub target_arms : Fields → List (String × Bool)
target_arms o =
    ("fastest", true)
    ∷ ("random", true)
    ∷ ("p2p", true)
    ∷ ("tor", true)
    ∷ ("secureCore", not (nonempty o "entryCountryCode") || nonempty o "countryCode")
    ∷ ("country", nonempty o "countryCode")
    ∷ ("state", nonempty o "countryCode" && nonempty o "state")
    ∷ ("city", nonempty o "countryCode" && nonempty o "city")
    ∷ ("server", nonempty o "countryCode" && nonempty o "serverName")
    ∷ ("gateway", nonempty o "gatewayName")
    ∷ ("gatewayServer", nonempty o "gatewayName" && nonempty o "serverName")
    ∷ []

unfoldable pub profile_target_valid : String → Fields → Bool
unfolding select nonempty
profile_target_valid kind o = select kind (target_arms o) false

unfoldable pub profile_mode : Fields → String → List String → Result String
unfolding string_or is_one_of
profile_mode raw key allowed = do
  name ← string_or raw key "inherit" 16
  let value = to_ascii_lowercase name
  refuse_if (not (is_one_of value allowed))
      (new_error "invalid_params" (concat (key ∷ " contains an unsupported policy" ∷ [])))
  ok value

abbrev bad_dns : String → BackendError
bad_dns = new_error "invalid_dns"

abbrev bad_target : String → BackendError
bad_target = new_error "invalid_profile_target"

-- What `parse::<IpAddr>` and the display of the address make of a text.
module _ (ip_text : String → Option String) where
  unfoldable pub push_server : List String → String → Result (List String)
  push_server servers value = if is_empty (trim value) then ok servers else (do
    normalized ←
        require (ip_text (trim value)) (bad_dns "Profile DNS servers must be valid IP addresses")
    ok (if any (str_eq normalized) servers then servers else servers ++ normalized ∷ []))

  unfoldable pub dns_loop : List String → List Value → Result (List String)
  unfolding push_server
  dns_loop servers [] = ok servers
  dns_loop servers (value ∷ values) = do
    s ← require (as_str value) (bad_dns "Profile DNS servers must be strings")
    more ← push_server servers s
    dns_loop more values

  unfoldable pub profile_dns_servers : Option Value → Result (List String)
  unfolding dns_loop
  profile_dns_servers none = ok []
  profile_dns_servers (some value) = do
    values ←
        require (as_array value)
          (bad_dns "profileCustomDnsServers must be an array of IP addresses")
    refuse_if (ltb 16 (length values))
        (bad_dns "A profile can contain at most 16 custom DNS servers")
    dns_loop [] values

  abbrev supported_protocols : List String
  supported_protocols =
      "smart" ∷ "wireguard-udp" ∷ "wireguard-tcp" ∷ "wireguard-tls" ∷ "protun-udp" ∷ "protun-tcp"
      ∷ "protun-tls" ∷ "openvpn-udp" ∷ "openvpn-tcp" ∷ []

  -- The eight members that describe where to.
  unfoldable pub profile_location : Fields → Result Fields
  unfolding insert_profile_string
  profile_location raw = do
    p ← insert_profile_string raw end "countryCode" 2 true
    p ← insert_profile_string raw p "countryName" 128 false
    p ← insert_profile_string raw p "entryCountryCode" 2 true
    p ← insert_profile_string raw p "entryCountryName" 128 false
    p ← insert_profile_string raw p "state" 128 false
    p ← insert_profile_string raw p "city" 128 false
    p ← insert_profile_string raw p "serverName" 128 false
    insert_profile_string raw p "gatewayName" 128 false

  -- The choice and the target: `targetKind`, `selectionStrategy` and the location.
  unfoldable pub profile_target : Fields → Result (String × String × Fields)
  unfolding string_or is_one_of profile_location profile_target_valid
  profile_target raw = do
    target_kind ← string_or raw "targetKind" "fastest" 32
    strategy ←
        string_or raw "selectionStrategy"
          (if str_eq target_kind "random" then "random" else "fastest") 16
    let selection_strategy = to_ascii_lowercase strategy
    refuse_if (not (is_one_of selection_strategy ("fastest" ∷ "random" ∷ [])))
        (bad_target "Profile selection strategy is unsupported")
    location ← profile_location raw
    refuse_if (not (profile_target_valid target_kind location))
        (bad_target "Profile target is incomplete or unsupported")
    ok (target_kind, selection_strategy, location)

  unfoldable pub profile_protocol : Fields → Result String
  unfolding string_or is_one_of
  profile_protocol raw = do
    name ← string_or raw "profileProtocol" "smart" 32
    let protocol = to_ascii_lowercase name
    ok (if is_one_of protocol supported_protocols then protocol else "smart")

  -- The members from `excludeMyCountry` to `profileLocalDnsMode`.
  unfoldable pub profile_settings : Fields → String → Result (List (String × Value))
  unfolding string_or optional_bool u64_or profile_mode profile_dns_servers
  profile_settings raw protocol = do
    exclude ← optional_bool raw "excludeMyCountry" false
    icon ← string_or raw "iconName" "Speed" 64
    color ← string_or raw "color" "#C857E7" 32
    netshield ← optional_bool raw "profileNetShieldEnabled" true
    nat_name ← string_or raw "profileNatType" "strict" 16
    let moderate = str_eq (to_ascii_lowercase nat_name) "moderate"
    forwarding ← optional_bool raw "profilePortForwardingEnabled" false
    dns_mode ← profile_mode raw "profileCustomDnsMode" ("inherit" ∷ "off" ∷ "custom" ∷ [])
    servers ← profile_dns_servers (get raw "profileCustomDnsServers")
    refuse_if (str_eq dns_mode "custom" && length servers == 0)
        (bad_dns "A custom DNS profile requires at least one DNS server")
    refuse_if (str_eq dns_mode "custom" && netshield) (
        new_error "profile_settings_conflict"
          "Custom DNS and NetShield cannot be enabled in the same profile")
    lan ← profile_mode raw "profileLanMode" ("inherit" ∷ "allow" ∷ "block" ∷ [])
    local_dns ← profile_mode raw "profileLocalDnsMode" ("inherit" ∷ "allow" ∷ "block" ∷ [])
    ok (
        ("excludeMyCountry", boolean exclude)
        ∷ ("iconName", string icon)
        ∷ ("color", string color)
        ∷ ("profileProtocol", string protocol)
        ∷ ("profileNetShieldEnabled", boolean netshield)
        ∷ ("profileNetShieldLevel", natural (min (u64_or raw "profileNetShieldLevel" 2) 2))
        ∷ ("profileNatType", string (if moderate then "moderate" else "strict"))
        ∷ ("profilePortForwardingEnabled", boolean (if moderate then false else forwarding))
        ∷ ("profileCustomDnsMode", string dns_mode)
        ∷ ("profileCustomDnsServers", array (from_list (map string servers)))
        ∷ ("profileLanMode", string lan)
        ∷ ("profileLocalDnsMode", string local_dns)
        ∷ [])

  abbrev bad_go : String → BackendError
  bad_go = new_error "invalid_connect_and_go"

  -- The members of Connect and Go.
  unfoldable pub profile_connect_and_go : Fields → Result (List (String × Value))
  unfolding string_or optional_bool is_one_of
  profile_connect_and_go raw = do
    enabled ← optional_bool raw "connectAndGoEnabled" false
    mode_name ← string_or raw "connectAndGoMode" "website" 32
    let mode = to_ascii_lowercase mode_name
    refuse_if (not (is_one_of mode ("website" ∷ "application" ∷ [])))
        (bad_go "Connect and Go mode must be website or application")
    url ← string_or raw "connectAndGoUrl" String.[] 2048
    app_id ← string_or raw "connectAndGoAppId" String.[] 255
    app_path ← string_or raw "connectAndGoAppPath" String.[] 2048
    refuse_if
        (enabled
          && (str_eq mode "website" && is_empty url
              || str_eq mode "application" && is_empty app_id))
        (bad_go "Connect and Go requires a website or installed application")
    private ← optional_bool raw "connectAndGoUsePrivateBrowsingMode" false
    ok (
        ("connectAndGoEnabled", boolean enabled)
        ∷ ("connectAndGoMode", string mode)
        ∷ ("connectAndGoUrl", string url)
        ∷ ("connectAndGoUsePrivateBrowsingMode", boolean private)
        ∷ ("connectAndGoAppId", string app_id)
        ∷ ("connectAndGoAppPath", string app_path)
        ∷ [])

  abbrev member_u64 : Fields → String → Option ℕ
  member_u64 o k = and_then (get o k) as_u64

  abbrev pub created_at : Fields → Option Fields → ℕ → ℕ
  created_at raw existing now =
      unwrap_or
        (keep_if (ltb 0) (
          or_else (and_then existing (λ o. member_u64 o "createdAtMs"))
            (member_u64 raw "createdAtMs")))
        now

  -- `now` is what the clock says. The code inserts each member where it has checked it; between,
  -- it reads back nothing but the location and the NetShield switch.
  unfoldable pub normalize_profile : Fields → Option Fields → String → ℕ → Result Fields
  unfolding required_string profile_target profile_protocol profile_settings profile_connect_and_go
      put_all
  normalize_profile raw existing id now = do
    name ← required_string raw "name" 60
    (target_kind, selection_strategy, location) ← profile_target raw
    protocol ← profile_protocol raw
    settings ← profile_settings raw protocol
    go ← profile_connect_and_go raw
    ok (
        put_all
          (("id", string id)
            ∷ ("name", string name)
            ∷ ("targetKind", string target_kind)
            ∷ ("selectionStrategy", string selection_strategy)
            ∷ (settings
                ++ (go
                    ++ ("createdAtMs", natural (created_at raw existing now))
                      ∷ ("updatedAtMs", natural now)
                      ∷ [])))
          location)
