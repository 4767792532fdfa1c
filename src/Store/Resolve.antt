-- ===== src/Store/Resolve.antt =====
-- agent/src/store.rs: the parameters of a connection that is asked for by a selection.
use proton_vpn_omarchy_core.Base.{
  true, false, ◌&&◌, not, String, [], ◌∷◌, Option, none, some, any, find, str_eq, select, or_else,
  and_then, unwrap_or, if◌then◌else◌,
}
use proton_vpn_omarchy_core.Json.{
  Value, Fields, end, null, boolean, string, object, array, natural, get, put, text, text_or,
  bool_or, u64_or, json, object_of, as_object, as_array, as_str, from_list, nonempty_text,
}
use proton_vpn_omarchy_core.Backend.{BackendError, Result, ok, err, new_error}
use proton_vpn_omarchy_core.Store.Checks.{require, ◌>>=◌}
use proton_vpn_omarchy_core.Store.Values.{required_string, nonempty}
use proton_vpn_omarchy_core.Store.File.{AccountStore, has_text}
use proton_vpn_omarchy_core.Store.Recents.{most_recent_connection}

unfoldable pub copy_nonempty_string : Fields → String → String → Fields → Fields
unfolding nonempty_text text
copy_nonempty_string source source_name target_name target =
    elim (nonempty_text (text source source_name)) [
      | none ↦ target
      | some value ↦ put target target_name (string value)
    ]

-- The six texts that both kinds of entry may have.
unfoldable pub copied_target : Fields → Fields
unfolding copy_nonempty_string
copied_target o =
    let target = copy_nonempty_string o "countryCode" "country_code" end in
    let target = copy_nonempty_string o "entryCountryCode" "entry_country_code" target in
    let target = copy_nonempty_string o "state" "state" target in
    let target = copy_nonempty_string o "city" "city" target in
    let target = copy_nonempty_string o "serverName" "server_name" target in
    copy_nonempty_string o "gatewayName" "gateway_name" target

unfoldable pub profile_policy_value : Fields → String → Value
unfolding text_or select
profile_policy_value o key =
    select (text_or o key "inherit") (("allow", boolean true) ∷ ("block", boolean false) ∷ []) null

abbrev bad_profile : String → BackendError
bad_profile = new_error "invalid_profile_target"

abbrev bad_recent : String → BackendError
bad_recent = new_error "invalid_recent_target"

abbrev with_flag : String → Fields → Result Fields
with_flag key target = ok (put target key (boolean true))

unfoldable pub profile_kind_target : String → Fields → Result Fields
unfolding select
profile_kind_target kind target =
    select kind
      (("fastest", ok target)
        ∷ ("country", ok target)
        ∷ ("state", ok target)
        ∷ ("city", ok target)
        ∷ ("server", ok target)
        ∷ ("gateway", ok target)
        ∷ ("gatewayServer", ok target)
        ∷ ("random", with_flag "random" target)
        ∷ ("p2p", with_flag "p2p" target)
        ∷ ("secureCore", with_flag "secure_core" target)
        ∷ ("tor", with_flag "tor" target)
        ∷ [])
      (err (bad_profile "Profile connection target is unsupported"))

unfoldable pub strategy_target : Fields → String → Fields → Fields
unfolding text_or nonempty any
strategy_target o kind target =
    let strategy =
      text_or o "selectionStrategy" (if str_eq kind "random" then "random" else "fastest") in
    let scoped = any (nonempty o) ("countryCode" ∷ "state" ∷ "city" ∷ "gatewayName" ∷ []) in
    if str_eq strategy "random" && not (str_eq kind "random")
    then put target (if scoped then "random_server" else "random") (boolean true)
    else target

unfoldable pub excluding_target : Fields → Fields → Fields
unfolding bool_or
excluding_target o target =
    if bool_or o "excludeMyCountry" false
    then put target "exclude_my_country" (boolean true)
    else target

unfoldable pub profile_description : Fields → String
unfolding nonempty_text
profile_description o =
    unwrap_or
      (nonempty_text (
        and_then
          (or_else (or_else (get o "countryName") (get o "serverName")) (get o "gatewayName"))
          as_str))
      "Profile"

unfoldable pub post_connect : Fields → Value
unfolding bool_or text_or
post_connect o =
    if bool_or o "connectAndGoEnabled" false
    then json (
        ("mode", string (text_or o "connectAndGoMode" "website"))
        ∷ ("url", string (text_or o "connectAndGoUrl" String.[]))
        ∷ ("private_browsing", boolean (bool_or o "connectAndGoUsePrivateBrowsingMode" false))
        ∷ ("desktop_id", string (text_or o "connectAndGoAppId" String.[]))
        ∷ [])
    else null

abbrev array_or_empty : Option Value → Value
array_or_empty o = array (from_list (unwrap_or (and_then o as_array) []))

unfoldable pub resolved_settings : Fields → Value
unfolding text_or bool_or u64_or has_text profile_policy_value
resolved_settings o = json (
    ("protocol", string (text_or o "profileProtocol" "smart"))
    ∷ ("netshield_enabled", boolean (bool_or o "profileNetShieldEnabled" true))
    ∷ ("netshield_level", natural (u64_or o "profileNetShieldLevel" 2))
    ∷ ("moderate_nat", boolean (has_text "profileNatType" "moderate" (object o)))
    ∷ ("port_forwarding", boolean (bool_or o "profilePortForwardingEnabled" false))
    ∷ (
      "custom_dns",
      json (
          ("mode", string (text_or o "profileCustomDnsMode" "inherit"))
          ∷ ("servers", array_or_empty (get o "profileCustomDnsServers"))
          ∷ []),
    )
    ∷ ("allow_lan_connections", profile_policy_value o "profileLanMode")
    ∷ ("allow_local_dns", profile_policy_value o "profileLocalDnsMode")
    ∷ [])

abbrev selection_value : String → Value
selection_value kind = json (("type", string kind) ∷ [])

unfoldable pub resolved_profile : Value → String → Result Value
unfolding required_string copied_target profile_kind_target strategy_target excluding_target
    profile_description post_connect resolved_settings
resolved_profile profile selection_type = do
  o ← require (as_object profile) (bad_profile "Profile connection target is invalid")
  kind ← required_string o "targetKind" 32
  target ← profile_kind_target kind (copied_target o)
  profile_id ← required_string o "id" 128
  profile_name ← required_string o "name" 60
  ok (
      json (
        ("selection", selection_value selection_type)
        ∷ (
          "connect_params",
          json (
              ("profile_id", string profile_id)
              ∷ ("target", object (excluding_target o (strategy_target o kind target)))
              ∷ ("profile_settings", resolved_settings o)
              ∷ []),
        )
        ∷ (
          "recent",
          json (
              ("kind", string "profile")
              ∷ ("profileId", string profile_id)
              ∷ ("header", string profile_name)
              ∷ ("description", string (profile_description o))
              ∷ []),
        )
        ∷ ("post_connect", post_connect o)
        ∷ []))

-- The flag that a location recent's feature asks for.
unfoldable pub feature_target : Fields → Fields → Fields
unfolding text_or select
feature_target o target =
    select (text_or o "feature" "all")
      (("p2p", put target "p2p" (boolean true))
        ∷ ("tor", put target "tor" (boolean true))
        ∷ ("secure_core", put target "secure_core" (boolean true))
        ∷ [])
      target

unfoldable pub recent_kind_target : String → Fields → Fields → Result Fields
unfolding select feature_target
recent_kind_target kind o target =
    select kind
      (("country", ok (feature_target o target))
        ∷ ("state", ok (feature_target o target))
        ∷ ("city", ok (feature_target o target))
        ∷ ("secureCore", with_flag "secure_core" target)
        ∷ ("tor", with_flag "tor" target)
        ∷ ("server", ok target)
        ∷ ("gateway", ok target)
        ∷ ("gatewayServer", ok target)
        ∷ [])
      (err (bad_recent "Recent connection target is unsupported"))

unfoldable pub profile_with_id : AccountStore → String → Option Value
unfolding find has_text
profile_with_id account id = find (has_text "id" id) account.profiles

unfoldable pub recent_with_id : AccountStore → String → Option Value
unfolding find has_text
recent_with_id account id = find (has_text "id" id) account.recents

unfoldable pub resolved_recent : AccountStore → Value → String → Result Value
unfolding required_string profile_with_id resolved_profile recent_kind_target copied_target
resolved_recent account recent selection_type = do
  o ← require (as_object recent) (bad_recent "Recent connection target is invalid")
  kind ← required_string o "kind" 32
  if str_eq kind "profile"
      then (do
        profile_id ← required_string o "profileId" 128
        profile ←
            require (profile_with_id account profile_id)
              (new_error "profile_not_found" "Recent profile was not found")
        resolved_profile profile selection_type)
      else (do
        target ← recent_kind_target kind o (copied_target o)
        ok (
            json (
              ("selection", selection_value selection_type)
              ∷ ("connect_params", json (("target", object target) ∷ []))
              ∷ ("recent", recent)
              ∷ [])))

abbrev plain_choice : String → Fields → Result Value
plain_choice kind target = ok (
    json (
      ("selection", selection_value kind)
      ∷ ("connect_params", json (("target", object target) ∷ []))
      ∷ []))

unfoldable pub resolve_found : AccountStore → Option Value → Result Value
unfolding resolved_recent
resolve_found account (some recent) = resolved_recent account recent "last"
resolve_found account none = ok (
    json (
      ("selection", selection_value "last")
      ∷ ("fallback", string "fastest")
      ∷ ("connect_params", json (("target", json []) ∷ []))
      ∷ []))

unfoldable pub resolve_last : AccountStore → Result Value
unfolding most_recent_connection resolve_found
resolve_last account = resolve_found account (most_recent_connection account)

unfoldable pub resolve_selection : AccountStore → Fields → Result Value
unfolding text_or select resolve_last required_string recent_with_id profile_with_id resolved_recent
    resolved_profile
resolve_selection account selection =
    select (text_or selection "type" "fastest")
      (("fastest", plain_choice "fastest" end)
        ∷ ("random", plain_choice "random" (put end "random" (boolean true)))
        ∷ ("last", resolve_last account)
        ∷ (
          "recent",
          (do
            id ← required_string selection "recentId" 128
            recent ←
                require (recent_with_id account id)
                  (new_error "recent_not_found" "Default recent connection was not found")
            resolved_recent account recent "recent"),
        )
        ∷ (
          "profile",
          (do
            id ← required_string selection "profileId" 128
            profile ←
                require (profile_with_id account id)
                  (new_error "profile_not_found" "Default profile was not found")
            resolved_profile profile "profile"),
        )
        ∷ [])
      (err (new_error "invalid_default_connection" "Unsupported default connection type"))

unfoldable pub resolve_connection : AccountStore → Value → Result Value
unfolding resolve_selection
resolve_connection account params = do
  selection ←
      require (or_else (object_of params "selection") (as_object account.default_connection))
        (new_error "invalid_default_connection" "Default connection selection is invalid")
  resolve_selection account selection
