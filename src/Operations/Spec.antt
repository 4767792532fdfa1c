-- ===== src/Operations/Spec.antt =====
-- agent/src/operations.rs: what the code knows of each method. A `match` on a method's name is
-- `select` over its arms.
use proton_vpn_omarchy_core.Base.{
  Bool, true, false, String, List, [], ◌∷◌, Option, none, some, ◌≡◌, select, is_one_of, arith,
}
use proton_vpn_omarchy_core.Protocol.Operation.{
  OperationDomain, auth_session, tunnel_configuration, support, store,
}

pub record ControlSpec : Type 0 where
  pub target_kind : String
  pub stage : String
  pub cancelable : Bool
  pub failure_stage : String
  pub failure_cancelable : Bool
  pub requires_target : Bool

pub record OperationSpec : Type 0 where
  pub domain : OperationDomain
  pub stage : String
  pub cancelable : Bool
  pub control : Option ControlSpec

abbrev plain : OperationDomain → String → Bool → Option OperationSpec
plain domain stage cancelable =
    some (record { domain = domain; stage = stage; cancelable = cancelable; control = none })

abbrev controls : OperationDomain → String → ControlSpec → Option OperationSpec
controls domain stage control =
    some (record { domain = domain; stage = stage; cancelable = false; control = some control })

-- `connection.disconnect` and `connection.cancel` take over a running `connection.connect`.
abbrev cancel_connect : ControlSpec
cancel_connect = record {
  target_kind = "connection.connect";
  stage = "tunnel.cancelling";
  cancelable = false;
  failure_stage = "tunnel.cancel_failed";
  failure_cancelable = true;
  requires_target = false;
}

abbrev submit_pin : ControlSpec
submit_pin = record {
  target_kind = "account.authenticate_fido2";
  stage = "auth.submitting_security_key_pin";
  cancelable = true;
  failure_stage = "auth.security_key_pin_failed";
  failure_cancelable = true;
  requires_target = true;
}

abbrev cancel_fido2 : ControlSpec
cancel_fido2 = record {
  target_kind = "account.authenticate_fido2";
  stage = "auth.cancelling_security_key";
  cancelable = false;
  failure_stage = "auth.security_key_cancel_failed";
  failure_cancelable = true;
  requires_target = true;
}

abbrev saving : Option OperationSpec
saving = plain store "store.saving" false

abbrev spec_arms : List (String × Option OperationSpec)
spec_arms =
    ("account.login", plain auth_session "auth.submitting_credentials" false)
    ∷ ("account.submit_2fa", plain auth_session "auth.submitting_two_factor" false)
    ∷ ("account.authenticate_fido2", plain auth_session "auth.scanning_security_keys" true)
    ∷ (
      "account.submit_fido2_pin",
      controls auth_session "auth.submitting_security_key_pin" submit_pin,
    )
    ∷ ("account.cancel_fido2", controls auth_session "auth.cancelling_security_key" cancel_fido2)
    ∷ ("account.logout", plain auth_session "auth.signing_out" false)
    ∷ ("account.refresh", plain auth_session "auth.loading_account" false)
    ∷ ("connection.connect", plain tunnel_configuration "tunnel.preparing_connection" true)
    ∷ ("connection.disconnect", controls tunnel_configuration "tunnel.disconnecting" cancel_connect)
    ∷ ("connection.cancel", controls tunnel_configuration "tunnel.cancelling" cancel_connect)
    ∷ ("feature.set", plain tunnel_configuration "settings.applying_feature" false)
    ∷ ("protocol.set", plain tunnel_configuration "settings.applying_protocol" false)
    ∷ ("dns.set", plain tunnel_configuration "settings.applying_dns" false)
    ∷ ("split_tunneling.set", plain tunnel_configuration "settings.applying_split_tunneling" false)
    ∷ ("report_issue.submit", plain support "support.submitting_report" false)
    ∷ ("connection.feedback", plain support "support.submitting_connection_feedback" false)
    ∷ ("netshield.stats.get", plain support "support.requesting_netshield_statistics" false)
    ∷ ("onboarding.complete", saving)
    ∷ ("preferences.set", saving)
    ∷ ("profiles.save", saving)
    ∷ ("profiles.duplicate", saving)
    ∷ ("profiles.delete", saving)
    ∷ ("recents.record", saving)
    ∷ ("recents.pin", saving)
    ∷ ("recents.delete", saving)
    ∷ ("default_connection.set", saving)
    ∷ []

-- `None` for a method that the coordinator does not track.
unfoldable pub operation_spec : String → Option OperationSpec
unfolding select
operation_spec method = select method spec_arms none

unfoldable pub domains_conflict : OperationDomain → OperationDomain → Bool
domains_conflict store store = true
domains_conflict store _ = false
domains_conflict _ store = false
domains_conflict support tunnel_configuration = false
domains_conflict tunnel_configuration support = false
domains_conflict support support = true
domains_conflict auth_session _ = true
domains_conflict _ auth_session = true
domains_conflict tunnel_configuration tunnel_configuration = true

abbrev pub same_domain : OperationDomain → OperationDomain → Bool
same_domain auth_session auth_session = true
same_domain tunnel_configuration tunnel_configuration = true
same_domain support support = true
same_domain store store = true
same_domain _ _ = false

unfoldable pub requires_stable_session : String → Bool
unfolding is_one_of
requires_stable_session method = is_one_of method (
    "account.upgrade_url" ∷ "report_issue.categories.get" ∷ "locations.get" ∷ "servers.get"
    ∷ "servers.lookup" ∷ "apps.get" ∷ "connection.observe" ∷ "traffic.get" ∷ [])

abbrev store_arms : String → List (String × String)
store_arms stage =
    ("onboarding.complete", stage)
    ∷ ("preferences.set", stage)
    ∷ ("profiles.save", stage)
    ∷ ("profiles.duplicate", stage)
    ∷ ("profiles.delete", stage)
    ∷ ("recents.record", stage)
    ∷ ("recents.pin", stage)
    ∷ ("recents.delete", stage)
    ∷ ("default_connection.set", stage)
    ∷ []

unfoldable pub completion_stage : String → String
unfolding select
completion_stage method =
    select method
      (("account.login", "auth.complete")
        ∷ ("account.submit_2fa", "auth.complete")
        ∷ ("account.authenticate_fido2", "auth.complete")
        ∷ ("account.logout", "auth.signed_out")
        ∷ ("connection.connect", "tunnel.connected")
        ∷ ("connection.disconnect", "tunnel.disconnected")
        ∷ ("connection.cancel", "tunnel.disconnected")
        ∷ ("report_issue.submit", "support.report_submitted")
        ∷ store_arms "store.saved")
      "settings.applied"

unfoldable pub failure_stage : String → String
unfolding select
failure_stage method =
    select method
      (("account.login", "auth.credentials_failed")
        ∷ ("account.submit_2fa", "auth.two_factor_failed")
        ∷ ("account.authenticate_fido2", "auth.security_key_failed")
        ∷ ("account.logout", "auth.logout_failed")
        ∷ ("connection.connect", "tunnel.connection_failed")
        ∷ ("connection.disconnect", "tunnel.disconnect_failed")
        ∷ ("connection.cancel", "tunnel.disconnect_failed")
        ∷ ("report_issue.submit", "support.report_failed")
        ∷ store_arms "store.save_failed")
      "settings.apply_failed"

unfoldable pub cancelled_stage : String → String
unfolding select
cancelled_stage method =
    select method (("account.authenticate_fido2", "auth.security_key_cancelled") ∷ [])
      "tunnel.cancelled"

unfoldable pub is_cancelled_error : String → Bool
unfolding is_one_of
is_cancelled_error code =
    is_one_of code
      ("cancelled" ∷ "operation_cancelled" ∷ "connection_cancelled" ∷ "fido2_cancelled" ∷ [])

pub domains_conflict_sym :
    (a b : OperationDomain) → domains_conflict a b ≡ false → domains_conflict b a ≡ false
unfolding domains_conflict
domains_conflict_sym a b e = ground arith
