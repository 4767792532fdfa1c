-- ===== src/StateReducer/Invariant.antt =====
-- agent/src/state_reducer.rs: what every event keeps of the snapshot.
use proton_vpn_omarchy_core.Base.{
  ℕ, ◌-◌, ◌^◌, ◌≤◌, ◌<◌, ◌⊎◌, Bool, true, false, ◌&&◌, String, List, [], Option, none, some, ◌≡◌,
  ◌≢◌, refl, inl, inr, arith, length, length-take-le, leb, unwrap_or, and_then, keep_if, Bool-cases,
  Option-cases, leb→le, if_some-both, if◌then◌else◌,
}
use proton_vpn_omarchy_core.Json.{
  Value, Fields, Number, pos_int, neg_int, float, number, null, boolean, string, array, object,
  try_i32, get, as_u64, as_array, strings, member, flag_of, object_of, try_bits,
}
use proton_vpn_omarchy_core.Protocol.Connection.{
  ConnectionStatus, ConnectionState, connected, disconnected,
}
use proton_vpn_omarchy_core.Protocol.Features.{
  NetShieldState, ConnectionFeedbackState, default_feature_state, FeatureState,
  default_write_capabilities,
}
use proton_vpn_omarchy_core.Protocol.Snapshot.{StateSnapshot}
use proton_vpn_omarchy_core.StateReducer.Account.{reduce_account}
use proton_vpn_omarchy_core.StateReducer.Features.{
  count_field, reduce_netshield, reduce_feedback, reduce_port_forwarding, reduce_known_features,
  reduce_features,
}
use proton_vpn_omarchy_core.StateReducer.Connection.{
  reduce_connection, reduce_connected_at, reduce_conflicts,
}
use proton_vpn_omarchy_core.StateReducer.Events.{reduce, reduce_rule}

abbrev pub AtMost : ℕ → Option ℕ → Type 0
AtMost b none = Unit
AtMost b (some n) = n ≤ b

-- The conversions of a number keep it within its width.
try_bits-AtMost : (w n : ℕ) → AtMost (2 ^ w - 1) (try_bits w n)
unfolding try_bits
try_bits-AtMost w n = elim (Bool-cases (leb n (2 ^ w - 1))) [
  | inl fits ↦ rw fits (leb→le n _ fits)
  | inr over ↦ rw over tt
]

and_then-AtMost : (w : ℕ) (o : Option ℕ) → AtMost (2 ^ w - 1) (and_then o (try_bits w))
and_then-AtMost w none = tt
and_then-AtMost w (some n) = try_bits-AtMost w n

-- A number of 32 bits with a sign; `neg_int n` stands for -(n + 1).
abbrev pub FitsI32 : Option Number → Type 0
FitsI32 none = Unit
FitsI32 (some (pos_int n)) = n < 2 ^ 31
FitsI32 (some (neg_int n)) = n < 2 ^ 31
FitsI32 (some (float n)) = ⊥

below-FitsI32 :
    (x : Number) (n : ℕ)
    → (n < 2 ^ 31 → FitsI32 (some x))
    → FitsI32 (if leb n (2 ^ 31 - 1) then some x else none)
below-FitsI32 x n h = elim (Bool-cases (leb n (2 ^ 31 - 1))) [
  | inl fits ↦ rw fits (h (let small = leb→le n _ fits in omega arith))
  | inr over ↦ rw over tt
]

try_i32-FitsI32 : (v : Value) → FitsI32 (try_i32 v)
unfolding try_i32
try_i32-FitsI32 (number (pos_int n)) = below-FitsI32 (pos_int n) n (λ h. h)
try_i32-FitsI32 (number (neg_int n)) = below-FitsI32 (neg_int n) n (λ h. h)
try_i32-FitsI32 (number (float n)) = tt
try_i32-FitsI32 null = tt
try_i32-FitsI32 (boolean b) = tt
try_i32-FitsI32 (string s) = tt
try_i32-FitsI32 (array vs) = tt
try_i32-FitsI32 (object o) = tt

and_then-FitsI32 : (o : Option Value) → FitsI32 (and_then o try_i32)
and_then-FitsI32 none = tt
and_then-FitsI32 (some v) = try_i32-FitsI32 v

pub record ConnectionOk (c : ConnectionState) : Type 0 where
  pub code_fits : FitsI32 c.restriction_reason_code
  pub load_fits : AtMost 255 c.server_load
  pub few_conflicts : length c.network_conflicts ≤ 16
  pub dated : c.status ≡ connected → c.connected_at_unix_ms ≢ none
  pub undated : c.status ≡ disconnected → c.connected_at_unix_ms ≡ none

reduce_connected_at-dated :
    (now : ℕ) (status previous : ConnectionStatus) (old : Option ℕ)
    → (previous ≡ connected → old ≢ none)
    → status ≡ connected
    → reduce_connected_at now status previous old ≢ none
unfolding reduce_connected_at
reduce_connected_at-dated now status previous old h e = ground arith

reduce_connected_at-undated :
    (now : ℕ) (status previous : ConnectionStatus) (old : Option ℕ)
    → status ≡ disconnected
    → reduce_connected_at now status previous old ≡ none
unfolding reduce_connected_at
reduce_connected_at-undated now status previous old e = ground arith

conflicts_without :
    (b : Bool) (old : List String) → length old ≤ 16 → length (if b then [] else old) ≤ 16
conflicts_without true old h = omega arith
conflicts_without false old h = h

reduce_conflicts-length :
    (v : Value) (status : ConnectionStatus) (old : List String)
    → length old ≤ 16
    → length (reduce_conflicts v status old) ≤ 16
unfolding reduce_conflicts
reduce_conflicts-length v status old h =
    elim (Option-cases (and_then (member v "network_conflicts") as_array)) [
      | inl e ↦ rw (e, reduce_conflicts) (conflicts_without _ old h)
      | inr (conflicts, e) ↦ rw (e, reduce_conflicts) (length-take-le 16 (strings conflicts))
    ]

reduce_connection-Ok :
    (now : ℕ) (v : Value) (old : ConnectionState)
    → ConnectionOk old
    → ConnectionOk (reduce_connection now v old)
unfolding reduce_connection
reduce_connection-Ok now v old h = record {
  code_fits = and_then-FitsI32 (member v "restriction_reason_code");
  load_fits =
      and_then-AtMost 8 (and_then (and_then (object_of v "server") (λ s. get s "load")) as_u64);
  few_conflicts = reduce_conflicts-length v _ old.network_conflicts h.few_conflicts;
  dated = reduce_connected_at-dated now _ old.status old.connected_at_unix_ms h.dated;
  undated = reduce_connected_at-undated now _ old.status old.connected_at_unix_ms;
}

abbrev u32_max : ℕ
u32_max = 2 ^ 32 - 1

pub record NetShieldOk (n : NetShieldState) : Type 0 where
  pub level_fits : n.level ≤ 255
  pub malware_fits : n.malware_blocked ≤ u32_max
  pub ads_fits : n.ads_blocked ≤ u32_max
  pub trackers_fits : n.trackers_blocked ≤ u32_max

-- From 1 to 300 seconds, once an event has set them.
abbrev pub DismissOk : ConnectionFeedbackState → Type 0
DismissOk f =
    (f ≡ default_feature_state.connection_feedback)
    ⊎ ((1 ≤ f.auto_dismiss_seconds) × (f.auto_dismiss_seconds ≤ 300))

pub record FeaturesOk (f : FeatureState) : Type 0 where
  pub netshield_fits : NetShieldOk f.netshield
  pub dismiss_bounded : DismissOk f.connection_feedback
  pub port_fits : AtMost 65535 f.port_forwarding.active_port
  pub unknown_unwritable : f.known ≡ false → f.writes ≡ default_write_capabilities

AtMost-unwrap : (b : ℕ) (o : Option ℕ) → AtMost b o → unwrap_or o 0 ≤ b
AtMost-unwrap b none h = omega arith
AtMost-unwrap b (some n) h = h

count_field-le : (w : ℕ) (o : Fields) (k : String) → count_field w o k ≤ 2 ^ w - 1
unfolding count_field
count_field-le w o k =
    let read = and_then (get o k) as_u64 in
    AtMost-unwrap _ (and_then read (try_bits w)) (and_then-AtMost w read)

reduce_netshield-Ok : (o : Fields) → NetShieldOk (reduce_netshield o)
unfolding reduce_netshield
reduce_netshield-Ok o = record {
  level_fits = count_field-le 8 o "level";
  malware_fits = count_field-le 32 o "malware_blocked";
  ads_fits = count_field-le 32 o "ads_blocked";
  trackers_fits = count_field-le 32 o "trackers_blocked";
}

dismiss-within :
    (o : Option ℕ)
    → (1 ≤ unwrap_or (keep_if (λ n. leb 1 n && leb n 300) o) 10)
      × (unwrap_or (keep_if (λ n. leb 1 n && leb n 300) o) 10 ≤ 300)
dismiss-within none = (omega arith, omega arith)
dismiss-within (some n) = (ground arith, ground arith)

reduce_feedback-DismissOk : (o : Fields) → DismissOk (reduce_feedback o)
unfolding reduce_feedback
reduce_feedback-DismissOk o = inr (dismiss-within (and_then (get o "auto_dismiss_seconds") as_u64))

reduce_port_forwarding-AtMost : (o : Fields) → AtMost 65535 (reduce_port_forwarding o).active_port
unfolding reduce_port_forwarding
reduce_port_forwarding-AtMost o = and_then-AtMost 16 (and_then (get o "active_port") as_u64)

reduce_known_features-Ok :
    (v : Value) (old : FeatureState)
    → FeaturesOk old
    → old.known ≡ true
    → FeaturesOk (reduce_known_features v old)
unfolding reduce_known_features
reduce_known_features-Ok v old h seen = record {
  netshield_fits =
      if_some-both NetShieldOk (object_of v "netshield") reduce_netshield old.netshield
        reduce_netshield-Ok h.netshield_fits;
  dismiss_bounded =
      if_some-both DismissOk (object_of v "connection_feedback") reduce_feedback
        old.connection_feedback reduce_feedback-DismissOk h.dismiss_bounded;
  port_fits =
      if_some-both (λ f. AtMost 65535 f.active_port) (object_of v "port_forwarding")
        reduce_port_forwarding old.port_forwarding reduce_port_forwarding-AtMost h.port_fits;
  unknown_unwritable = λ e. absurd (let no : ⊥ = cc in no);
}

reduce_features-Ok :
    (v : Value) (old : FeatureState) → FeaturesOk old → FeaturesOk (reduce_features v old)
unfolding reduce_features
reduce_features-Ok v old h = elim (Bool-cases (flag_of v "known")) [
  | inr unknown ↦
      rw (unknown, reduce_features)
        (record {
          netshield_fits = h.netshield_fits;
          dismiss_bounded = h.dismiss_bounded;
          port_fits = h.port_fits;
          unknown_unwritable = λ _. refl;
        })
  | inl seen ↦
      rw (seen, reduce_features)
        (reduce_known_features-Ok v (record old { known = true; writable = flag_of v "writable" })
          (record {
            netshield_fits = h.netshield_fits;
            dismiss_bounded = h.dismiss_bounded;
            port_fits = h.port_fits;
            unknown_unwritable = λ e. absurd (let no : ⊥ = cc in no);
          })
          refl)
]

pub record IsConsistent (s : StateSnapshot) : Type 0 where
  pub tier_fits : AtMost 255 s.account.tier
  pub connection_ok : ConnectionOk s.connection
  pub features_ok : FeaturesOk s.features

reduce_account-AtMost : (v : Value) → AtMost 255 (reduce_account v).tier
unfolding reduce_account
reduce_account-AtMost v = and_then-AtMost 8 (and_then (member v "tier") as_u64)

pub reduce-IsConsistent :
    (now : ℕ) (event : String) (v : Value) (s : StateSnapshot)
    → IsConsistent s
    → IsConsistent (reduce now event v s)
reduce-IsConsistent now event v s h =
    reduce_rule IsConsistent now event v s (with (h.tier_fits) h.connection_ok h.features_ok)
      (with (reduce_account-AtMost v) h.connection_ok h.features_ok)
      (with h.tier_fits h.connection_ok h.features_ok)
      (with h.tier_fits h.connection_ok (reduce_features-Ok v s.features h.features_ok))
      (with h.tier_fits (reduce_connection-Ok now v s.connection h.connection_ok) (record {
        netshield_fits = h.features_ok.netshield_fits;
        dismiss_bounded = h.features_ok.dismiss_bounded;
        port_fits = h.features_ok.port_fits;
        unknown_unwritable = h.features_ok.unknown_unwritable;
      }))
      h
  where
    with :
        {t : StateSnapshot}
        → AtMost 255 t.account.tier
        → ConnectionOk t.connection
        → FeaturesOk t.features
        → IsConsistent t
    with tier connection features = record {
      tier_fits = tier;
      connection_ok = connection;
      features_ok = features;
    }
