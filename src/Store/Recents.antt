-- ===== src/Store/Recents.antt =====
-- agent/src/store.rs: recent connections: what is stored of one, its key, and the order and the
-- number of those that are kept.
use proton_vpn_omarchy_core.Base.{
  ℕ, min, Bool, true, false, ◌&&◌, ◌||◌, not, String, List, [], ◌∷◌, ◌++◌, Option, none, some,
  str_eq, select, is_one_of, and_then, unwrap_or, concat, take, keep, leb, to_ascii_lowercase,
  if◌then◌else◌,
}
use proton_vpn_omarchy_core.Json.{
  Value, Fields, end, string, natural, get, put, as_u64, text_or, flag_of, as_object, member,
}
use proton_vpn_omarchy_core.Backend.{BackendError, Result, ok, new_error}
use proton_vpn_omarchy_core.Store.Checks.{require, refuse_if, ◌>>=◌, ◌>>◌}
use proton_vpn_omarchy_core.Store.Values.{required_string, string_or, nonempty}
use proton_vpn_omarchy_core.Store.Profiles.{insert_profile_string}
use proton_vpn_omarchy_core.Store.File.{AccountStore, max_unpinned_recents, number_at}

-- Its body is that of `insert_profile_string`.
abbrev pub insert_recent_string : Fields → Fields → String → ℕ → Bool → Result Fields
insert_recent_string = insert_profile_string

unfoldable pub recent_target_valid : String → Fields → Bool
unfolding select nonempty
recent_target_valid kind o =
    select kind
      (("profile", nonempty o "profileId")
        ∷ ("gateway", nonempty o "gatewayName")
        ∷ ("gatewayServer", nonempty o "gatewayName" && nonempty o "serverName")
        ∷ (
          "secureCore",
          nonempty o "serverName" || nonempty o "countryCode" && nonempty o "entryCountryCode",
        )
        ∷ ("server", nonempty o "serverName")
        ∷ ("tor", nonempty o "serverName")
        ∷ ("country", nonempty o "countryCode")
        ∷ ("state", nonempty o "countryCode" && nonempty o "state")
        ∷ ("city", nonempty o "countryCode" && nonempty o "city")
        ∷ [])
      false

abbrev bad_target : String → BackendError
bad_target = new_error "invalid_recent_target"

unfoldable pub recent_texts : String → Fields → Result Fields
unfolding insert_profile_string
recent_texts kind raw = do
  r ← insert_recent_string raw (put end "kind" (string kind)) "profileId" 128 false
  r ← insert_recent_string raw r "header" 128 false
  r ← insert_recent_string raw r "description" 256 false
  r ← insert_recent_string raw r "gatewayName" 128 false
  r ← insert_recent_string raw r "countryCode" 2 true
  r ← insert_recent_string raw r "countryName" 128 false
  r ← insert_recent_string raw r "entryCountryCode" 2 true
  r ← insert_recent_string raw r "entryCountryName" 128 false
  r ← insert_recent_string raw r "state" 128 false
  r ← insert_recent_string raw r "city" 128 false
  insert_recent_string raw r "serverName" 128 false

unfoldable pub recent_feature : String → Fields → Fields → Result Fields
unfolding is_one_of string_or
recent_feature kind raw recent =
    if is_one_of kind ("country" ∷ "state" ∷ "city" ∷ [])
    then (do
      name ← string_or raw "feature" "standard" 32
      let feature = to_ascii_lowercase name
      refuse_if (not (is_one_of feature ("standard" ∷ "all" ∷ "secure_core" ∷ "p2p" ∷ "tor" ∷ [])))
          (bad_target "Recent location feature is unsupported")
      ok (put recent "feature" (string feature)))
    else ok recent

unfoldable pub recent_load : Fields → Fields → Result Fields
recent_load raw recent = elim (get raw "load") [
  | none ↦ ok recent
  | some value ↦ do
    load ← require (as_u64 value) (new_error "invalid_params" "load must be an unsigned number")
    ok (put recent "load" (natural (min load 100)))
]

unfoldable pub normalize_recent : Fields → Result Fields
unfolding required_string recent_texts recent_feature recent_load recent_target_valid
normalize_recent raw = do
  kind ← required_string raw "kind" 32
  recent ← recent_texts kind raw
  recent ← recent_feature kind raw recent
  recent ← recent_load raw recent
  refuse_if (not (recent_target_valid kind recent))
      (bad_target "Recent connection target is incomplete or unsupported")
  ok recent

unfoldable pub recent_key : Fields → String
unfolding text_or select
recent_key o =
    let part = λ (name : String). text_or o name String.[] in
    let kind = part "kind" in
    let gateway = concat (kind ∷ ":" ∷ part "gatewayName" ∷ ":" ∷ part "serverName" ∷ []) in
    select kind
      (("profile", concat ("profile:" ∷ part "profileId" ∷ []))
        ∷ ("gateway", gateway)
        ∷ ("gatewayServer", gateway)
        ∷ [])
      (concat (
        kind
        ∷ ":"
        ∷ text_or o "feature" "all"
        ∷ ":"
        ∷ part "entryCountryCode"
        ∷ ":"
        ∷ part "countryCode"
        ∷ ":"
        ∷ part "state"
        ∷ ":"
        ∷ part "city"
        ∷ ":"
        ∷ part "serverName"
        ∷ []))

-- `candidate.as_object().map(recent_key).as_deref() == Some(key)`.
unfoldable pub has_key_of : String → Value → Bool
unfolding recent_key
has_key_of key v = elim (as_object v) [ none ↦ false | some o ↦ str_eq (recent_key o) key ]

-- `sort_by_key`, which is stable: an entry goes before the first of those behind it that it may
-- stand before.
module _ {A : Type 0} (before : A → A → Bool) where
  unfoldable pub insert_sorted : A → List A → List A
  insert_sorted x [] = x ∷ []
  insert_sorted x (y ∷ ys) =
      let rest = insert_sorted x ys in if before x y then x ∷ y ∷ ys else y ∷ rest

  unfoldable pub sort : List A → List A
  unfolding insert_sorted
  sort [] = []
  sort (x ∷ xs) = insert_sorted x (sort xs)

unfoldable pub is_pinned : Value → Bool
unfolding flag_of
is_pinned v = flag_of v "pinned"

unfoldable pub is_unpinned : Value → Bool
unfolding is_pinned
is_unpinned v = not (is_pinned v)

unfoldable pub pin_time : Value → ℕ
unfolding number_at
pin_time = number_at "pinTimeMs"

unfoldable pub connection_time : Value → ℕ
unfolding number_at
connection_time = number_at "lastConnectionTimeMs"

unfoldable pub pinned_before : Value → Value → Bool
unfolding pin_time
pinned_before v w = leb (pin_time v) (pin_time w)

unfoldable pub unpinned_before : Value → Value → Bool
unfolding connection_time
unpinned_before v w = leb (connection_time w) (connection_time v)

unfoldable pub trim_recents : AccountStore → AccountStore
unfolding keep sort is_pinned is_unpinned pinned_before unpinned_before
trim_recents account =
    let pinned = sort pinned_before (keep is_pinned account.recents) in
    let unpinned = sort unpinned_before (keep is_unpinned account.recents) in
    record account { recents = pinned ++ take max_unpinned_recents unpinned }

-- `max_by_key`: the last of the entries with the greatest time.
unfoldable pub later_of : Value → Option Value → Value
unfolding connection_time
later_of v none = v
later_of v (some w) = if leb (connection_time v) (connection_time w) then w else v

unfoldable pub latest : List Value → Option Value
unfolding later_of
latest [] = none
latest (v ∷ vs) = some (later_of v (latest vs))

unfoldable pub most_recent_connection : AccountStore → Option Value
unfolding latest
most_recent_connection account = latest account.recents

-- `filter_map(get("lastConnectionTimeMs").and_then(as_u64)).max().unwrap_or(0)`.
unfoldable pub newest_time : List Value → ℕ
newest_time [] = 0
newest_time (v ∷ vs) =
    let rest = newest_time vs in
    let time = unwrap_or (and_then (member v "lastConnectionTimeMs") as_u64) 0 in
    if leb rest time then time else rest
