-- ===== src/Splitd/Config.antt =====
-- splitd/src/model.rs: a user's split-tunnelling rules, and their validation. What `ipnet` and the
-- standard library make of an address is a parameter.
use proton_vpn_omarchy_core.Base.{
  ℕ, Bool, true, false, ◌&&◌, ◌||◌, not, String, List, [], ◌∷◌, ◌++◌, Option, none, some, length,
  ltb, any, keep, str_eq, is_empty, select, trim, strip_prefix, starts_with_whitespace,
  contains_text, has_nul, byte_length, or_else, map_some, if◌then◌else◌,
}

abbrev pub max_configs : ℕ
max_configs = 64

abbrev pub max_paths : ℕ
max_paths = 256

abbrev pub max_path_bytes : ℕ
max_path_bytes = 4096

abbrev pub max_ip_ranges : ℕ
max_ip_ranges = 256

pub data SplitMode : Type 0 where
  exclude include : SplitMode

pub record SplitConfig : Type 0 where
  pub mode : SplitMode
  pub app_paths : List String
  pub ip_ranges : List String

-- A value, or the message that says why it is refused.
pub data Checked {ℓ} (A : Type ℓ) : Type ℓ where
  valid : A → Checked A
  invalid : String → Checked A

infixl 5 ◌>>=◌
abbrev pub ◌>>=◌ {ℓ κ} : {A : Type ℓ} {B : Type κ} → Checked A → (A → Checked B) → Checked B
valid a >>= f = f a
invalid e >>= f = invalid e

unfoldable pub parse_mode : String → Checked SplitMode
unfolding select
parse_mode s =
    select s (("exclude", valid exclude) ∷ ("include", valid include) ∷ [])
      (invalid "mode must be 'exclude' or 'include'")

abbrev pub mode_name : SplitMode → String
mode_name exclude = "exclude"
mode_name include = "include"

-- `IpNet` and `IpAddr`: their parsers, the network of one address, `trunc` and the display.
pub record Networks : Type 1 where
  pub Net : Type 0
  pub Address : Type 0
  pub parse_net : String → Option Net
  pub parse_address : String → Option Address
  pub host : Address → Net
  pub trunc : Net → Net
  pub show : Net → String

unfoldable pub has_value : String → List String → Bool
has_value v vs = any (str_eq v) vs

-- The loop of `normalize`: a value that is not empty and not yet there is pushed.
unfoldable pub push_new : List String → String → List String
unfolding has_value
push_new acc v = if not (is_empty v) && not (has_value v acc) then acc ++ v ∷ [] else acc

unfoldable pub normalize_onto : List String → List String → List String
unfolding push_new
normalize_onto acc [] = acc
normalize_onto acc (v ∷ vs) = normalize_onto (push_new acc v) vs

unfoldable pub normalize : List String → List String
unfolding normalize_onto
normalize vs = normalize_onto [] vs

abbrev pub is_bad_value : String → Bool
is_bad_value v = ltb max_path_bytes (byte_length v) || has_nul v

abbrev pub is_blank : String → Bool
is_blank v = is_empty (trim v)

module _ (nets : Networks) where
  open nets use {Net, parse_net, parse_address, host, trunc, show}

  unfoldable pub parse_ip_range : String → Checked Net
  parse_ip_range v = elim (or_else (parse_net (trim v)) (map_some host (parse_address (trim v)))) [
    | some network ↦ valid (trunc network)
    | none ↦ invalid "invalid IP address or CIDR range"
  ]

  unfoldable pub canonical_ip_range : String → Checked String
  unfolding parse_ip_range
  canonical_ip_range v = do network ← parse_ip_range v; valid (show network)

  -- `map(canonical_ip_range).collect::<Result<Vec<_>, _>>()`.
  unfoldable pub canonical_all : List String → Checked (List String)
  unfolding canonical_ip_range
  canonical_all [] = valid []
  canonical_all (v ∷ vs) = do
    range ← canonical_ip_range v
    ranges ← canonical_all vs
    valid (range ∷ ranges)

  unfoldable pub validate_ip_ranges : List String → Checked (List String)
  unfolding canonical_all normalize
  validate_ip_ranges vs =
      if ltb max_ip_ranges (length vs)
      then invalid "at most 256 IP ranges are allowed"
      else if any is_bad_value vs
      then invalid "configuration values must be at most 4096 bytes"
      else (do ranges ← canonical_all (keep (λ v. not (is_blank v)) vs); valid (normalize ranges))

  unfoldable pub validate : SplitConfig → Checked SplitConfig
  unfolding validate_ip_ranges normalize
  validate c =
      if ltb max_paths (length c.app_paths)
      then invalid "at most 256 application paths are allowed"
      else if ltb max_ip_ranges (length c.ip_ranges)
      then invalid "at most 256 IP ranges are allowed"
      else if any is_bad_value (c.app_paths ++ c.ip_ranges)
      then invalid "configuration values must be at most 4096 bytes"
      else (do
        ranges ← validate_ip_ranges c.ip_ranges
        valid (record { mode = c.mode; app_paths = normalize c.app_paths; ip_ranges = ranges }))

unfoldable pub has_app_rules : SplitConfig → Bool
has_app_rules c = any (λ p. not (is_empty p)) c.app_paths

unfoldable pub has_rules : SplitConfig → Bool
unfolding has_app_rules
has_rules c = elim c.ip_ranges [ [] ↦ has_app_rules c | _ ∷ _ ↦ true ]

unfoldable pub identity_matches_path : String → String → Bool
identity_matches_path identity path = str_eq identity path || elim (strip_prefix identity path) [
  | none ↦ false
  | some suffix ↦ starts_with_whitespace suffix
]

abbrev is_include : SplitMode → Bool
is_include include = true
is_include exclude = false

abbrev pub is_own_process : String → Bool
is_own_process identity =
    contains_text identity "protonvpn-app" || contains_text identity "proton-omarchy-agent"

unfoldable pub matches : SplitConfig → List String → Bool
unfolding identity_matches_path
matches c identities =
    if is_include c.mode && any is_own_process identities
    then true
    else any (λ path. any (λ identity. identity_matches_path identity path) identities)
        (keep (λ path. not (is_empty path)) c.app_paths)

unfoldable pub excludes : SplitConfig → Bool → Bool
excludes c matched = elim c.mode [ exclude ↦ matched | include ↦ not matched ]
