-- ===== src/Store/Ids.antt =====
-- agent/src/store.rs: identifiers, the names of copies, and the key of an account.
use Prim.Native.Nat.{bit_xor}
use proton_vpn_omarchy_core.Base.{
  ℕ, zero, suc, ◌+◌, ◌-◌, ◌*◌, ◌/◌, ◌%◌, ◌^◌, Bool, true, false, code, String, List, [], ◌∷◌, ◌++◌,
  Option, none, some, any, length, ltb, leb, concat, trim, char_count, take_chars, decimal,
  eq_ignore_ascii_case, unwrap_or, ◌==◌, if◌then◌else◌, ◌≡◌, refl,
}
use proton_vpn_omarchy_core.Json.{Value, text_of}
use proton_vpn_omarchy_core.Operations.Ids.{hex, hex_digit}
use proton_vpn_omarchy_core.Store.File.{has_text, max_profiles}

-- `{n:0kx}`: at least `k` hexadecimal digits; a `u64` has sixteen at most.
unfoldable pub padded_hex : ℕ → ℕ → ℕ → String
unfolding hex
padded_hex zero k n = hex k n String.[]
padded_hex (suc fuel) k n = elim (ltb n (16 ^ k)) [
  | true ↦ hex k n String.[]
  | false ↦ padded_hex fuel (suc k) n
]

unfoldable pub id_at : String → ℕ → ℕ → String
unfolding padded_hex
id_at prefix now sequence =
    concat (prefix ∷ "-" ∷ padded_hex 0 16 now ∷ "-" ∷ padded_hex 12 4 sequence ∷ [])

-- The loop over `sequence`: the first candidate that no value has, within `fuel` tries.
module _ {A : Type 0} (taken_by : String → A → Bool) (candidate : ℕ → String)
    (values : List A) where
  unfoldable pub first_free : ℕ → ℕ → Option String
  first_free zero sequence = none
  first_free (suc fuel) sequence =
      let rest = first_free fuel (suc sequence) in
      if any (taken_by (candidate sequence)) values then rest else some (candidate sequence)

abbrev pub has_id : String → Value → Bool
has_id = has_text "id"

-- The loop has no end of its own; one try more than there are values is enough.
unfoldable pub unique_id : String → ℕ → List Value → String
unfolding id_at first_free has_text
unique_id prefix now values =
    unwrap_or (first_free has_id (id_at prefix now) values (suc (length values)) 0) String.[]

abbrev pub copy_suffix : ℕ → String
copy_suffix sequence = if sequence == 1 then " copy" else concat (" copy " ∷ decimal sequence ∷ [])

-- `saturating_sub` stops at 0, as `-` does.
unfoldable pub copy_candidate : String → ℕ → String
unfolding decimal
copy_candidate source sequence =
    concat (take_chars (60 - char_count (copy_suffix sequence)) source ∷ copy_suffix sequence ∷ [])

abbrev pub is_name : Option String → String → Bool
is_name none name = false
is_name (some n) name = eq_ignore_ascii_case n name

unfoldable pub has_name : String → Value → Bool
unfolding text_of
has_name name v = is_name (text_of v "name") name

unfoldable pub copy_name : String → List Value → String
unfolding copy_candidate first_free has_name
copy_name source profiles =
    unwrap_or (first_free has_name (copy_candidate source) profiles (max_profiles + 1) 1)
      (take_chars 60 source)

-- `as_bytes`: a character in UTF-8.
abbrev utf8 : ℕ → List ℕ
utf8 n =
    if leb n 0x7f
    then n ∷ []
    else if leb n 0x7ff
    then (0xc0 + n / 64) ∷ (0x80 + n % 64) ∷ []
    else if leb n 0xffff
    then (0xe0 + n / 4096) ∷ (0x80 + (n / 64) % 64) ∷ (0x80 + n % 64) ∷ []
    else (0xf0 + n / 262144)
      ∷ (0x80 + (n / 4096) % 64)
      ∷ (0x80 + (n / 64) % 64)
      ∷ (0x80 + n % 64)
      ∷ []

unfoldable pub as_bytes : String → List ℕ
as_bytes String.[] = []
as_bytes (String.◌∷◌ c s) = utf8 (code c) ++ as_bytes s

unfoldable pub hash_bytes : ℕ → List ℕ → ℕ
hash_bytes hash [] = hash
hash_bytes hash (byte ∷ bytes) = hash_bytes ((bit_xor hash byte * 0x100000001b3) % 2 ^ 64) bytes

-- `str::to_lowercase`, which follows the Unicode tables, is a parameter.
unfoldable pub account_fingerprint : (String → String) → String → String
unfolding as_bytes hash_bytes padded_hex
account_fingerprint to_lowercase account_name =
    let hash = hash_bytes 0xcbf29ce484222325 (as_bytes (to_lowercase (trim account_name))) in
    concat ("account-" ∷ padded_hex 0 16 hash ∷ [])

id_some : id_at "recent" 255 65536 ≡ "recent-00000000000000ff-10000"
unfolding id_at hex_digit
id_some = refl

fingerprint_some : account_fingerprint (λ s. s) " a " ≡ "account-af63dc4c8601ec8c"
unfolding account_fingerprint hex_digit trim
fingerprint_some = refl
