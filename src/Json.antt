-- ===== src/Json.antt =====
-- JSON values as `serde_json` gives them to the agent, and the accessors that the code chains.
-- An object is its list of members; the code reads a member by its name only.
use proton_vpn_omarchy_core.Base.{
  ℕ, ◌≤◌, ◌^◌, ◌-◌, Bool, true, false, String, List, [], ◌∷◌, Option, none, some, ◌≡◌, arith, leb,
  if◌then◌else◌, and_then, map_some, unwrap_or, keep_if, is_empty, str_eq, str_eq_refl, str_eq_iff,
  refl, sym, ap, ◌∙◌, inl, inr, Bool-cases, All,
}

-- A number is an unsigned 64-bit integer, a negative one (`neg_int n` is -(n + 1)), or the bits
-- of a float.
pub data Number : Type 0 where
  pos_int : ℕ → Number
  neg_int : ℕ → Number
  float : ℕ → Number

mutual
  pub data Value : Type 0 where
    null : Value
    boolean : Bool → Value
    number : Number → Value
    string : String → Value
    array : Items → Value
    object : Fields → Value

  pub data Items : Type 0 where
    nil : Items
    cons : Value → Items → Items

  pub data Fields : Type 0 where
    end : Fields
    field : String → Value → Fields → Fields

-- `Map::get`.
unfoldable pub get : Fields → String → Option Value
get end k = none
get (field j v fs) k = if str_eq j k then some v else get fs k

abbrev pub as_bool : Value → Option Bool
as_bool (boolean b) = some b
as_bool _ = none

abbrev pub as_str : Value → Option String
as_str (string s) = some s
as_str _ = none

abbrev pub as_u64 : Value → Option ℕ
as_u64 (number (pos_int n)) = some n
as_u64 _ = none

-- The number that `as_f64` rounds to a float.
abbrev pub as_f64 : Value → Option Number
as_f64 (number n) = some n
as_f64 _ = none

abbrev pub as_object : Value → Option Fields
as_object (object o) = some o
as_object _ = none

abbrev pub to_list : Items → List Value
to_list nil = []
to_list (cons v vs) = v ∷ to_list vs

abbrev pub from_list : List Value → Items
from_list [] = nil
from_list (v ∷ vs) = cons v (from_list vs)

abbrev pub as_array : Value → Option (List Value)
as_array (array xs) = some (to_list xs)
as_array _ = none

-- `iter().filter_map(Value::as_str)`.
abbrev pub strings : List Value → List String
strings [] = []
strings (string s ∷ vs) = s ∷ strings vs
strings (_ ∷ vs) = strings vs

-- `Value::get` by a member's name: `None` for what is no object.
abbrev pub member : Value → String → Option Value
member v k = and_then (as_object v) (λ o. get o k)

-- `get(k).and_then(Value::as_bool).unwrap_or(false)`, on an object and on a value.
unfoldable pub flag : Fields → String → Bool
flag o k = unwrap_or (and_then (get o k) as_bool) false

unfoldable pub flag_of : Value → String → Bool
flag_of v k = unwrap_or (and_then (member v k) as_bool) false

-- `get(k).and_then(Value::as_str)`.
unfoldable pub text : Fields → String → Option String
text o k = and_then (get o k) as_str

unfoldable pub text_of : Value → String → Option String
text_of v k = and_then (member v k) as_str

abbrev pub object_of : Value → String → Option Fields
object_of v k = and_then (member v k) as_object

abbrev nonempty : String → Bool
nonempty s = if is_empty s then false else true

-- `.filter(|value| !value.is_empty())`.
unfoldable pub nonempty_text : Option String → Option String
nonempty_text o = keep_if nonempty o

-- `u8::try_from`, `u16::try_from` and `u32::try_from` of a `u64`, at 8, 16 and 32 bits.
unfoldable pub try_bits : ℕ → ℕ → Option ℕ
try_bits w n = if leb n (2 ^ w - 1) then some n else none

-- `as_i64` and `i32::try_from`.
unfoldable pub try_i32 : Value → Option Number
try_i32 (number (pos_int n)) = if leb n (2 ^ 31 - 1) then some (pos_int n) else none
try_i32 (number (neg_int n)) = if leb n (2 ^ 31 - 1) then some (neg_int n) else none
try_i32 _ = none

-- `string_array` of agent/src/state_reducer.rs: the texts of an array, or none of them.
unfoldable pub string_array : Fields → String → List String
string_array o k = unwrap_or (map_some strings (and_then (get o k) as_array)) []

-- A number that was converted is in range.
pub try_bits-le : (w n : ℕ) {m : ℕ} → try_bits w n ≡ some m → m ≤ 2 ^ w - 1
unfolding try_bits
try_bits-le w n e = ground arith

-- `Map::insert` and `Map::remove`.
unfoldable pub put : Fields → String → Value → Fields
put end k v = field k v end
put (field j w fs) k v = if str_eq j k then field j v fs else field j w (put fs k v)

unfoldable pub without : Fields → String → Fields
without end k = end
without (field j w fs) k = let rest = without fs k in if str_eq j k then rest else field j w rest

-- The literal of `json!` that wraps its members.
abbrev pub object_with : List (String × Value) → Fields
object_with [] = end
object_with ((k, v) ∷ ms) = field k v (object_with ms)

abbrev pub json : List (String × Value) → Value
json ms = object (object_with ms)

pub get-put-same : (o : Fields) (k : String) (v : Value) → get (put o k v) k ≡ some v
unfolding get put
get-put-same end k v = rw (str_eq_refl k) refl
get-put-same (field j w fs) k v = elim (Bool-cases (str_eq j k)) [
  | inl same ↦ rw same (rw same refl)
  | inr other ↦ rw other (rw other (get-put-same fs k v))
]

pub get-put-other :
    (o : Fields) (k j : String) (v : Value) → str_eq k j ≡ false → get (put o k v) j ≡ get o j
unfolding get put
get-put-other end k j v ne = rw ne refl
get-put-other (field i w fs) k j v ne = elim (Bool-cases (str_eq i k)) [
  | inl same ↦
      let ik : i ≡ k = (str_eq_iff i k).0 same in
      let ij : str_eq i j ≡ false = rw ik ne in
      let past : (u : Value) → get (field i u fs) j ≡ get fs j = λ u. rw ij refl in
      rw same (past v ∙ sym (past w))
  | inr other ↦ rw other (ap (λ o. if str_eq i j then some w else o) (get-put-other fs k j v ne))
]

-- Several insertions, the last of a name staying.
abbrev pub put_all : List (String × Value) → Fields → Fields
put_all [] o = o
put_all ((k, v) ∷ ms) o = put_all ms (put o k v)

abbrev pub natural : ℕ → Value
natural n = number (pos_int n)

-- `get(k).and_then(…).unwrap_or(…)`.
unfoldable pub text_or : Fields → String → String → String
unfolding text
text_or o k fallback = unwrap_or (text o k) fallback

unfoldable pub bool_or : Fields → String → Bool → Bool
bool_or o k fallback = unwrap_or (and_then (get o k) as_bool) fallback

unfoldable pub u64_or : Fields → String → ℕ → ℕ
u64_or o k fallback = unwrap_or (and_then (get o k) as_u64) fallback

-- Insertions under other names leave a member as it is.
pub get-put_all-other :
    (ms : List (String × Value)) (o : Fields) (k : String)
    → All (λ m. str_eq m.0 k ≡ false) ms
    → get (put_all ms o) k ≡ get o k
get-put_all-other [] o k h = refl
get-put_all-other ((j, v) ∷ ms) o k h =
    get-put_all-other ms (put o j v) k h.1 ∙ get-put-other o j k v h.0
