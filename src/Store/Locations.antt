-- ===== src/Store/Locations.antt =====
-- agent/src/store.rs: what is known of the excluded locations that a request gives.
use proton_vpn_omarchy_core.Base.{
  ℕ, ◌+◌, ◌≤◌, Bool, true, false, ◌&&◌, ◌||◌, not, ◌==◌, String, List, [], ◌∷◌, ◌++◌, ◌≡◌, ◌≢◌,
  refl, sym, inl, inr, arith, length, any, All, Pairwise, Pairwise-snoc, All-append, ltb, str_eq,
  str_eq_iff, is_one_of, is_empty, char_count, has_break, all_chars, byte_length,
  is_ascii_alphabetic, to_ascii_uppercase, uppercase-alphabetic, to_ascii_uppercase_idem,
  Bool-cases, Option, none, some,
}
use proton_vpn_omarchy_core.Json.{Value, Fields, get}
use proton_vpn_omarchy_core.Store.Checks.{OnOk, OnOk-ok, OnOk-mono, OnOk-bind, refuse_if-ok}
use proton_vpn_omarchy_core.Store.Values.{string_value, required_string, is_refused_text}
use proton_vpn_omarchy_core.Store.File.{ExcludedLocation, max_excluded_locations}
use proton_vpn_omarchy_core.Store.Excluded.{
  location_of, parse_location, location_key, push_location, collect_locations, requested_locations,
  is_country_code,
}

pub not-false : (b : Bool) → not b ≡ false → b ≡ true
not-false true h = refl
not-false false h = sym h

-- A location as it may stand in an account.
abbrev pub IsWellFormed : ExcludedLocation → Type 0
IsWellFormed l =
    (is_one_of l.kind ("country" ∷ "state" ∷ "city" ∷ []) ≡ true)
    × (is_country_code l.country_code ≡ true)
    × (to_ascii_uppercase l.country_code ≡ l.country_code)
    × (is_refused_text 128 l.state ≡ false)
    × (is_refused_text 128 l.city ≡ false)
    × ((str_eq l.kind "state" && is_empty l.state || str_eq l.kind "city" && is_empty l.city)
        ≡ false)

abbrev pub HasOtherKey : ExcludedLocation → ExcludedLocation → Type 0
HasOtherKey l m = location_key l ≢ location_key m

abbrev pub IsLocationList : List ExcludedLocation → Type 0
IsLocationList ls =
    (length ls ≤ max_excluded_locations) × All IsWellFormed ls × Pairwise HasOtherKey ls

empty_text : (n : ℕ) → is_refused_text n String.[] ≡ false
unfolding char_count has_break
empty_text n = ground arith

string_value-OnOk :
    (value : Option Value) (n : ℕ) (b : Bool)
    → OnOk (λ s. is_refused_text n s ≡ false) (string_value value n b)
unfolding string_value
string_value-OnOk none n b = OnOk-ok String.[] (empty_text n)
string_value-OnOk (some value) n b =
    OnOk-bind _ _ λ raw e. OnOk-bind _ _ λ u f. OnOk-ok _ (refuse_if-ok _ _ f)

required_string-OnOk :
    (o : Fields) (key : String) (n : ℕ)
    → OnOk (λ s. is_refused_text n s ≡ false) (required_string o key n)
unfolding required_string
required_string-OnOk o key n = OnOk-bind _ _ λ value e.
    OnOk-bind _ _ λ u f. OnOk-ok value ((string_value-OnOk (get o key) n true).at value e)

uppercase-country :
    (s : String) → is_country_code s ≡ true → is_country_code (to_ascii_uppercase s) ≡ true
uppercase-country s h =
    let letters = right (byte_length s == 2) (all_chars is_ascii_alphabetic s) h in
    let (kept, size) = uppercase-alphabetic s letters in
    rw (kept, size) (both (byte_length s == 2) (all_chars is_ascii_alphabetic s) h)
  where
    right : (a b : Bool) → (a && b) ≡ true → b ≡ true
    right a b h = ground arith

    both : (a b : Bool) → (a && b) ≡ true → (a && true) ≡ true
    both a b h = ground arith

location_of-OnOk : (o : Fields) → OnOk IsWellFormed (location_of o)
unfolding location_of
location_of-OnOk o = OnOk-bind _ _ λ name e1. OnOk-bind _ _ λ u1 f1. OnOk-bind _ _ λ code e2.
    OnOk-bind _ _ λ u2 f2. OnOk-bind _ _ λ state e3. OnOk-bind _ _ λ city e4. OnOk-bind _ _ λ u3 f3.
      OnOk-ok _ (
        not-false _ (refuse_if-ok _ _ f1),
        uppercase-country code (not-false _ (refuse_if-ok _ _ f2)),
        to_ascii_uppercase_idem code,
        (string_value-OnOk (get o "state") 128 true).at state e3,
        (string_value-OnOk (get o "city") 128 true).at city e4,
        refuse_if-ok _ _ f3,
      )

parse_location-OnOk : (v : Value) → OnOk IsWellFormed (parse_location v)
unfolding parse_location
parse_location-OnOk v = OnOk-bind _ _ λ o e. location_of-OnOk o

-- No location of the list has the key, if the search for it fails.
All-of_any-false :
    (l : ExcludedLocation) (ls : List ExcludedLocation)
    → any (λ m. str_eq (location_key m) (location_key l)) ls ≡ false
    → All (HasOtherKey l) ls
unfolding any
All-of_any-false l [] h = tt
All-of_any-false l (m ∷ ls) h = elim (Bool-cases (str_eq (location_key m) (location_key l))) [
  | inl same ↦ absurd (let h' = rw same at h in let no : ⊥ = cc in no)
  | inr other ↦ (
    (λ e.
        let hit = (str_eq_iff (location_key m) (location_key l)).1 (sym e) in
        let no : ⊥ = cc in no),
    All-of_any-false l ls (rw other at h),
  )
]

push_location-list :
    (ls : List ExcludedLocation) (l : ExcludedLocation)
    → IsWellFormed l
    → All IsWellFormed ls × Pairwise HasOtherKey ls
    → (length (push_location ls l) ≤ length ls + 1)
      × All IsWellFormed (push_location ls l)
      × Pairwise HasOtherKey (push_location ls l)
unfolding push_location
push_location-list ls l w h =
    elim (Bool-cases (any (λ m. str_eq (location_key m) (location_key l)) ls)) [
      | inl hit ↦ rw (hit, push_location) (omega arith, h.0, h.1)
      | inr miss ↦
          rw (miss, push_location)
            (
              length-snoc ls,
              All-append IsWellFormed ls (l ∷ []) h.0 (w, tt),
              Pairwise-snoc HasOtherKey ls l (λ a b ne same. ne (sym same)) h.1
                  (All-of_any-false l ls miss),
            )
    ]
  where
    length-snoc : (ls : List ExcludedLocation) → length (ls ++ l ∷ []) ≤ length ls + 1
    length-snoc [] = omega arith
    length-snoc (x ∷ ls) = omega (arith, length-snoc ls)

collect_locations-OnOk :
    (ls : List ExcludedLocation) (items : List Value)
    → All IsWellFormed ls × Pairwise HasOtherKey ls
    → OnOk
        (λ rs.
          (length rs ≤ length ls + length items) × All IsWellFormed rs × Pairwise HasOtherKey rs)
        (collect_locations ls items)
unfolding collect_locations
collect_locations-OnOk ls [] h = OnOk-ok ls (omega arith, h.0, h.1)
collect_locations-OnOk ls (item ∷ items) h = OnOk-bind _ _ λ l e.
    let pushed = push_location-list ls l ((parse_location-OnOk item).at l e) h in
    OnOk-mono _ (λ rs k. (omega (arith, k.0, pushed.0), k.1, k.2))
      (collect_locations-OnOk (push_location ls l) items (pushed.1, pushed.2))

pub requested_locations-OnOk : (params : Value) → OnOk IsLocationList (requested_locations params)
unfolding requested_locations
requested_locations-OnOk params = OnOk-bind _ _ λ o e1. OnOk-bind _ _ λ raw e2.
    OnOk-bind _ _ λ u e3.
      OnOk-mono _ (λ rs k. (within (length raw) (length rs) (refuse_if-ok _ _ e3) k.0, k.1, k.2))
        (collect_locations-OnOk [] raw (tt, tt))
  where
    within :
        (m n : ℕ) → ltb max_excluded_locations m ≡ false → n ≤ 0 + m → n ≤ max_excluded_locations
    within m n h k = ground arith
