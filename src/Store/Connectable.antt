-- ===== src/Store/Connectable.antt =====
-- agent/src/store.rs: a profile that has been stored can be connected with.
use proton_vpn_omarchy_core.Base.{
  ℕ, Bool, true, false, String, List, [], ◌∷◌, ◌++◌, Option, some, ◌≡◌, refl, sym, ap, subst, ◌∙◌,
  inl, inr, arith, All, select, is_one_of, is_one_of-All, is_one_of-select, str_eq, is_empty, trim,
  char_count, has_break, not, ◌&&◌, Bool-cases, str_eq_iff,
}
use proton_vpn_omarchy_core.Json.{
  Value, Fields, string, natural, boolean, object, get, put, put_all, get-put-same,
  get-put_all-other,
}
use proton_vpn_omarchy_core.Backend.{Result, ok}
use proton_vpn_omarchy_core.Store.Checks.{OnOk, OnOk-ok, OnOk-bind, refuse_if-ok, ◌>>=◌, require}
use proton_vpn_omarchy_core.Store.Locations.{not-false}
use proton_vpn_omarchy_core.Store.Profiles.{
  profile_target, profile_target_valid, target_arms, profile_settings, profile_connect_and_go,
  normalize_profile, created_at,
}
use proton_vpn_omarchy_core.Store.Resolve.{resolved_profile, profile_kind_target, copied_target}
use proton_vpn_omarchy_core.Store.Clean.{IsClean, required_string-IsClean, required_string-of_clean}

-- A result that is no error.
abbrev pub IsOk : {A : Type 0} → Result A → Type 0
IsOk {A} r = (a : A) × (r ≡ ok a)

IsOk-bind :
    {A B : Type 0} (r : Result A) (f : A → Result B) (a : A)
    → r ≡ ok a
    → IsOk (f a)
    → IsOk (r >>= f)
unfolding ◌>>=◌
IsOk-bind r f a e h = (h.0, ap (λ r. r >>= f) e ∙ h.1)

-- No member of a list has one of these names.
abbrev required_names : List String
required_names = "id" ∷ "name" ∷ "targetKind" ∷ []

abbrev has_others : List (String × Value) → Bool
has_others [] = true
has_others ((k, v) ∷ ms) = not (is_one_of k required_names) && has_others ms

other-All :
    (ms : List (String × Value)) (name : String)
    → is_one_of name required_names ≡ true
    → has_others ms ≡ true
    → All (λ m. str_eq m.0 name ≡ false) ms
other-All [] name known h = tt
other-All ((k, v) ∷ ms) name known h = elim (Bool-cases (str_eq k name)) [
  | inl same ↦
      let e : is_one_of k required_names ≡ true =
        subst (λ s. is_one_of s required_names ≡ true) (sym ((str_eq_iff k name).0 same)) known in
      absurd (let h' = rw e at h in let no : ⊥ = cc in no)
  | inr other ↦ (other, other-All ms name known (right (not (is_one_of k required_names)) _ h))
]
  where
    right : (a b : Bool) → (a && b) ≡ true → b ≡ true
    right a b h = ground arith

has_others-append :
    (ms ns : List (String × Value))
    → has_others ms ≡ true
    → has_others ns ≡ true
    → has_others (ms ++ ns) ≡ true
has_others-append [] ns h k = k
has_others-append ((j, v) ∷ ms) ns h k =
    both (not (is_one_of j required_names)) _ _ h (λ t. has_others-append ms ns t k)
  where
    both : (a b c : Bool) → (a && b) ≡ true → (b ≡ true → c ≡ true) → (a && c) ≡ true
    both a b c h f = ground arith

abbrev Others : List (String × Value) → Type 0
Others ms = has_others ms ≡ true

profile_settings-Others :
    (ip_text : String → Option String) (raw : Fields) (protocol : String)
    → OnOk Others (profile_settings ip_text raw protocol)
unfolding profile_settings is_one_of
profile_settings-Others ip_text raw protocol = OnOk-bind _ _ λ _ _. OnOk-bind _ _ λ _ _.
    OnOk-bind _ _ λ _ _. OnOk-bind _ _ λ _ _. OnOk-bind _ _ λ _ _. OnOk-bind _ _ λ _ _.
      OnOk-bind _ _ λ _ _. OnOk-bind _ _ λ _ _.
        OnOk-bind _ _
          λ _ _. OnOk-bind _ _ λ _ _. OnOk-bind _ _ λ _ _. OnOk-bind _ _ λ _ _. OnOk-ok _ refl

profile_connect_and_go-Others :
    (ip_text : String → Option String) (raw : Fields)
    → OnOk Others (profile_connect_and_go ip_text raw)
unfolding profile_connect_and_go is_one_of
profile_connect_and_go-Others ip_text raw = OnOk-bind _ _ λ _ _. OnOk-bind _ _ λ _ _.
    OnOk-bind _ _ λ _ _. OnOk-bind _ _ λ _ _.
      OnOk-bind _ _
        λ _ _. OnOk-bind _ _ λ _ _. OnOk-bind _ _ λ _ _. OnOk-bind _ _ λ _ _. OnOk-ok _ refl

-- The kinds of target.
abbrev target_kinds : List String
target_kinds =
    "fastest" ∷ "random" ∷ "p2p" ∷ "tor" ∷ "secureCore" ∷ "country" ∷ "state" ∷ "city" ∷ "server"
    ∷ "gateway" ∷ "gatewayServer" ∷ []

valid_kind :
    (kind : String) (o : Fields)
    → profile_target_valid kind o ≡ true
    → is_one_of kind target_kinds ≡ true
unfolding profile_target_valid
valid_kind kind o h = is_one_of-select kind (target_arms o) h

abbrev IsKind : String → Type 0
IsKind kind =
    IsClean 32 kind
    × (is_empty kind ≡ false)
    × ((target : Fields) → IsOk (profile_kind_target kind target))

kinds-IsKind : All IsKind target_kinds
unfolding trim char_count has_break profile_kind_target select
kinds-IsKind = (
  ((refl, refl), refl, λ t. (t, refl)),
  (
    ((refl, refl), refl, λ t. (put t "random" (boolean true), refl)),
    (
      ((refl, refl), refl, λ t. (put t "p2p" (boolean true), refl)),
      (
        ((refl, refl), refl, λ t. (put t "tor" (boolean true), refl)),
        (
          ((refl, refl), refl, λ t. (put t "secure_core" (boolean true), refl)),
          (
            ((refl, refl), refl, λ t. (t, refl)),
            (
              ((refl, refl), refl, λ t. (t, refl)),
              (
                ((refl, refl), refl, λ t. (t, refl)),
                (
                  ((refl, refl), refl, λ t. (t, refl)),
                  (
                    ((refl, refl), refl, λ t. (t, refl)),
                    (((refl, refl), refl, λ t. (t, refl)), tt),
                  ),
                ),
              ),
            ),
          ),
        ),
      ),
    ),
  ),
)

profile_target-valid :
    (ip_text : String → Option String) (raw : Fields)
    → OnOk (λ t. is_one_of t.0 target_kinds ≡ true) (profile_target ip_text raw)
unfolding profile_target
profile_target-valid ip_text raw = OnOk-bind _ _ λ kind _. OnOk-bind _ _ λ _ _. OnOk-bind _ _ λ _ _.
    OnOk-bind _ _ λ location _.
      OnOk-bind _ _ λ _ e. OnOk-ok _ (valid_kind kind location (not-false _ (refuse_if-ok _ _ e)))

module _ (id name kind strategy : Value) (rest : List (String × Value)) (location : Fields)
    (h : has_others rest ≡ true) where
  abbrev members : Fields
  members =
      put_all
        (("id", id)
          ∷ ("name", name)
          ∷ ("targetKind", kind)
          ∷ ("selectionStrategy", strategy)
          ∷ rest)
        location

  stored_kind : get members "targetKind" ≡ some kind
  unfolding is_one_of
  stored_kind =
      get-put_all-other (("selectionStrategy", strategy) ∷ rest) _ "targetKind"
        (refl, other-All rest "targetKind" refl h)
      ∙ get-put-same (put (put location "id" id) "name" name) "targetKind" kind

  stored_name : get members "name" ≡ some name
  unfolding is_one_of
  stored_name =
      get-put_all-other (("targetKind", kind) ∷ ("selectionStrategy", strategy) ∷ rest) _ "name"
        (refl, (refl, other-All rest "name" refl h))
      ∙ get-put-same (put location "id" id) "name" name

  stored_id : get members "id" ≡ some id
  unfolding is_one_of
  stored_id =
      get-put_all-other
        (("name", name) ∷ ("targetKind", kind) ∷ ("selectionStrategy", strategy) ∷ rest) _ "id"
        (refl, (refl, (refl, other-All rest "id" refl h)))
      ∙ get-put-same location "id" id

-- A stored profile has the three members, each as it is required.
module _ (ip_text : String → Option String) (raw : Fields) (existing : Option Fields) (id : String)
    (now : ℕ) where
  abbrev pub IsStored : Fields → Type 0
  IsStored o =
      (get o "id" ≡ some (string id))
      × ((name : String) × (get o "name" ≡ some (string name))
          × IsClean 60 name
          × (is_empty name ≡ false))
      × ((kind : String) × (get o "targetKind" ≡ some (string kind))
          × (is_one_of kind target_kinds ≡ true))

  pub normalize_profile-IsStored : OnOk IsStored (normalize_profile ip_text raw existing id now)
  unfolding normalize_profile
  normalize_profile-IsStored = OnOk-bind _ _ λ name e1.
      OnOk-bind _ _ λ (kind, strategy, location) e2. OnOk-bind _ _ λ protocol e3.
        OnOk-bind _ _ λ settings e4. OnOk-bind _ _ λ go e5.
          let dates : List (String × Value) =
            ("createdAtMs", natural (created_at ip_text raw existing now))
            ∷ ("updatedAtMs", natural now)
            ∷ [] in
          let h =
            has_others-append settings (go ++ dates)
              ((profile_settings-Others ip_text raw protocol).at settings e4)
              (has_others-append go dates ((profile_connect_and_go-Others ip_text raw).at go e5)
                (unfold is_one_of in refl)) in
          let clean = (required_string-IsClean raw "name" 60).at name e1 in
          OnOk-ok _ (
            stored_id _ _ _ _ (settings ++ (go ++ dates)) location h,
            (name, stored_name _ _ _ _ (settings ++ (go ++ dates)) location h, clean.0, clean.1),
            (
              kind,
              stored_kind _ _ _ _ (settings ++ (go ++ dates)) location h,
              (profile_target-valid ip_text raw).at (kind, strategy, location) e2,
            ),
          )

  stored-resolves :
      (o : Fields) (selection_type : String)
      → IsStored o
      → IsClean 128 id
      → is_empty id ≡ false
      → IsOk (resolved_profile (object o) selection_type)
  unfolding resolved_profile require ◌>>=◌
  stored-resolves o selection_type
        (has_id, (name, has_name, name_clean, name_full), (kind, has_kind, known)) id_clean
        id_full =
      let (kind_clean, kind_full, target) =
        is_one_of-All IsKind kind target_kinds kinds-IsKind known in
      IsOk-bind _ _ kind
        (required_string-of_clean o "targetKind" kind 32 has_kind kind_clean kind_full)
        (IsOk-bind _ _ (target (copied_target o)).0 (target (copied_target o)).1 (
          IsOk-bind _ _ id (required_string-of_clean o "id" id 128 has_id id_clean id_full) (
            IsOk-bind _ _ name
              (required_string-of_clean o "name" name 60 has_name name_clean name_full) (_, refl))))

-- A profile that the store accepts can be connected with: if `normalize_profile` gives members under
-- an identifier that is trimmed, not empty, of 128 characters at most and without line breaks,
-- then `resolved_profile` gives the parameters of a connection for them.
pub normalize_profile-IsOk :
    (ip_text : String → Option String) (raw : Fields) (existing : Option Fields) (id : String)
    (now : ℕ) (o : Fields) (selection_type : String)
    → normalize_profile ip_text raw existing id now ≡ ok o
    → IsClean 128 id
    → is_empty id ≡ false
    → IsOk (resolved_profile (object o) selection_type)
normalize_profile-IsOk ip_text raw existing id now o selection_type e clean full =
    stored-resolves ip_text raw existing id now o selection_type
      ((normalize_profile-IsStored ip_text raw existing id now).at o e) clean full
