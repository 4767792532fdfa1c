-- ===== src/Store/Choices.antt =====
-- agent/src/store.rs: what a default connection that has been validated is.
use proton_vpn_omarchy_core.Base.{
  ◌↔◌, subst, true, false, String, List, [], ◌∷◌, ◌≡◌, refl, sym, ap, ◌∙◌, ◌⊎◌, inl, inr, select,
  select-All, is_empty, Option-cases, trim, char_count, has_break,
}
use proton_vpn_omarchy_core.Json.{Value, Fields, string, object_with, json, get, as_object}
use proton_vpn_omarchy_core.Backend.{Result, ok, err}
use proton_vpn_omarchy_core.Store.Checks.{
  OnOk, OnOk-ok, OnOk-bind, OnOk-if, OnOk-err, ◌>>=◌, require, refuse_if,
}
use proton_vpn_omarchy_core.Store.Values.{string_value, required_string, string_or}
use proton_vpn_omarchy_core.Store.File.{AccountStore}
use proton_vpn_omarchy_core.Store.Defaults.{
  any_id, default_arms, default_recent, default_profile, normalize_default, valid_default,
  validate_default, value_or_fastest,
}
use proton_vpn_omarchy_core.Store.Clean.{IsClean, required_string-IsClean, required_string-of_clean}

abbrev plain_choice : String → Value
plain_choice kind = json (("type", string kind) ∷ [])

abbrev recent_choice : String → Value
recent_choice id = json (("type", string "recent") ∷ ("recentId", string id) ∷ [])

abbrev profile_choice : String → Value
profile_choice id = json (("type", string "profile") ∷ ("profileId", string id) ∷ [])

-- An identifier as a choice holds it, of an entry that is there.
abbrev Names : String → List Value → Type 0
Names id entries = IsClean 128 id × (is_empty id ≡ false) × (any_id id entries ≡ true)

-- The five kinds of choice; the last two name a recent or a profile that the account has.
abbrev pub IsGoodChoice : AccountStore → Value → Type 0
IsGoodChoice a v =
    (v ≡ plain_choice "fastest")
    ⊎ (v ≡ plain_choice "random")
    ⊎ (v ≡ plain_choice "last")
    ⊎ ((id : String) × (v ≡ recent_choice id) × Names id a.recents)
    ⊎ ((id : String) × (v ≡ profile_choice id) × Names id a.profiles)

default_recent-OnOk :
    (selection : Fields) (a : AccountStore) → OnOk (IsGoodChoice a) (default_recent selection a)
unfolding default_recent
default_recent-OnOk selection a = OnOk-bind _ _ λ id e.
    OnOk-if _ _ _ (λ known. OnOk-ok _ (inr (inr (inr (inl (id, refl, named id e known))))))
      (λ _. OnOk-err _)
  where
    named :
        (id : String)
        → required_string selection "recentId" 128 ≡ ok id
        → any_id id a.recents ≡ true
        → Names id a.recents
    named id e known =
        let clean = (required_string-IsClean selection "recentId" 128).at id e in
        (clean.0, clean.1, known)

default_profile-OnOk :
    (selection : Fields) (a : AccountStore) → OnOk (IsGoodChoice a) (default_profile selection a)
unfolding default_profile
default_profile-OnOk selection a = OnOk-bind _ _ λ id e.
    OnOk-if _ _ _ (λ known. OnOk-ok _ (inr (inr (inr (inr (id, refl, named id e known))))))
      (λ _. OnOk-err _)
  where
    named :
        (id : String)
        → required_string selection "profileId" 128 ≡ ok id
        → any_id id a.profiles ≡ true
        → Names id a.profiles
    named id e known =
        let clean = (required_string-IsClean selection "profileId" 128).at id e in
        (clean.0, clean.1, known)

normalize_default-OnOk :
    (selection : Fields) (a : AccountStore) → OnOk (IsGoodChoice a) (normalize_default selection a)
unfolding normalize_default
normalize_default-OnOk selection a = OnOk-bind _ _ λ kind e.
    select-All (OnOk (IsGoodChoice a)) kind (default_arms selection a) _
      (
        OnOk-ok _ (inl refl),
        (
          OnOk-ok _ (inr (inl refl)),
          (
            OnOk-ok _ (inr (inr (inl refl))),
            (default_recent-OnOk selection a, (default_profile-OnOk selection a, tt)),
          ),
        ),
      )
      (OnOk-err _)

valid_default-IsGoodChoice : (a : AccountStore) (v : Value) → IsGoodChoice a (valid_default a v)
unfolding valid_default
valid_default-IsGoodChoice a v = elim (Option-cases (as_object v)) [
  | inl e ↦ rw (e, valid_default) (inl refl)
  | inr (o, e) ↦
      rw (e, valid_default) (of_result (normalize_default o a) (normalize_default-OnOk o a))
]
  where
    of_result : (r : Result Value) → OnOk (IsGoodChoice a) r → IsGoodChoice a (value_or_fastest r)
    of_result (ok w) h = h.at w refl
    of_result (err e) h = inl refl

-- A good choice is left as it is.
plain-kept :
    (a : AccountStore)
    → (valid_default a (plain_choice "fastest") ≡ plain_choice "fastest")
      × (valid_default a (plain_choice "random") ≡ plain_choice "random")
      × (valid_default a (plain_choice "last") ≡ plain_choice "last")
unfolding valid_default normalize_default string_or string_value trim char_count has_break get
    select ◌>>=◌ require refuse_if
plain-kept a = (refl, refl, refl)

default_recent-ok :
    (selection : Fields) (a : AccountStore) (id : String)
    → required_string selection "recentId" 128 ≡ ok id
    → any_id id a.recents ≡ true
    → default_recent selection a ≡ ok (recent_choice id)
unfolding default_recent ◌>>=◌
default_recent-ok selection a id e known = rw e (rw known refl)

kept_recent :
    (a : AccountStore) (id : String)
    → Names id a.recents
    → valid_default a (recent_choice id) ≡ recent_choice id
unfolding valid_default normalize_default string_or string_value trim char_count has_break get
    select ◌>>=◌ require refuse_if default_recent
kept_recent a id (clean, full, known) =
    let fields : Fields = object_with (("type", string "recent") ∷ ("recentId", string id) ∷ []) in
    let given : required_string fields "recentId" 128 ≡ ok id =
      required_string-of_clean fields "recentId" id 128 refl clean full in
    ap value_or_fastest (default_recent-ok fields a id given known)

default_profile-ok :
    (selection : Fields) (a : AccountStore) (id : String)
    → required_string selection "profileId" 128 ≡ ok id
    → any_id id a.profiles ≡ true
    → default_profile selection a ≡ ok (profile_choice id)
unfolding default_profile ◌>>=◌
default_profile-ok selection a id e known = rw e (rw known refl)

kept_profile :
    (a : AccountStore) (id : String)
    → Names id a.profiles
    → valid_default a (profile_choice id) ≡ profile_choice id
unfolding valid_default normalize_default string_or string_value trim char_count has_break get
    select ◌>>=◌ require refuse_if default_profile
kept_profile a id (clean, full, known) =
    let fields : Fields =
      object_with (("type", string "profile") ∷ ("profileId", string id) ∷ []) in
    let given : required_string fields "profileId" 128 ≡ ok id =
      required_string-of_clean fields "profileId" id 128 refl clean full in
    ap value_or_fastest (default_profile-ok fields a id given known)

good-kept : (a : AccountStore) (v : Value) → IsGoodChoice a v → valid_default a v ≡ v
good-kept a v (inl e) = ap (valid_default a) e ∙ (plain-kept a).0 ∙ sym e
good-kept a v (inr (inl e)) = ap (valid_default a) e ∙ (plain-kept a).1 ∙ sym e
good-kept a v (inr (inr (inl e))) = ap (valid_default a) e ∙ (plain-kept a).2 ∙ sym e
good-kept a v (inr (inr (inr (inl (id, e, known))))) =
    ap (valid_default a) e ∙ kept_recent a id known ∙ sym e
good-kept a v (inr (inr (inr (inr (id, e, known))))) =
    ap (valid_default a) e ∙ kept_profile a id known ∙ sym e

-- Whatever the stored default connection was, validation leaves one of the five kinds of choice, and
-- a recent or profile that it names is one that the account has. It leaves an account as it is exactly
-- if the default connection is such a choice, and changes nothing else of any account.
pub validate_default-IsGoodChoice :
    (a : AccountStore)
    → IsGoodChoice (validate_default a) (validate_default a).default_connection
      × (validate_default (validate_default a) ≡ validate_default a)
      × (IsGoodChoice a a.default_connection ↔ (validate_default a ≡ a))
      × (validate_default a
          ≡ record a { default_connection = (validate_default a).default_connection })
unfolding validate_default
validate_default-IsGoodChoice a =
    let good = valid_default-IsGoodChoice a a.default_connection in
    (
      good,
      ap (λ v. record a { default_connection = v })
          (good-kept a (valid_default a a.default_connection) good),
      (
        (λ chosen.
            ap (λ v. record a { default_connection = v })
              (good-kept a a.default_connection chosen)),
        λ same. subst (IsGoodChoice a) (ap (λ b. b.default_connection) same) good,
      ),
      refl,
    )
