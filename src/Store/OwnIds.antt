-- ===== src/Store/OwnIds.antt =====
-- agent/src/store.rs: no two profiles of an account have the same identifier.
use proton_vpn_omarchy_core.Base.{
  ℕ, ◌+◌, ◌≤◌, ◌<◌, ◌^◌, Bool, true, false, String, List, [], ◌∷◌, ◌++◌, Option, none, some, ◌≡◌,
  refl, sym, subst, ◌∙◌, inl, inr, arith, str_eq_refl, Bool-cases, length, keep, any, str_eq,
  str_eq_iff, leb,
}
use proton_vpn_omarchy_core.Json.{Value, Fields, object, text_of}
use proton_vpn_omarchy_core.Backend.{ok}
use proton_vpn_omarchy_core.Store.File.{AccountStore, default_account, has_text, max_profiles}
use proton_vpn_omarchy_core.Store.Recents.{trim_recents}
use proton_vpn_omarchy_core.Store.Profiles.{normalize_profile}
use proton_vpn_omarchy_core.Store.Ids.{unique_id}
use proton_vpn_omarchy_core.Store.Requests.{store_profile}
use proton_vpn_omarchy_core.Store.Defaults.{any_id}
use proton_vpn_omarchy_core.Store.Fresh.{unique_id-IsFree, has_text-once}
use proton_vpn_omarchy_core.Store.Connectable.{normalize_profile-IsStored}
use proton_vpn_omarchy_core.Store.Counting.{
  count, count-append, count-hit, count-miss, count-update_first, count-of_none,
}
use proton_vpn_omarchy_core.Store.Keeps.{IsKept}

abbrev pub OwnIds : List Value → Type 0
OwnIds ps = (id : String) → count (has_text "id" id) ps ≤ 1

-- No two profiles have the same identifier.
abbrev pub HasOwnIds : AccountStore → Type 0
HasOwnIds a = OwnIds a.profiles

pub count-nil : (p : Value → Bool) → count p [] ≡ 0
unfolding count keep
count-nil p = refl

module _ (id : String) (w : Value) (has : text_of w "id" ≡ some id) where
  has_text-stored : (key : String) → has_text "id" key w ≡ str_eq id key
  unfolding has_text
  has_text-stored key = rw has refl

  -- An entry with the same identifier passes the same tests.
  has_text-same :
      (key : String) (v : Value)
      → has_text "id" id v ≡ true
      → has_text "id" key w ≡ has_text "id" key v
  has_text-same key v hit = has_text-stored key ∙ of_key (str_eq id key) refl
    where
      of_key : (b : Bool) → str_eq id key ≡ b → b ≡ has_text "id" key v
      of_key true e = sym (subst (λ k. has_text "id" k v ≡ true) ((str_eq_iff id key).0 e) hit)
      of_key false e = elim (Bool-cases (has_text "id" key v)) [
        | inr miss ↦ sym miss
        | inl p ↦
            let same : id ≡ key = has_text-once "id" id key v hit p in
            let e' = rw same at e in
            let f = rw (str_eq_refl key) at e' in absurd (let no : ⊥ = cc in no)
      ]

  pub appended :
      (ps : List Value) → any (has_text "id" id) ps ≡ false → OwnIds ps → OwnIds (ps ++ w ∷ [])
  appended ps free h key = elim (Bool-cases (str_eq id key)) [
    | inl same ↦
        let none_of : count (has_text "id" key) ps ≡ 0 =
          subst (λ k. count (has_text "id" k) ps ≡ 0) ((str_eq_iff id key).0 same)
            (count-of_none (has_text "id" id) ps free) in
        omega (
          arith,
          count-append (has_text "id" key) ps (w ∷ []),
          count-hit (has_text "id" key) w [] (has_text-stored key ∙ same),
          count-nil (has_text "id" key),
          none_of,
        )
    | inr other ↦ omega (
      arith,
      count-append (has_text "id" key) ps (w ∷ []),
      count-miss (has_text "id" key) w [] (has_text-stored key ∙ other),
      count-nil (has_text "id" key),
      h key,
    )
  ]

  stored : (ps : List Value) → OwnIds ps → OwnIds (store_profile id w ps)
  unfolding store_profile any_id
  stored ps h = elim (Bool-cases (any (has_text "id" id) ps)) [
    | inl e ↦ rw e (λ key. omega (
      arith,
      count-update_first (has_text "id" key) (has_text "id" id) (λ _. w) ps
          (λ v hit. has_text-same key v hit),
      h key,
    ))
    | inr e ↦ rw e (appended ps e h)
  ]

  pub prepended :
      (ps : List Value) → any (has_text "id" id) ps ≡ false → OwnIds ps → OwnIds (w ∷ ps)
  prepended ps free h key = elim (Bool-cases (str_eq id key)) [
    | inl same ↦
        let none_of : count (has_text "id" key) ps ≡ 0 =
          subst (λ k. count (has_text "id" k) ps ≡ 0) ((str_eq_iff id key).0 same)
            (count-of_none (has_text "id" id) ps free) in
        omega (arith, count-hit (has_text "id" key) w ps (has_text-stored key ∙ same), none_of)
    | inr other ↦
        omega (arith, count-miss (has_text "id" key) w ps (has_text-stored key ∙ other), h key)
  ]

at_most :
    (p : Value → Bool) (vs ws : List Value)
    → length (keep p vs) ≤ length (keep p ws)
    → count p ws ≤ 1
    → count p vs ≤ 1
unfolding count
at_most p vs ws h k = omega arith

pub default_account-HasOwnIds : HasOwnIds default_account
default_account-HasOwnIds key = omega (arith, count-nil (has_text "id" key))

pub text_of-normalize_profile :
    (ip_text : String → Option String) (raw : Fields) (existing : Option Fields) (id : String)
    (now : ℕ) (o : Fields)
    → normalize_profile ip_text raw existing id now ≡ ok o
    → text_of (object o) "id" ≡ some id
unfolding text_of
text_of-normalize_profile ip_text raw existing id now o e =
    rw ((normalize_profile-IsStored ip_text raw existing id now).at o e).0 refl

pub HasOwnIds-IsKept : IsKept HasOwnIds
unfolding any_id
HasOwnIds-IsKept = record {
  saved = λ ip_text raw existing id now o a e q.
      stored id (object o) (text_of-normalize_profile ip_text raw existing id now o e) a.profiles q;
  copied = λ ip_text raw id_time now o a few e q.
      let id = unique_id "profile" id_time a.profiles in
      appended id (object o) (text_of-normalize_profile ip_text raw none id now o e) a.profiles
        (unique_id-IsFree "profile" id_time a.profiles (short (length a.profiles) few)).0 q;
  defaulted = λ a v q. q;
  pinned = λ id_time now id b a q. unfold trim_recents in q;
  put_first = λ id_time now r a q. unfold trim_recents in q;
  fewer = λ a ps p less q key.
      at_most (has_text "id" key) ps a.profiles (less (has_text "id" key)) (q key);
  located = λ a params ls e q. q;
}
  where
    short : (n : ℕ) → leb max_profiles n ≡ false → n + 1 < 2 ^ 64
    short n h = ground arith
