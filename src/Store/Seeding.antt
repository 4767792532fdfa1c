-- ===== src/Store/Seeding.antt =====
-- agent/src/store.rs: what the profiles that an account is given once leave of its data.
use proton_vpn_omarchy_core.Base.{
  ℕ, Bool, true, false, ◌&&◌, not, String, List, [], ◌∷◌, ◌++◌, Option, none, some, ◌≡◌, refl, inl,
  inr, arith, All, any, length, ltb, entry, All-set_entry, unwrap_or, Option-cases, if-both,
  if◌then◌else◌, has_entry, str_eq,
}
use proton_vpn_omarchy_core.Json.{Value, object, text_of}
use proton_vpn_omarchy_core.Backend.{Result, ok, err}
use proton_vpn_omarchy_core.Store.Checks.{OnOk, OnOk-ok, OnOk-bind}
use proton_vpn_omarchy_core.Store.Locale.{is_spanish}
use proton_vpn_omarchy_core.Store.Edit.{Keeps-bind}
use proton_vpn_omarchy_core.Store.File.{
  StoreFile, AccountStore, default_account, entry_or_default, put_account, has_text, max_profiles,
  legacy_scope,
}
use proton_vpn_omarchy_core.Store.Defaults.{any_id}
use proton_vpn_omarchy_core.Store.Seed.{
  fastest_default_profile_id, fastest_raw, fastest_default_profile, official_default_profiles,
  add_missing, with_fastest, seed_account_with_official_profiles, seed_account_with_fastest_profile,
  has, when_official, when_fastest, all_ids, official_default_profile_ids, mark_official,
  mark_fastest,
}
use proton_vpn_omarchy_core.Store.Accounts.{adopt, prepare}
use proton_vpn_omarchy_core.Store.Counting.{count-append, count-miss}
use proton_vpn_omarchy_core.Store.OwnIds.{
  OwnIds, HasOwnIds, default_account-HasOwnIds, count-nil, appended, prepended,
  text_of-normalize_profile,
}
use proton_vpn_omarchy_core.Store.Distinct.{HasOwnTargets, default_account-HasOwnTargets}
use proton_vpn_omarchy_core.Store.Tidy.{IsTidy, default_account-IsTidy}
use proton_vpn_omarchy_core.Store.Keeps.{entered_entry}

-- What holds of every account: its lists are bounded and well formed, no two of its recents have one
-- target, and no two of its profiles one identifier.
abbrev pub IsGood : AccountStore → Type 0
IsGood a = IsTidy a × HasOwnTargets a × HasOwnIds a

pub default_account-IsGood : IsGood default_account
default_account-IsGood =
    (default_account-IsTidy, default_account-HasOwnTargets, default_account-HasOwnIds)

abbrev pub AllGood : StoreFile → Type 0
AllGood file = All (λ e. IsGood e.1) file.accounts

-- A value without an identifier changes no count.
unnamed : (v : Value) (ps : List Value) → text_of v "id" ≡ none → OwnIds ps → OwnIds (ps ++ v ∷ [])
unfolding has_text
unnamed v ps e h key =
    let miss : has_text "id" key v ≡ false = rw e refl in
    omega (
      arith,
      count-append (has_text "id" key) ps (v ∷ []),
      count-miss (has_text "id" key) v [] miss,
      count-nil (has_text "id" key),
      h key,
    )

template_appended :
    (v : Value) (ps : List Value)
    → any_id (unwrap_or (text_of v "id") String.[]) ps ≡ false
    → OwnIds ps
    → OwnIds (ps ++ v ∷ [])
unfolding any_id
template_appended v ps free h = elim (Option-cases (text_of v "id")) [
  | inl e ↦ unnamed v ps e h
  | inr (id, e) ↦ appended id v e ps (rw e at free) h
]

add_missing-OwnIds :
    (ip_text : String → Option String) (now : String → ℕ) (templates ps : List Value)
    → OwnIds ps
    → OwnIds (add_missing ip_text now templates ps)
unfolding add_missing
add_missing-OwnIds ip_text now [] ps h = h
add_missing-OwnIds ip_text now (v ∷ vs) ps h =
    add_missing-OwnIds ip_text now vs _
      (of_found (any_id (unwrap_or (text_of v "id") String.[]) ps) refl)
  where
    of_found :
        (b : Bool)
        → any_id (unwrap_or (text_of v "id") String.[]) ps ≡ b
        → OwnIds (if not b && ltb (length ps) max_profiles then ps ++ v ∷ [] else ps)
    of_found true e = h
    of_found false e =
        if-both OwnIds (ltb (length ps) max_profiles) (ps ++ v ∷ []) ps (template_appended v ps e h)
          h

-- The profile for the fastest connection is put in front of the others where it is missing.
with_fastest-IsGood :
    (ip_text : String → Option String) (now : String → ℕ) (v : Value) (a : AccountStore)
    → text_of v "id" ≡ some fastest_default_profile_id
    → IsGood a
    → IsGood (with_fastest ip_text now v a).0
unfolding with_fastest any_id
with_fastest-IsGood ip_text now v a e (tidy, targets, ids) =
    (tidy, targets, of_found (any_id fastest_default_profile_id a.profiles) refl)
  where
    of_found :
        (b : Bool)
        → any_id fastest_default_profile_id a.profiles ≡ b
        → OwnIds
            (if not b && ltb (length a.profiles) max_profiles then v ∷ a.profiles else a.profiles)
    of_found true f = ids
    of_found false f =
        if-both OwnIds (ltb (length a.profiles) max_profiles) (v ∷ a.profiles) a.profiles
          (prepended fastest_default_profile_id v e a.profiles f ids) ids

put_account-AllGood :
    (key : String) (a : AccountStore) (file : StoreFile)
    → AllGood file
    → IsGood a
    → AllGood (put_account key a file)
unfolding put_account
put_account-AllGood key a file all good = All-set_entry IsGood key a file.accounts all good

entry_or_default-IsGood :
    (key : String) (file : StoreFile) → AllGood file → IsGood (entry_or_default key file)
entry_or_default-IsGood = entered_entry IsGood default_account-IsGood

fastest_default_profile-id :
    (ip_text : String → Option String) (now : String → ℕ) (locale : String)
    → OnOk
        (λ v. text_of v "id" ≡ some fastest_default_profile_id)
        (fastest_default_profile ip_text now locale)
unfolding fastest_default_profile
fastest_default_profile-id ip_text now locale = OnOk-bind _ _ λ o e. OnOk-ok (object o) (
    text_of-normalize_profile ip_text (fastest_raw (is_spanish locale)) none
      fastest_default_profile_id (now fastest_default_profile_id) o e)

module _ (ip_text : String → Option String) (now : String → ℕ) (key : String) (file : StoreFile)
    (all : AllGood file) where
  officially_seeded : AllGood (seed_account_with_official_profiles ip_text now key file).0
  unfolding seed_account_with_official_profiles
  officially_seeded =
      if-both {A = StoreFile × Result Bool} (λ r. AllGood r.0)
        (has key file.migration.official_default_profiles_seeded_for_accounts) (file, ok false) _
        all (of_templates (official_default_profiles ip_text now file.onboarding.locale))
    where
      of_templates : (r : Result (List Value)) → AllGood (when_official ip_text now key r file).0
      of_templates (err e) = all
      of_templates (ok templates) =
          let account = entry_or_default key file in
          let grown = record account {
            profiles = add_missing ip_text now templates account.profiles;
          } in
          let (tidy, targets, ids) = entry_or_default-IsGood key file all in
          let put =
            put_account-AllGood key grown file all
              (tidy, targets, add_missing-OwnIds ip_text now templates account.profiles ids) in
          if-both AllGood (all_ids ip_text now official_default_profile_ids grown.profiles)
            (mark_official ip_text now key (put_account key grown file))
            (put_account key grown file) put put

  seeded_with_fastest : AllGood (seed_account_with_fastest_profile ip_text now key file).0
  unfolding seed_account_with_fastest_profile
  seeded_with_fastest =
      if-both {A = StoreFile × Result Bool} (λ r. AllGood r.0)
        (has key file.migration.fastest_default_profile_seeded_for_accounts) (file, ok false) _ all
        (of_profile (fastest_default_profile ip_text now file.onboarding.locale)
          (fastest_default_profile-id ip_text now file.onboarding.locale))
    where
      of_profile :
          (r : Result Value)
          → OnOk (λ v. text_of v "id" ≡ some fastest_default_profile_id) r
          → AllGood (when_fastest ip_text now key r file).0
      of_profile (err e) h = all
      of_profile (ok v) h =
          let account = with_fastest ip_text now v (entry_or_default key file) in
          let put = put_account-AllGood key account.0 file all (
            with_fastest-IsGood ip_text now v (entry_or_default key file) (h.at v refl)
              (entry_or_default-IsGood key file all)) in
          if-both AllGood account.1 (mark_fastest ip_text now key (put_account key account.0 file))
            (put_account key account.0 file) put put

  adopted : AllGood (adopt key file)
  unfolding adopt
  adopted = if-both AllGood (has_entry key file.accounts) file _ all (
      if-both AllGood
        (file.migration.legacy_qt_store_imported
          && not (any (str_eq key) file.migration.copied_to_account_keys))
        _ (put_account key legacy file) put put)
    where
      legacy : AccountStore
      legacy = unwrap_or (entry legacy_scope file.accounts) default_account

      put : AllGood (put_account key legacy file)
      put =
          put_account-AllGood key legacy file all
            (unfold entry_or_default in entry_or_default-IsGood legacy_scope file all)

-- The data that an activation prepares is good if the data before is, whether it is prepared to the
-- end or not.
pub prepare-AllGood :
    (ip_text : String → Option String) (now : String → ℕ) (key : String) (file : StoreFile)
    → AllGood file
    → AllGood (prepare ip_text now key file).0
unfolding prepare
prepare-AllGood ip_text now key file all =
    (Keeps-bind (seed_account_with_official_profiles ip_text now key)
        (λ _. seed_account_with_fastest_profile ip_text now key)
        (record { at = officially_seeded ip_text now key })
        (λ _. record { at = seeded_with_fastest ip_text now key })).at
      (adopt key file) (adopted ip_text now key file all)
