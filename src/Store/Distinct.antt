-- ===== src/Store/Distinct.antt =====
-- agent/src/store.rs: no two recents of an account have the same target.
use proton_vpn_omarchy_core.Base.{
  ℕ, ◌≤◌, Bool, false, not, String, List, [], ◌∷◌, Option, ◌≡◌, refl, ap, subst, ◌∙◌, inl, inr,
  arith, take, keep, update_first, All, str_eq, str_eq_iff, Bool-cases,
}
use proton_vpn_omarchy_core.Json.{
  Value, Fields, object, array, string, number, boolean, null, put, text, text_or, get-put-other,
}
use proton_vpn_omarchy_core.Store.File.{
  AccountStore, default_account, has_text, max_unpinned_recents,
}
use proton_vpn_omarchy_core.Store.Recents.{
  recent_key, has_key_of, trim_recents, sort, is_pinned, is_unpinned, pinned_before,
  unpinned_before,
}
use proton_vpn_omarchy_core.Store.Requests.{with_recents}
use proton_vpn_omarchy_core.Store.Changes.{pin, recorded, finished_recent, others_of}
use proton_vpn_omarchy_core.Store.Counting.{
  count, count-sort, count-take, count-append, count-split, count-hit, count-miss, count-others,
  count-keep-le, count-update_first,
}
use proton_vpn_omarchy_core.Store.Keeps.{IsKept}

text_or-put :
    (o : Fields) (k n : String) (v : Value) (d : String)
    → str_eq k n ≡ false
    → text_or (put o k v) n d ≡ text_or o n d
unfolding text_or text
text_or-put o k n v d ne = rw (get-put-other o k n v ne) refl

-- The members that a key is made of.
abbrev key_members : List String
key_members =
    "kind" ∷ "gatewayName" ∷ "serverName" ∷ "profileId" ∷ "feature" ∷ "entryCountryCode"
    ∷ "countryCode" ∷ "state" ∷ "city" ∷ []

recent_key-put :
    (o : Fields) (k : String) (v : Value)
    → All (λ n. str_eq k n ≡ false) key_members
    → recent_key (put o k v) ≡ recent_key o
unfolding recent_key
recent_key-put o k v h =
    rw
      (
        text_or-put o k "kind" v String.[] h.0,
        text_or-put o k "gatewayName" v String.[] h.1.0,
        text_or-put o k "serverName" v String.[] h.1.1.0,
        text_or-put o k "profileId" v String.[] h.1.1.1.0,
        text_or-put o k "feature" v "all" h.1.1.1.1.0,
        text_or-put o k "entryCountryCode" v String.[] h.1.1.1.1.1.0,
        text_or-put o k "countryCode" v String.[] h.1.1.1.1.1.1.0,
        text_or-put o k "state" v String.[] h.1.1.1.1.1.1.1.0,
        text_or-put o k "city" v String.[] h.1.1.1.1.1.1.1.1.0,
      )
      refl

-- None of them is a member that is set when a recent is recorded or pinned.
abbrev apart_members : All (λ (n : String). false ≡ false) key_members
apart_members = (refl, (refl, (refl, (refl, (refl, (refl, (refl, (refl, (refl, tt)))))))))

-- No two recents have the same target.
abbrev pub HasOwnTargets : AccountStore → Type 0
HasOwnTargets a = (key : String) → count (has_key_of key) a.recents ≤ 1

module _ (id_time now : ℕ) where
  recent_key-finished_recent :
      (r : Fields) (reused : Option Fields) (others : List Value)
      → recent_key (finished_recent id_time now r reused others) ≡ recent_key r
  unfolding finished_recent
  recent_key-finished_recent r reused others =
      recent_key-put _ "lastConnectionTimeMs" _ apart_members
      ∙ recent_key-put _ "pinTimeMs" _ apart_members
      ∙ recent_key-put _ "pinned" _ apart_members
      ∙ recent_key-put r "id" _ apart_members

  has_key_of-pin :
      (key : String) (b : Bool) (v : Value)
      → has_key_of key (pin id_time now b v) ≡ has_key_of key v
  unfolding has_key_of pin
  has_key_of-pin key b (object o) =
      ap (λ k. str_eq k key)
        (recent_key-put _ "pinTimeMs" _ apart_members ∙ recent_key-put o "pinned" _ apart_members)
  has_key_of-pin key b (array vs) = refl
  has_key_of-pin key b (string s) = refl
  has_key_of-pin key b (number n) = refl
  has_key_of-pin key b (boolean c) = refl
  has_key_of-pin key b null = refl

  recent_key-recorded :
      (r : Fields) (a : AccountStore) → recent_key (recorded id_time now r a) ≡ recent_key r
  unfolding recorded
  recent_key-recorded r a = recent_key-finished_recent r _ _

  has_key_of-recorded :
      (r : Fields) (a : AccountStore) (key : String)
      → has_key_of key (object (recorded id_time now r a)) ≡ str_eq (recent_key r) key
  unfolding has_key_of
  has_key_of-recorded r a key = ap (λ k. str_eq k key) (recent_key-recorded r a)

  count-recorded :
      (r : Fields) (a : AccountStore) (key : String)
      → HasOwnTargets a
      → count
          (has_key_of key)
          (object (recorded id_time now r a) ∷ others_of id_time now (recent_key r) a.recents)
        ≤ 1
  unfolding others_of
  count-recorded r a key h = elim (Bool-cases (str_eq (recent_key r) key)) [
    | inl same ↦
        let k : recent_key r ≡ key = (str_eq_iff (recent_key r) key).0 same in
        omega (
          arith,
          count-hit (has_key_of key) (object (recorded id_time now r a))
              (keep (λ v. not (has_key_of (recent_key r) v)) a.recents)
              (has_key_of-recorded r a key ∙ same),
          subst
              (λ j.
                count (has_key_of j) (keep (λ v. not (has_key_of (recent_key r) v)) a.recents) ≡ 0)
              k (count-others (has_key_of (recent_key r)) a.recents),
        )
    | inr other ↦ omega (
      arith,
      count-miss (has_key_of key) (object (recorded id_time now r a))
          (keep (λ v. not (has_key_of (recent_key r) v)) a.recents)
          (has_key_of-recorded r a key ∙ other),
      count-keep-le (has_key_of key) (λ v. not (has_key_of (recent_key r) v)) a.recents,
      h key,
    )
  ]

count-trim_recents :
    (p : Value → Bool) (a : AccountStore) → count p (trim_recents a).recents ≤ count p a.recents
unfolding trim_recents is_unpinned
count-trim_recents p a =
    let pins = keep is_pinned a.recents in
    let rest = keep is_unpinned a.recents in
    omega (
      arith,
      count-append p (sort pinned_before pins)
          (take max_unpinned_recents (sort unpinned_before rest)),
      count-sort p pinned_before pins,
      count-sort p unpinned_before rest,
      count-take p max_unpinned_recents (sort unpinned_before rest),
      count-split p is_pinned is_unpinned a.recents (λ v. refl),
    )

pub HasOwnTargets-IsKept : IsKept HasOwnTargets
HasOwnTargets-IsKept = record {
  saved = λ ip_text raw existing id now o a e q. q;
  copied = λ ip_text raw id_time now o a few e q. q;
  defaulted = λ a v q. q;
  pinned = λ id_time now id b a q key. omega (
    arith,
    count-trim_recents (has_key_of key)
        (with_recents (update_first (has_text "id" id) (pin id_time now b) a.recents) a),
    count-update_first (has_key_of key) (has_text "id" id) (pin id_time now b) a.recents
        (λ v hit. has_key_of-pin id_time now key b v),
    q key,
  );
  put_first = λ id_time now r a q key. omega (
    arith,
    count-trim_recents (has_key_of key) (
        with_recents
          (object (recorded id_time now r a) ∷ others_of id_time now (recent_key r) a.recents) a),
    count-recorded id_time now r a key q,
  );
  fewer = λ a ps p less q key. omega (arith, count-keep-le (has_key_of key) p a.recents, q key);
  located = λ a params ls e q. q;
}

pub default_account-HasOwnTargets : HasOwnTargets default_account
unfolding count keep
default_account-HasOwnTargets key = omega arith
