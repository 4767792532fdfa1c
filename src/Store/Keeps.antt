-- ===== src/Store/Keeps.antt =====
-- agent/src/store.rs: what the changes of one account keep of its entry.
use proton_vpn_omarchy_core.Base.{
  ℕ, Bool, String, List, ◌∷◌, Option, none, some, ◌≡◌, refl, All, entry, All-set_entry, entry-All,
  unwrap_or, keep, update_first, leb, length, [], ◌++◌, ◌≤◌, arith, false, not,
}
use proton_vpn_omarchy_core.Json.{Value, Fields, object}
use proton_vpn_omarchy_core.Backend.{ok}
use proton_vpn_omarchy_core.Store.Edit.{
  after_reading, after_lift, after_change, Keeps, Keeps-bind, Keeps-change, Keeps-done, Keeps-lift,
  Keeps-reading, keeps_rules,
}
use proton_vpn_omarchy_core.Store.File.{
  StoreFile, AccountStore, Onboarding, active_key, entry_or_default, put_account, default_account,
  has_text, next_file, max_profiles, ExcludedLocation,
}
use proton_vpn_omarchy_core.Store.Checks.{refuse_if-ok}
use proton_vpn_omarchy_core.Store.Sorting.{length-keep-keep-le}
use proton_vpn_omarchy_core.Store.Profiles.{normalize_profile}
use proton_vpn_omarchy_core.Store.Ids.{unique_id}
use proton_vpn_omarchy_core.Store.Excluded.{requested_locations}
use proton_vpn_omarchy_core.Store.Recents.{trim_recents, recent_key}
use proton_vpn_omarchy_core.Store.Defaults.{validate_default, valid_default}
use proton_vpn_omarchy_core.Store.Requests.{
  save_in_account, duplicate_in_account, with_profiles, with_recents, store_profile,
}
use proton_vpn_omarchy_core.Store.Changes.{
  without_profile, without_recent, pin_in_account, pin, record_in_account, with_recorded, recorded,
  others_of,
}

-- What the changes of one account's entry keep.
pub record IsKept (Q : AccountStore → Type 0) : Type 0 where
  pub saved :
      (ip_text : String → Option String) (raw : Fields) (existing : Option Fields) (id : String)
      (now : ℕ) (o : Fields) (a : AccountStore)
      → normalize_profile ip_text raw existing id now ≡ ok o
      → Q a
      → Q (with_profiles (store_profile id (object o) a.profiles) a)
  pub copied :
      (ip_text : String → Option String) (raw : Fields) (id_time now : ℕ) (o : Fields)
      (a : AccountStore)
      → leb max_profiles (length a.profiles) ≡ false
      → normalize_profile ip_text raw none (unique_id "profile" id_time a.profiles) now ≡ ok o
      → Q a
      → Q (with_profiles (a.profiles ++ object o ∷ []) a)
  pub defaulted : (a : AccountStore) (v : Value) → Q a → Q (record a { default_connection = v })
  pub pinned :
      (id_time now : ℕ) (id : String) (b : Bool) (a : AccountStore)
      → Q a
      → Q (
          trim_recents
            (with_recents (update_first (has_text "id" id) (pin id_time now b) a.recents) a))
  pub put_first :
      (id_time now : ℕ) (r : Fields) (a : AccountStore)
      → Q a
      → Q (
          trim_recents (
            with_recents
              (object (recorded id_time now r a) ∷ others_of id_time now (recent_key r) a.recents)
              a))
  pub fewer :
      (a : AccountStore) (ps : List Value) (p : Value → Bool)
      → ((q : Value → Bool) → length (keep q ps) ≤ length (keep q a.profiles))
      → Q a
      → Q (record a { profiles = ps; recents = keep p a.recents })
  pub located :
      (a : AccountStore) (params : Value) (ls : List ExcludedLocation)
      → requested_locations params ≡ ok ls
      → Q a
      → Q (record a { excluded_locations = ls })

-- A predicate `P` of the data that rests on `Q` of the active account's entry.
pub record RestsOn (P : StoreFile → Type 0) (Q : AccountStore → Type 0) : Type 0 where
  pub entered : (file : StoreFile) → P file → Q (entry_or_default (active_key file) file)
  pub put_back :
      (file : StoreFile) (account : AccountStore)
      → P file
      → Q account
      → P (put_account (active_key file) account file)
  pub settings : (file : StoreFile) (s : Onboarding) → P file → P (record file { onboarding = s })
  pub bumped : (file : StoreFile) → P file → P (next_file file)

-- What every account has, an account that is made included.
module _ (Q : AccountStore → Type 0) (new : Q default_account) where
  abbrev pub AllAccounts : StoreFile → Type 0
  AllAccounts file = All (λ e. Q e.1) file.accounts

  pub entered_entry :
      (key : String) (file : StoreFile) → AllAccounts file → Q (entry_or_default key file)
  unfolding entry_or_default
  entered_entry key file h = of_entry (entry key file.accounts) refl
    where
      of_entry :
          (o : Option AccountStore) → entry key file.accounts ≡ o → Q (unwrap_or o default_account)
      of_entry none e = new
      of_entry (some a) e = entry-All Q key a file.accounts h e

  pub AllAccounts-RestsOn : RestsOn AllAccounts Q
  unfolding put_account
  AllAccounts-RestsOn = record {
    entered = λ file p. entered_entry (active_key file) file p;
    put_back = λ file account p q. All-set_entry Q (active_key file) account file.accounts p q;
    settings = λ file s p. p;
    bumped = λ file p. p;
  }

module _ {Q : AccountStore → Type 0} (kept : IsKept Q) where
  validated : (a : AccountStore) → Q a → Q (validate_default a)
  unfolding validate_default
  validated a q = kept.defaulted a (valid_default a a.default_connection) q

  pub without_profile-kept : (id : String) (a : AccountStore) → Q a → Q (without_profile id a)
  unfolding without_profile
  without_profile-kept id a q =
      validated _
        (kept.fewer a _ _ (λ t. length-keep-keep-le t (λ p. not (has_text "id" id p)) a.profiles) q)

  pub without_recent-kept : (id : String) (a : AccountStore) → Q a → Q (without_recent id a)
  unfolding without_recent
  without_recent-kept id a q = validated _ (kept.fewer a a.profiles _ (λ t. omega arith) q)

  module _ (ip_text : String → Option String) (id_time now : ℕ) where
    with_recorded-kept : (r : Fields) (a : AccountStore) → Q a → Q (with_recorded id_time now r a)
    unfolding with_recorded
    with_recorded-kept r a q = validated _ (kept.put_first id_time now r a q)

    pub save_in_account-Keeps : (raw : Fields) → Keeps Q (save_in_account ip_text id_time now raw)
    unfolding save_in_account
    save_in_account-Keeps raw = record {
      at = λ a q. after_reading Q _ _ a (
          after_lift Q _ _ a q λ existing_id e1. after_lift Q _ _ a q λ id e2.
            after_lift Q _ _ a q
              λ o e3. after_change Q _ _ a (kept.saved ip_text raw _ id now o a e3 q));
    }

    pub duplicate_in_account-Keeps :
        (o : Fields) (id : String) → Keeps Q (duplicate_in_account ip_text id_time now o id)
    unfolding duplicate_in_account
    duplicate_in_account-Keeps o id = record {
      at = λ a q. after_reading Q _ _ a (
          after_lift Q _ _ a q λ _ e1. after_lift Q _ _ a q λ source e2.
            after_lift Q _ _ a q λ requested e3. after_lift Q _ _ a q λ name e4.
              after_lift Q _ _ a q λ p e5.
                after_change Q _ _ a
                  (kept.copied ip_text _ id_time now p a (refuse_if-ok _ _ e1) e5 q));
    }

    pub pin_in_account-Keeps :
        (id : String) (pinned : Bool) → Keeps Q (pin_in_account id_time now id pinned)
    unfolding pin_in_account
    pin_in_account-Keeps id pinned = Keeps-bind _ _ (Keeps-reading _) λ _.
        Keeps-bind _ _ (Keeps-lift _) λ _.
          Keeps-bind _ _ (Keeps-change _ λ a q. kept.pinned id_time now id pinned a q)
            (λ _. Keeps-done _)

    pub record_in_account-Keeps :
        (r : Fields) (kind : String) → Keeps Q (record_in_account id_time now r kind)
    unfolding record_in_account
    record_in_account-Keeps r kind = search (keeps_rules, Keeps-change, with_recorded-kept) depth 16
