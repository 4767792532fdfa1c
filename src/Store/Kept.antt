-- ===== src/Store/Kept.antt =====
-- agent/src/store.rs: what every request keeps, from what the changes of one account keep.
use proton_vpn_omarchy_core.Base.{
  ℕ, Bool, String, Option, none, some, sym, subst, inl, inr, select-All,
}
use proton_vpn_omarchy_core.Json.{Value}
use proton_vpn_omarchy_core.Backend.{Result, ok, err}
use proton_vpn_omarchy_core.Store.Edit.{
  Edit, Keeps, Keeps-bind-lift, Keeps-bind, Keeps-change, Keeps-done, keeps_rules,
}
use proton_vpn_omarchy_core.Store.File.{
  StoreFile, AccountStore, Onboarding, account_mut, active_key, entry_or_default,
}
use proton_vpn_omarchy_core.Store.Excluded.{requested_locations}
use proton_vpn_omarchy_core.Store.Requests.{
  complete_onboarding, set_preferences, set_locale, set_preference, save_profile, duplicate_profile,
  update,
}
use proton_vpn_omarchy_core.Store.Changes.{
  delete_profile, delete_recent, set_default_connection, set_excluded_locations, pin_recent,
  record_recent,
}
use proton_vpn_omarchy_core.Store.Disk.{Disk}
use proton_vpn_omarchy_core.Store.Handle.{Inner, mutate, request_inner, request_arms}
use proton_vpn_omarchy_core.Store.Commit.{mutate_lem, Settled}
use proton_vpn_omarchy_core.Store.Keeps.{
  IsKept, RestsOn, without_profile-kept, without_recent-kept, save_in_account-Keeps,
  duplicate_in_account-Keeps, pin_in_account-Keeps, record_in_account-Keeps,
}

module _ {P : StoreFile → Type 0} {Q : AccountStore → Type 0} (kept : IsKept Q)
    (rests : RestsOn P Q) where
  account_mut-Keeps : {A : Type 0} (m : Edit AccountStore A) → Keeps Q m → Keeps P (account_mut m)
  unfolding account_mut
  account_mut-Keeps m h = record {
    at = λ file p.
        rests.put_back file _ p
          (h.at (entry_or_default (active_key file) file) (rests.entered file p));
  }

  update-Keeps : (f : Onboarding → Onboarding) → Keeps P (update f)
  update-Keeps f = Keeps-change _ λ file p. rests.settings file (f file.onboarding) p

  set_locale-Keeps : (value : Option Value) → Keeps P (set_locale value)
  unfolding set_locale
  set_locale-Keeps none = search keeps_rules
  set_locale-Keeps (some value) = search (keeps_rules, update-Keeps)

  set_preference-Keeps :
      (value : Option Value) (message : String) (write : Bool → Onboarding → Onboarding)
      → Keeps P (set_preference value message write)
  unfolding set_preference
  set_preference-Keeps none message write = search keeps_rules
  set_preference-Keeps (some value) message write = search (keeps_rules, update-Keeps)

  complete_onboarding-Keeps : (params : Value) → Keeps P (complete_onboarding params)
  unfolding complete_onboarding
  complete_onboarding-Keeps params = search (keeps_rules, update-Keeps) depth 24

  set_preferences-Keeps : (params : Value) → Keeps P (set_preferences params)
  unfolding set_preferences
  set_preferences-Keeps params =
      search (keeps_rules, update-Keeps, set_locale-Keeps, set_preference-Keeps) depth 24

  delete_profile-Keeps : (params : Value) → Keeps P (delete_profile params)
  unfolding delete_profile
  delete_profile-Keeps params =
      search (keeps_rules, Keeps-change, account_mut-Keeps, without_profile-kept kept) depth 24

  delete_recent-Keeps : (params : Value) → Keeps P (delete_recent params)
  unfolding delete_recent
  delete_recent-Keeps params =
      search (keeps_rules, Keeps-change, account_mut-Keeps, without_recent-kept kept) depth 24

  set_default_connection-Keeps : (params : Value) → Keeps P (set_default_connection params)
  unfolding set_default_connection
  set_default_connection-Keeps params =
      search (keeps_rules, Keeps-change, account_mut-Keeps, kept.defaulted) depth 24

  set_excluded_locations-Keeps : (params : Value) → Keeps P (set_excluded_locations params)
  unfolding set_excluded_locations
  set_excluded_locations-Keeps params = Keeps-bind-lift (requested_locations params) _ λ ls e.
      account_mut-Keeps _
        (Keeps-bind _ _ (Keeps-change _ λ a q. kept.located a params ls e q) (λ _. Keeps-done _))

  module _ (ip_text : String → Option String) (id_time now : ℕ) where
    save_profile-Keeps : (params : Value) → Keeps P (save_profile ip_text id_time now params)
    unfolding save_profile
    save_profile-Keeps params =
        search (keeps_rules, account_mut-Keeps, save_in_account-Keeps kept) depth 12

    duplicate_profile-Keeps :
        (params : Value) → Keeps P (duplicate_profile ip_text id_time now params)
    unfolding duplicate_profile
    duplicate_profile-Keeps params =
        search (keeps_rules, account_mut-Keeps, duplicate_in_account-Keeps kept) depth 12

    pin_recent-Keeps : (params : Value) → Keeps P (pin_recent id_time now params)
    unfolding pin_recent
    pin_recent-Keeps params =
        search (keeps_rules, account_mut-Keeps, pin_in_account-Keeps kept) depth 12

    record_recent-Keeps : (params : Value) → Keeps P (record_recent id_time now params)
    unfolding record_recent
    record_recent-Keeps params =
        search (keeps_rules, account_mut-Keeps, record_in_account-Keeps kept) depth 12

    module _ (disk : Disk) (path lifecycle_path : disk.FilePath) where
      abbrev State : Type 0
      State = Inner disk path lifecycle_path

      settled-kept :
          (s : State) (changed : StoreFile × Result Value) (r : State × Result Value)
          → P s.file
          → P changed.0
          → Settled disk path lifecycle_path s changed r
          → P r.0.file
      settled-kept s (file, err e) r p q h = subst (λ r. P r.0.file) (sym h) q
      settled-kept s (file, ok reply) r p q (inl h) = subst P (sym h.1) (rests.bumped file q)
      settled-kept s (file, ok reply) r p q (inr h) = subst P (sym h.1) p

      pub mutate-kept :
          (m : Edit StoreFile Value) (s : State)
          → Keeps P m
          → P s.file
          → P (mutate disk path lifecycle_path m s).0.file
      mutate-kept m s h p =
          settled-kept s (m s.file) _ p (h.at s.file p) (mutate_lem disk path lifecycle_path m s)

      -- Every method leaves the store alone or makes a change of its data that keeps `P`.
      pub request_inner-rule :
          (R : State × Result Value → Type 0) (method : String) (params : Value) (s : State)
          → ((r : Result Value) → R (s, r))
          → ((m : Edit StoreFile Value) → Keeps P m → R (mutate disk path lifecycle_path m s))
          → R (request_inner disk path lifecycle_path ip_text id_time now method params s)
      unfolding request_inner
      request_inner-rule R method params s same made =
          select-All R method (request_arms disk path lifecycle_path ip_text id_time now params s) _
            (
              same _,
              (
                same _,
                (
                  same _,
                  (
                    made _ (complete_onboarding-Keeps params),
                    (
                      made _ (set_preferences-Keeps params),
                      (
                        made _ (save_profile-Keeps params),
                        (
                          made _ (duplicate_profile-Keeps params),
                          (
                            made _ (delete_profile-Keeps params),
                            (
                              same _,
                              (
                                made _ (set_excluded_locations-Keeps params),
                                (
                                  made _ (record_recent-Keeps params),
                                  (
                                    made _ (pin_recent-Keeps params),
                                    (
                                      made _ (delete_recent-Keeps params),
                                      (made _ (set_default_connection-Keeps params), (same _, tt)),
                                    ),
                                  ),
                                ),
                              ),
                            ),
                          ),
                        ),
                      ),
                    ),
                  ),
                ),
              ),
            )
            (same _)

      -- Whatever the method and whatever its end.
      pub request_inner-kept :
          (method : String) (params : Value) (s : State)
          → P s.file
          → P (request_inner disk path lifecycle_path ip_text id_time now method params s).0.file
      request_inner-kept method params s p =
          request_inner-rule (λ r. P r.0.file) method params s (λ r. p) (λ m h. mutate-kept m s h p)
