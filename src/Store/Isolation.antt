-- ===== src/Store/Isolation.antt =====
-- agent/src/store.rs: a request changes the data of the active account only.
use proton_vpn_omarchy_core.Base.{
  ℕ, false, String, Option, ◌≡◌, refl, ap, ◌∙◌, entry, str_eq, unwrap_or, entry-set_entry-other,
}
use proton_vpn_omarchy_core.Json.{Value}
use proton_vpn_omarchy_core.Store.File.{
  StoreFile, AccountStore, active_key, put_account, legacy_scope,
}
use proton_vpn_omarchy_core.Store.Disk.{Disk}
use proton_vpn_omarchy_core.Store.Handle.{Inner, request_inner}
use proton_vpn_omarchy_core.Store.Keeps.{IsKept, RestsOn}
use proton_vpn_omarchy_core.Store.Kept.{request_inner-kept}

-- Nothing is known of the entry that is changed.
anything-IsKept : IsKept (λ _. Unit)
anything-IsKept = record {
  saved = λ ip_text raw existing id now o a e q. tt;
  copied = λ ip_text raw id_time now o a few e q. tt;
  defaulted = λ a v q. tt;
  pinned = λ id_time now id b a q. tt;
  put_first = λ id_time now r a q. tt;
  fewer = λ a ps p less q. tt;
  located = λ a params ls e q. tt;
}

-- The data has what `before` had but for its settings, its revision and its active account.
abbrev pub IsApart : StoreFile → String → StoreFile → Type 0
IsApart before key file =
    (entry key file.accounts ≡ entry key before.accounts)
    × (file.active_account_key ≡ before.active_account_key)
    × (file.migration ≡ before.migration)
    × (file.version ≡ before.version)

put_account-other :
    (before : StoreFile) (key : String)
    → str_eq (active_key before) key ≡ false
    → (file : StoreFile) (account : AccountStore) → IsApart before key file
    → entry key (put_account (active_key file) account file).accounts ≡ entry key file.accounts
unfolding put_account
put_account-other before key ne file account p =
    let same : active_key file ≡ active_key before =
      ap (λ (o : Option String). unwrap_or o legacy_scope) p.1 in
    let e : str_eq (active_key file) key ≡ false = rw same ne in
    entry-set_entry-other (active_key file) key account file.accounts e

IsApart-RestsOn :
    (before : StoreFile) (key : String)
    → str_eq (active_key before) key ≡ false
    → RestsOn (IsApart before key) (λ _. Unit)
unfolding put_account
IsApart-RestsOn before key ne = record {
  entered = λ file p. tt;
  put_back =
      λ file account p q. (put_account-other before key ne file account p ∙ p.0, p.1, p.2, p.3);
  settings = λ file s p. p;
  bumped = λ file p. p;
}

-- Whatever the method and its parameters, and whether the request succeeds or fails: the entry of
-- an account that is not the active one stays as it is, and so do the choice of the active
-- account, what is known of migrations and the version.
pub request_inner-IsApart :
    (disk : Disk) (path lifecycle_path : disk.FilePath) (ip_text : String → Option String)
    (id_time now : ℕ) (method : String) (params : Value) (s : Inner disk path lifecycle_path)
    (key : String)
    → str_eq (active_key s.file) key ≡ false
    → IsApart s.file key
        (request_inner disk path lifecycle_path ip_text id_time now method params s).0.file
request_inner-IsApart disk path lifecycle_path ip_text id_time now method params s key ne =
    request_inner-kept anything-IsKept (IsApart-RestsOn s.file key ne) ip_text id_time now disk path
      lifecycle_path method params s (refl, refl, refl, refl)
