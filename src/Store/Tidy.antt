-- ===== src/Store/Tidy.antt =====
-- agent/src/store.rs: the bounds that every account in the store stays within.
use proton_vpn_omarchy_core.Base.{ℕ, ◌≤◌, String, List, Option, arith, length, keep, All}
use proton_vpn_omarchy_core.Json.{Value}
use proton_vpn_omarchy_core.Store.File.{
  StoreFile, AccountStore, default_account, max_unpinned_recents,
}
use proton_vpn_omarchy_core.Store.Recents.{is_unpinned, trim_recents}
use proton_vpn_omarchy_core.Store.Requests.{with_recents}
use proton_vpn_omarchy_core.Store.Sorting.{length-keep-keep-le}
use proton_vpn_omarchy_core.Store.Trimming.{unpinned-trimmed}
use proton_vpn_omarchy_core.Store.Locations.{IsLocationList, requested_locations-OnOk}
use proton_vpn_omarchy_core.Store.Disk.{Disk}
use proton_vpn_omarchy_core.Store.Handle.{Inner, request_inner}
use proton_vpn_omarchy_core.Store.Keeps.{IsKept, AllAccounts-RestsOn}
use proton_vpn_omarchy_core.Store.Kept.{request_inner-kept}

-- At most six recents that are not pinned, and at most 256 excluded locations, which are well
-- formed and have different keys.
abbrev pub IsTidy : AccountStore → Type 0
IsTidy a =
    (length (keep is_unpinned a.recents) ≤ max_unpinned_recents)
    × IsLocationList a.excluded_locations

abbrev pub AllTidy : StoreFile → Type 0
AllTidy file = All (λ e. IsTidy e.1) file.accounts

pub default_account-IsTidy : IsTidy default_account
unfolding keep
default_account-IsTidy = (omega arith, (omega arith, tt, tt))

trimmed :
    (rs : List Value) (a : AccountStore) → IsTidy a → IsTidy (trim_recents (with_recents rs a))
trimmed rs a q = (unpinned-trimmed (with_recents rs a), unfold trim_recents in q.1)

pub IsTidy-IsKept : IsKept IsTidy
IsTidy-IsKept = record {
  saved = λ ip_text raw existing id now o a e q. q;
  copied = λ ip_text raw id_time now o a few e q. q;
  defaulted = λ a v q. q;
  pinned = λ id_time now id b a q. trimmed _ a q;
  put_first = λ id_time now r a q. trimmed _ a q;
  fewer = λ a ps p less q. (omega (arith, length-keep-keep-le is_unpinned p a.recents, q.0), q.1);
  located = λ a params ls e q. (q.0, (requested_locations-OnOk params).at ls e);
}

-- If every account of the store has at most six recents that are not pinned and at most 256
-- excluded locations, well formed and with different keys, then so it is after a request, whatever
-- its method and parameters and whether or not it succeeds.
pub request_inner-AllTidy :
    (disk : Disk) (path lifecycle_path : disk.FilePath) (ip_text : String → Option String)
    (id_time now : ℕ) (method : String) (params : Value) (s : Inner disk path lifecycle_path)
    → AllTidy s.file
    → AllTidy (request_inner disk path lifecycle_path ip_text id_time now method params s).0.file
request_inner-AllTidy disk path lifecycle_path ip_text id_time now method params s h =
    request_inner-kept IsTidy-IsKept (AllAccounts-RestsOn IsTidy default_account-IsTidy) ip_text
      id_time now disk path lifecycle_path method params s h
