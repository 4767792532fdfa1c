-- ===== src/Splitd/Tests.antt =====
-- splitd/src: the daemon's rules and its tracking on a few processes.
use mathlib.Core.List.Memᴰ.{head}
use proton_vpn_omarchy_core.Base.{
  Bool, true, false, String, List, [], ◌∷◌, none, some, ◌≡◌, ◌↔◌, refl, Map, lookup, any, keep,
  is_empty, map_some, select, trim, byte_length, has_nul, strip_prefix, contains_text, arith,
}
use proton_vpn_omarchy_core.Splitd.Config.{
  exclude, include, SplitConfig, Networks, valid, normalize, is_bad_value, validate, matches,
}
use proton_vpn_omarchy_core.Splitd.Tracking.{ProcessInfo, tracked_process, build_tracking}
use proton_vpn_omarchy_core.Splitd.Validate.{NetworkLaws, IsValid, validate-again}
use proton_vpn_omarchy_core.Splitd.Descent.{
  HasOwnPids, IsDescendant, build_tracking_lem, own_process_stays,
}

-- Three networks, of which the first has host bits.
data Net : Type 0 where
  ten_seven ten everything : Net

abbrev show_net : Net → String
show_net ten_seven = "10.0.0.7/8"
show_net ten = "10.0.0.0/8"
show_net everything = "::/0"

abbrev truncate : Net → Net
truncate ten_seven = ten
truncate ten = ten
truncate everything = everything

abbrev nets : Networks
nets = record {
  Net = Net;
  Address = Unit;
  parse_net = λ s.
      select s
        (("10.0.0.7/8", some ten_seven) ∷ ("10.0.0.0/8", some ten) ∷ ("::/0", some everything) ∷ [])
        none;
  parse_address = λ s. none;
  host = λ a. everything;
  trunc = truncate;
  show = show_net;
}

laws : NetworkLaws nets
unfolding select trim byte_length has_nul
laws = record {
  trunc_trunc = trunc_trunc_of;
  parse_show = parse_show_of;
  trim_show = trim_show_of;
  show_filled = show_filled_of;
  show_good = show_good_of;
}
  where
    trunc_trunc_of : (n : Net) → truncate (truncate n) ≡ truncate n
    trunc_trunc_of ten_seven = refl
    trunc_trunc_of ten = refl
    trunc_trunc_of everything = refl

    parse_show_of : (n : Net) → nets.parse_net (show_net n) ≡ some n
    parse_show_of ten_seven = refl
    parse_show_of ten = refl
    parse_show_of everything = refl

    trim_show_of : (n : Net) → trim (show_net n) ≡ show_net n
    trim_show_of ten_seven = refl
    trim_show_of ten = refl
    trim_show_of everything = refl

    show_filled_of : (n : Net) → is_empty (show_net n) ≡ false
    show_filled_of ten_seven = refl
    show_filled_of ten = refl
    show_filled_of everything = refl

    show_good_of : (n : Net) → is_bad_value (show_net n) ≡ false
    show_good_of ten_seven = refl
    show_good_of ten = refl
    show_good_of everything = refl

abbrev entered : SplitConfig
entered = record {
  mode = exclude;
  app_paths = "/usr/bin/firefox" ∷ "/usr/bin/firefox" ∷ [];
  ip_ranges = " 10.0.0.7/8" ∷ "" ∷ "10.0.0.0/8" ∷ [];
}

abbrev stored : SplitConfig
stored = record {
  mode = exclude;
  app_paths = "/usr/bin/firefox" ∷ [];
  ip_ranges = "10.0.0.0/8" ∷ [];
}

validate-entered : validate nets entered ≡ valid stored
unfolding validate select trim byte_length has_nul keep any normalize
validate-entered = refl

validate-again_example : IsValid nets laws stored × (validate nets stored ≡ valid stored)
validate-again_example = validate-again nets laws entered stored validate-entered

-- A browser, its child, and a process of a user who has no rules.
abbrev browser : ProcessInfo
browser = record { uid = 1000; pid = 10; ppid = 1; identities = "/usr/bin/firefox" ∷ [] }

abbrev tab : ProcessInfo
tab = record { uid = 1000; pid = 11; ppid = 10; identities = "/usr/lib/firefox/contentproc" ∷ [] }

abbrev stranger : ProcessInfo
stranger = record { uid = 1001; pid = 12; ppid = 11; identities = "/usr/bin/firefox" ∷ [] }

abbrev processes : List ProcessInfo
processes = tab ∷ browser ∷ stranger ∷ []

abbrev configs : Map SplitConfig
configs = (1000, stored) ∷ []

processes-HasOwnPids : HasOwnPids processes
processes-HasOwnPids = ((omega arith, (omega arith, tt)), ((omega arith, tt), (tt, tt)))

tab_excluded :
    lookup 11 (build_tracking configs processes)
    ≡ some (record { uid = 1000; matched = true; excluded = true })
unfolding lookup build_tracking matches strip_prefix any keep
tab_excluded = refl

build_tracking_lem_example :
    (matched : Bool) × (lookup 11 (build_tracking configs processes)
      ≡ map_some (λ c. tracked_process c 1000 matched) (lookup 1000 configs))
    × ((matched ≡ true) ↔ IsDescendant configs processes tab)
build_tracking_lem_example =
    build_tracking_lem configs processes processes-HasOwnPids tab (head refl)

-- The agent of a user in include mode.
abbrev inside : SplitConfig
inside = record { mode = include; app_paths = []; ip_ranges = "10.0.0.0/8" ∷ [] }

abbrev agent : ProcessInfo
agent = record { uid = 1000; pid = 20; ppid = 1; identities = "/usr/bin/proton-omarchy-agent" ∷ [] }

own_process_stays_example :
    lookup 20 (build_tracking ((1000, inside) ∷ []) (agent ∷ []))
    ≡ some (record { uid = 1000; matched = true; excluded = false })
unfolding lookup any contains_text strip_prefix
own_process_stays_example =
    own_process_stays ((1000, inside) ∷ []) (agent ∷ []) (tt, tt) agent inside (head refl) refl refl
      refl
