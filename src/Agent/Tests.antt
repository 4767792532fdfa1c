-- ===== src/Agent/Tests.antt =====
-- Runs of the agent's model, and the theorem on them.
use proton_vpn_omarchy_core.Base.{ℕ, String, List, [], ◌∷◌, Option, none}
use proton_vpn_omarchy_core.Json.{Value, json, string}
use proton_vpn_omarchy_core.Operations.Calls.{begins}
use proton_vpn_omarchy_core.Store.TestDisk.{memory, no_files}
use proton_vpn_omarchy_core.Agent.{Step, asked, reported, called, perform_all, new_agent}
use proton_vpn_omarchy_core.Agent.Whole.{IsWell}
use proton_vpn_omarchy_core.Agent.Runs.{perform_all-IsWell}

abbrev no_address : String → Option String
no_address s = none

abbrev as_it_is : String → String
as_it_is s = s

abbrev noon : String → ℕ
noon id = 12

abbrev signed_in : Value
signed_in = json (("status", string "signed_in") ∷ ("name", string "mara") ∷ [])

abbrev connected_to_ch : Value
connected_to_ch =
    json (("recent", json (("kind", string "country") ∷ ("countryCode", string "CH") ∷ [])) ∷ [])

abbrev a_day : List Step
a_day =
    reported 1 noon "account" signed_in
    ∷ called (begins 2 "cli" "connection.connect")
    ∷ asked 3 4 3 4 "cli" "recents.record" connected_to_ch
    ∷ []

perform_all-IsWell_example : IsWell memory "state" "lifecycle" (
    perform_all memory "state" "lifecycle" no_address as_it_is
      (new_agent memory "state" "lifecycle" no_address as_it_is no_files)
      a_day)
perform_all-IsWell_example =
    perform_all-IsWell memory "state" "lifecycle" no_address as_it_is no_files a_day
