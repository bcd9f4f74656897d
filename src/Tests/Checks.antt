-- ===== src/Tests/Checks.antt =====
-- The theorems on configurations, selection and single checks, at concrete inputs.
use vixy.Prelude.{
  ◌≡◌, ◌↔◌, ◌⊎◌, refl, true, false, All, List, [], ◌∷◌, some, Text, bytes, Result, ok, arith,
}
use vixy.Config.{Config, load}
use vixy.Config.Validation.{ConfigAccepted, load_iff}
use vixy.State.{ElNodeState, el_from_config}
use vixy.Selection.{healthy_primary, healthy_backup, select_el_node}
use vixy.Selection.Choice.{IsFirst, select_el_node_iff}
use vixy.Health.El.{check_el_node}
use vixy.Health.Cl.{check_cl_node}
use vixy.Health.Grace.{ElCheck, el_after, el_after_lem}
use vixy.Health.Hex.{Answers, check_el_node_iff}
use vixy.Health.Beacon.{HealthEndpointOk, HeadSlot, check_cl_node_iff}
use vixy.Tests.Sample.{geth, reth, nimbus, config, up}

abbrev url_parse : Text → Result Text (Unit {0})
url_parse url = ok tt

abbrev from_str : Text → Result Text Config
from_str content = ok config

abbrev read_to_string : Text → Result Text Text
read_to_string path = ok (bytes "[global]")

load_iff_example : (load url_parse from_str read_to_string (bytes "config.toml") ≡ ok config) ↔ (
    (content : Text) × (read_to_string (bytes "config.toml") ≡ ok content)
    × (from_str content ≡ ok config)
    × ConfigAccepted url_parse config)
load_iff_example = load_iff url_parse from_str read_to_string (bytes "config.toml") config

abbrev backup_node : ElNodeState
backup_node = record (el_from_config reth false) { is_healthy = true }

abbrev el_nodes : List ElNodeState
el_nodes = el_from_config geth true ∷ backup_node ∷ []

select_el_node_iff_example : (select_el_node el_nodes true ≡ some backup_node) ↔ (
    IsFirst healthy_primary el_nodes backup_node
    ⊎ (All (λ m. healthy_primary m ≡ false) el_nodes
        × (true ≡ true)
        × IsFirst healthy_backup el_nodes backup_node))
select_el_node_iff_example = select_el_node_iff el_nodes true backup_node

abbrev el_checks : List ElCheck
el_checks =
    record { answered = false; block = 90; head = 100 }
    ∷ record { answered = true; block = 99; head = 100 }
    ∷ []

el_after_lem_example :
    ((el_after (el_from_config geth true) 5 3 el_checks).is_healthy ≡ true)
    × ((el_after (el_from_config geth true) 5 3 el_checks).consecutive_failures ≡ 1)
el_after_lem_example = el_after_lem geth true 5 3 el_checks (omega arith)

check_el_node_iff_example :
    (check_el_node up 0 geth.http_url ≡ ok 500) ↔ Answers up 0 geth.http_url 500
check_el_node_iff_example = check_el_node_iff up 0 geth.http_url 500

check_cl_node_iff_example :
    (check_cl_node up 0 nimbus.url ≡ ok (true, 77))
    ↔ (HeadSlot up 0 nimbus.url 77 × ((true ≡ true) ↔ HealthEndpointOk up 0 nimbus.url))
check_cl_node_iff_example = check_cl_node_iff up 0 nimbus.url (λ code. refl) true 77
