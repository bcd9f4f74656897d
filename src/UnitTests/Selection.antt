-- ===== src/UnitTests/Selection.antt =====
-- The unit tests of proxy/selection.rs.
use vixy.Prelude.{
  ◌≡◌, refl, Bool, true, false, not, ◌&&◌, [], ◌∷◌, ◌++◌, Option, none, some, Text, bytes, text_eq,
}
use vixy.State.{ElNodeState, ClNodeState}
use vixy.Selection.{select_el_node, select_cl_node}

abbrev is_some {ℓ} : {A : Type ℓ} → Option A → Bool
is_some none = false
is_some (some a) = true

abbrev is_none {ℓ} : {A : Type ℓ} → Option A → Bool
is_none o = not (is_some o)

abbrev el_name_is : Text → Option ElNodeState → Bool
el_name_is name none = false
el_name_is name (some n) = text_eq n.name name

abbrev cl_name_is : Text → Option ClNodeState → Bool
cl_name_is name none = false
cl_name_is name (some n) = text_eq n.name name

abbrev primary_is : Option ElNodeState → Bool
primary_is none = false
primary_is (some n) = n.is_primary

abbrev make_el_node : Text → Bool → Bool → ElNodeState
make_el_node name is_primary is_healthy = record {
  name = name;
  http_url = bytes "http://" ++ (name ++ bytes ".local:8545");
  ws_url = bytes "ws://" ++ (name ++ bytes ".local:8546");
  is_primary = is_primary;
  block_number = 1000;
  check_ok = is_healthy;
  is_healthy = is_healthy;
  lag = 0;
  consecutive_failures = 0;
}

abbrev make_cl_node : Text → Bool → ClNodeState
make_cl_node name is_healthy = record {
  name = name;
  url = bytes "http://" ++ (name ++ bytes ".local:5052");
  slot = 5000;
  health_ok = is_healthy;
  is_healthy = is_healthy;
  lag = 0;
  consecutive_failures = 0;
}

abbrev test_select_healthy_node_from_list : Bool
test_select_healthy_node_from_list =
    let nodes =
      make_el_node (bytes "geth-1") true true ∷ make_el_node (bytes "geth-2") true true ∷ [] in
    el_name_is (bytes "geth-1") (select_el_node nodes false)

abbrev test_select_skips_unhealthy_nodes : Bool
test_select_skips_unhealthy_nodes =
    let nodes =
      make_el_node (bytes "geth-1") true false ∷ make_el_node (bytes "geth-2") true true ∷ [] in
    el_name_is (bytes "geth-2") (select_el_node nodes false)

abbrev test_select_primary_before_backup : Bool
test_select_primary_before_backup =
    let nodes =
      make_el_node (bytes "backup-1") false true
      ∷ make_el_node (bytes "primary-1") true true
      ∷ [] in
    primary_is (select_el_node nodes true)

abbrev test_select_backup_when_no_primary_available : Bool
test_select_backup_when_no_primary_available =
    let nodes =
      make_el_node (bytes "primary-1") true false
      ∷ make_el_node (bytes "backup-1") false true
      ∷ [] in
    is_none (select_el_node nodes false)
    && el_name_is (bytes "backup-1") (select_el_node nodes true)

abbrev test_select_returns_none_when_all_unavailable : Bool
test_select_returns_none_when_all_unavailable =
    let nodes =
      make_el_node (bytes "primary-1") true false
      ∷ make_el_node (bytes "backup-1") false false
      ∷ [] in
    is_none (select_el_node nodes true)

abbrev test_select_empty_list_returns_none : Bool
test_select_empty_list_returns_none = is_none (select_el_node [] true)

abbrev test_select_cl_healthy_node : Bool
test_select_cl_healthy_node =
    let nodes =
      make_cl_node (bytes "lighthouse-1") true ∷ make_cl_node (bytes "prysm-1") true ∷ [] in
    cl_name_is (bytes "lighthouse-1") (select_cl_node nodes)

abbrev test_select_cl_skips_unhealthy : Bool
test_select_cl_skips_unhealthy =
    let nodes =
      make_cl_node (bytes "lighthouse-1") false ∷ make_cl_node (bytes "prysm-1") true ∷ [] in
    cl_name_is (bytes "prysm-1") (select_cl_node nodes)

abbrev test_select_cl_returns_none_when_all_unhealthy : Bool
test_select_cl_returns_none_when_all_unhealthy =
    let nodes =
      make_cl_node (bytes "lighthouse-1") false ∷ make_cl_node (bytes "prysm-1") false ∷ [] in
    is_none (select_cl_node nodes)

-- All of them pass.
passes :
    (test_select_healthy_node_from_list && test_select_skips_unhealthy_nodes
      && test_select_primary_before_backup && test_select_backup_when_no_primary_available
      && test_select_returns_none_when_all_unavailable && test_select_empty_list_returns_none
      && test_select_cl_healthy_node && test_select_cl_skips_unhealthy
      && test_select_cl_returns_none_when_all_unhealthy)
    ≡ true
unfolding select_el_node select_cl_node text_eq
passes = refl
