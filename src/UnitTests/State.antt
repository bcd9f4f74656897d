-- ===== src/UnitTests/State.antt =====
-- The unit tests of state.rs. The sample configuration is as the TOML decoder leaves it.
use vixy.Prelude.{
  ◌==◌, ◌≡◌, refl, Bool, true, false, not, ◌&&◌, any, length, List, [], ◌∷◌, bytes, text_eq,
}
use vixy.Config.{Config, ElNode, Cl, default_global, default_metrics}
use vixy.State.{ElNodeState, el_from_config, cl_from_config, new}

abbrev geth_1 : ElNode
geth_1 = record {
  name = bytes "geth-1";
  http_url = bytes "http://localhost:8545";
  ws_url = bytes "ws://localhost:8546";
}

abbrev geth_2 : ElNode
geth_2 = record {
  name = bytes "geth-2";
  http_url = bytes "http://localhost:8547";
  ws_url = bytes "ws://localhost:8548";
}

abbrev alchemy_1 : ElNode
alchemy_1 = record {
  name = bytes "alchemy-1";
  http_url = bytes "https://eth-mainnet.g.alchemy.com/v2/xxx";
  ws_url = bytes "wss://eth-mainnet.g.alchemy.com/v2/xxx";
}

abbrev lighthouse_1 : Cl
lighthouse_1 = record { name = bytes "lighthouse-1"; url = bytes "http://localhost:5052" }

abbrev prysm_1 : Cl
prysm_1 = record { name = bytes "prysm-1"; url = bytes "http://localhost:5053" }

abbrev sample_config : Config
sample_config = record {
  global = record default_global {
    max_el_lag_blocks = 5;
    max_cl_lag_slots = 3;
    health_check_interval_ms = 1000;
  };
  metrics = default_metrics;
  el = record { primary = geth_1 ∷ geth_2 ∷ []; backup = alchemy_1 ∷ [] };
  cl = lighthouse_1 ∷ prysm_1 ∷ [];
}

abbrev test_el_node_state_from_config : Bool
test_el_node_state_from_config =
    let state = el_from_config geth_1 true in
    text_eq state.name (bytes "geth-1")
    && text_eq state.http_url (bytes "http://localhost:8545")
    && text_eq state.ws_url (bytes "ws://localhost:8546")
    && state.is_primary
    && (state.block_number == 0)
    && not state.is_healthy
    && (state.lag == 0)

abbrev test_el_node_state_backup : Bool
test_el_node_state_backup =
    let state = el_from_config alchemy_1 false in
    text_eq state.name (bytes "alchemy-1") && not state.is_primary

abbrev test_cl_node_state_from_config : Bool
test_cl_node_state_from_config =
    let state = cl_from_config lighthouse_1 in
    text_eq state.name (bytes "lighthouse-1")
    && text_eq state.url (bytes "http://localhost:5052")
    && (state.slot == 0)
    && not state.health_ok
    && not state.is_healthy
    && (state.lag == 0)

abbrev test_app_state_initialization : Bool
test_app_state_initialization =
    let state = new sample_config in
    (length state.el_nodes == 3)
    && (length state.cl_nodes == 2)
    && (state.el_chain_head == 0)
    && (state.cl_chain_head == 0)
    && not state.el_failover_active
    && (state.max_el_lag == 5)
    && (state.max_cl_lag == 3)

abbrev test_initial_health_is_false : Bool
test_initial_health_is_false =
    let state = new sample_config in
    not (any (λ n. n.is_healthy) state.el_nodes)
    && not (any (λ n. n.is_healthy) state.cl_nodes)
    && not (any (λ n. n.health_ok) state.cl_nodes)

-- Whether the first two nodes are primaries and the third is a backup.
abbrev two_primaries_first : List ElNodeState → Bool
two_primaries_first (a ∷ b ∷ c ∷ rest) = a.is_primary && b.is_primary && not c.is_primary
two_primaries_first _ = false

abbrev test_primary_nodes_ordered_before_backup : Bool
test_primary_nodes_ordered_before_backup = two_primaries_first (new sample_config).el_nodes

-- All of them pass.
passes :
    (test_el_node_state_from_config && test_el_node_state_backup && test_cl_node_state_from_config
      && test_app_state_initialization && test_initial_health_is_false
      && test_primary_nodes_ordered_before_backup)
    ≡ true
unfolding new el_from_config cl_from_config text_eq
passes = refl
