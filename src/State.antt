-- ===== src/State.antt =====
-- state.rs: what the program knows of its nodes. Locks and atomics hold the plain values here; who
-- may write them, and when, is the subject of Monitor.
use vixy.Prelude.{ℕ, ◌++◌, List, map, Bool, true, false, Text}
use vixy.Config
use vixy.Config.{Config}

pub record ElNodeState : Type 0 where
  pub name : Text
  pub http_url : Text
  pub ws_url : Text
  pub is_primary : Bool
  pub block_number : ℕ
  pub check_ok : Bool
  pub is_healthy : Bool
  pub lag : ℕ
  pub consecutive_failures : ℕ

unfoldable pub el_from_config : Config.ElNode → Bool → ElNodeState
el_from_config node is_primary = record {
  name = node.name;
  http_url = node.http_url;
  ws_url = node.ws_url;
  is_primary = is_primary;
  block_number = 0;
  check_ok = false;
  is_healthy = false;
  lag = 0;
  consecutive_failures = 0;
}

pub record ClNodeState : Type 0 where
  pub name : Text
  pub url : Text
  pub slot : ℕ
  pub health_ok : Bool
  pub is_healthy : Bool
  pub lag : ℕ
  pub consecutive_failures : ℕ

unfoldable pub cl_from_config : Config.Cl → ClNodeState
cl_from_config node = record {
  name = node.name;
  url = node.url;
  slot = 0;
  health_ok = false;
  is_healthy = false;
  lag = 0;
  consecutive_failures = 0;
}

pub record AppState : Type 0 where
  pub el_nodes : List ElNodeState
  pub cl_nodes : List ClNodeState
  pub el_chain_head : ℕ
  pub cl_chain_head : ℕ
  pub el_failover_active : Bool
  pub max_el_lag : ℕ
  pub max_cl_lag : ℕ
  pub proxy_timeout_ms : ℕ
  pub max_retries : ℕ
  pub health_check_max_failures : ℕ

-- `AppState::new`; the two loops that push the nodes are the two maps.
unfoldable pub new : Config → AppState
unfolding el_from_config cl_from_config
new config = record {
  el_nodes =
      map (λ n. el_from_config n true) config.el.primary
      ++ map (λ n. el_from_config n false) config.el.backup;
  cl_nodes = map cl_from_config config.cl;
  el_chain_head = 0;
  cl_chain_head = 0;
  el_failover_active = false;
  max_el_lag = config.global.max_el_lag_blocks;
  max_cl_lag = config.global.max_cl_lag_slots;
  proxy_timeout_ms = config.global.proxy_timeout_ms;
  max_retries = config.global.max_retries;
  health_check_max_failures = config.global.health_check_max_failures;
}
