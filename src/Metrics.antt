-- ===== src/Metrics.antt =====
-- metrics.rs: the collector. The rest of the program calls its helpers; a model of such code gives
-- the list of its calls in order, and `record_call` is what the helper does with the collector.
-- Counters, gauges and histograms are the metrics library's, and parameters.
use vixy.Prelude.{
  ℕ, ◌+◌, ◌≡◌, Bool, ◌&&◌, List, [], ◌∷◌, Option, none, some, Text, text_eq, if◌then◌else◌,
}

pub data MetricCall : Type 0 where
  inc_el_requests : Text → Text → MetricCall
  -- the duration in nanoseconds, which becomes seconds as a float
  observe_el_duration : Text → Text → ℕ → MetricCall
  set_el_block_number : Text → Text → ℕ → MetricCall
  set_el_lag : Text → Text → ℕ → MetricCall
  set_el_healthy : Text → Text → Bool → MetricCall
  set_el_failover_active : Bool → MetricCall
  inc_el_failovers : MetricCall
  set_el_chain_head : ℕ → MetricCall
  set_el_healthy_nodes : ℕ → MetricCall
  inc_cl_requests : Text → MetricCall
  observe_cl_duration : Text → ℕ → MetricCall
  set_cl_slot : Text → ℕ → MetricCall
  set_cl_lag : Text → ℕ → MetricCall
  set_cl_healthy : Text → Bool → MetricCall
  set_cl_chain_head : ℕ → MetricCall
  set_cl_healthy_nodes : ℕ → MetricCall
  inc_ws_connections : MetricCall
  dec_ws_connections : MetricCall
  inc_ws_messages : Text → MetricCall
  inc_ws_reconnections : MetricCall
  inc_ws_reconnection_attempt : Text → MetricCall
  inc_ws_subscriptions : MetricCall
  dec_ws_subscriptions : MetricCall
  set_ws_subscriptions : ℕ → MetricCall
  set_ws_upstream_node : Text → Bool → MetricCall

-- What the collector uses of the library `prometric`.
pub record Prometric : Type 1 where
  pub Counter : Type 0
  pub Gauge : Type 0
  pub Histogram : Type 0
  pub inc : Counter → Counter
  pub gauge_inc : Gauge → Gauge
  pub gauge_dec : Gauge → Gauge
  pub gauge_set : ℕ → Gauge → Gauge
  pub observe : ℕ → Histogram → Histogram
  pub read : Gauge → ℕ
  pub count : Counter → ℕ

-- What the library documents of gauges and counters.
pub record PrometricLaws (p : Prometric) : Type 0 where
  pub read-set : (n : ℕ) (g : p.Gauge) → p.read (p.gauge_set n g) ≡ n
  pub dec-inc : (g : p.Gauge) → p.gauge_dec (p.gauge_inc g) ≡ g
  pub count-inc : (c : p.Counter) → p.count (p.inc c) ≡ p.count c + 1

abbrev pub bit : Bool → ℕ
bit b = if b then 1 else 0

-- The series of one family are told apart by their labels.
abbrev at {ℓ} : {A : Type ℓ} → Text → (A → A) → (Text → A) → Text → A
at node f family n = if text_eq n node then f (family n) else family n

abbrev at₂ {ℓ} : {A : Type ℓ} → Text → Text → (A → A) → (Text → Text → A) → Text → Text → A
at₂ node tier f family n t = if text_eq n node && text_eq t tier then f (family n t) else family n t

module _ (p : Prometric) where
  open p use {Counter, Gauge, Histogram, inc, gauge_inc, gauge_dec, gauge_set, observe}

  pub record VixyMetrics : Type 0 where
    pub el_requests : Text → Text → Counter
    pub el_request_duration : Text → Text → Histogram
    pub el_block_number : Text → Text → Gauge
    pub el_lag : Text → Text → Gauge
    pub el_healthy : Text → Text → Gauge
    pub el_failover_active : Gauge
    pub el_failovers : Counter
    pub el_chain_head : Gauge
    pub el_healthy_nodes : Gauge
    pub cl_requests : Text → Counter
    pub cl_request_duration : Text → Histogram
    pub cl_slot : Text → Gauge
    pub cl_lag : Text → Gauge
    pub cl_healthy : Text → Gauge
    pub cl_chain_head : Gauge
    pub cl_healthy_nodes : Gauge
    pub ws_connections : Gauge
    pub ws_connections_total : Counter
    pub ws_messages : Text → Counter
    pub ws_reconnections : Counter
    pub ws_reconnection_attempts : Text → Counter
    pub ws_subscriptions : Gauge
    pub ws_subscriptions_total : Counter
    pub ws_upstream_node : Text → Gauge

  unfoldable pub record_call : MetricCall → VixyMetrics → VixyMetrics
  record_call (inc_el_requests node tier) m = record m {
    el_requests = at₂ node tier inc m.el_requests;
  }
  record_call (observe_el_duration node tier d) m = record m {
    el_request_duration = at₂ node tier (observe d) m.el_request_duration;
  }
  record_call (set_el_block_number node tier block) m = record m {
    el_block_number = at₂ node tier (gauge_set block) m.el_block_number;
  }
  record_call (set_el_lag node tier lag) m = record m {
    el_lag = at₂ node tier (gauge_set lag) m.el_lag;
  }
  record_call (set_el_healthy node tier healthy) m = record m {
    el_healthy = at₂ node tier (gauge_set (bit healthy)) m.el_healthy;
  }
  record_call (set_el_failover_active active) m = record m {
    el_failover_active = gauge_set (bit active) m.el_failover_active;
  }
  record_call inc_el_failovers m = record m { el_failovers = inc m.el_failovers }
  record_call (set_el_chain_head block) m = record m {
    el_chain_head = gauge_set block m.el_chain_head;
  }
  record_call (set_el_healthy_nodes n) m = record m {
    el_healthy_nodes = gauge_set n m.el_healthy_nodes;
  }
  record_call (inc_cl_requests node) m = record m { cl_requests = at node inc m.cl_requests }
  record_call (observe_cl_duration node d) m = record m {
    cl_request_duration = at node (observe d) m.cl_request_duration;
  }
  record_call (set_cl_slot node slot) m = record m { cl_slot = at node (gauge_set slot) m.cl_slot }
  record_call (set_cl_lag node lag) m = record m { cl_lag = at node (gauge_set lag) m.cl_lag }
  record_call (set_cl_healthy node healthy) m = record m {
    cl_healthy = at node (gauge_set (bit healthy)) m.cl_healthy;
  }
  record_call (set_cl_chain_head slot) m = record m {
    cl_chain_head = gauge_set slot m.cl_chain_head;
  }
  record_call (set_cl_healthy_nodes n) m = record m {
    cl_healthy_nodes = gauge_set n m.cl_healthy_nodes;
  }
  record_call inc_ws_connections m = record m {
    ws_connections = gauge_inc m.ws_connections;
    ws_connections_total = inc m.ws_connections_total;
  }
  record_call dec_ws_connections m = record m { ws_connections = gauge_dec m.ws_connections }
  record_call (inc_ws_messages direction) m = record m {
    ws_messages = at direction inc m.ws_messages;
  }
  record_call inc_ws_reconnections m = record m { ws_reconnections = inc m.ws_reconnections }
  record_call (inc_ws_reconnection_attempt status) m = record m {
    ws_reconnection_attempts = at status inc m.ws_reconnection_attempts;
  }
  record_call inc_ws_subscriptions m = record m {
    ws_subscriptions = gauge_inc m.ws_subscriptions;
    ws_subscriptions_total = inc m.ws_subscriptions_total;
  }
  record_call dec_ws_subscriptions m = record m { ws_subscriptions = gauge_dec m.ws_subscriptions }
  record_call (set_ws_subscriptions n) m = record m {
    ws_subscriptions = gauge_set n m.ws_subscriptions;
  }
  record_call (set_ws_upstream_node node connected) m = record m {
    ws_upstream_node = at node (gauge_set (bit connected)) m.ws_upstream_node;
  }

  -- The calls of a piece of code, one after the other.
  unfoldable pub record_calls : List MetricCall → VixyMetrics → VixyMetrics
  record_calls [] m = m
  record_calls (c ∷ cs) m = record_calls cs (record_call c m)

-- `VixyMetrics::render`, with what the registry gathers and the encoder of that.
abbrev pub render {ℓ} : {A : Type ℓ} → (A → Option Text) → A → Text
render encode_to_string gathered = elim (encode_to_string gathered) [ none ↦ [] | some text ↦ text ]
