-- ===== src/Http.antt =====
-- proxy/http.rs: the HTTP handlers. The HTTP client is a parameter; a handler gives its response
-- and its calls of the metrics helpers. A handler reads the shared state more than once, and the
-- monitor may write in between, so each read has a state of its own.
pub mod Url
pub mod Forward
pub mod Routing
pub mod Interleaved
pub mod Failover
use vixy.Prelude.{
  ℕ, Bool, ◌||◌, List, [], ◌∷◌, ◌++◌, map, Option, none, some, Text, bytes, text_eq, is_empty,
  starts_with, strip_prefix, trim_end_matches, if◌then◌else◌,
}
use vixy.State.{ElNodeState, ClNodeState, AppState}
use vixy.Selection.{select_el_node, select_cl_node}
use vixy.Monitor.{tier}
use vixy.Health.El.{unwrap_or}
use vixy.Metrics.{
  MetricCall, inc_el_requests, observe_el_duration, inc_cl_requests, observe_cl_duration,
}

-- A header's value, as a text if it is one.
pub record HeaderValue : Type 0 where
  pub to_str : Option Text

-- `body` is `none` where the body cannot be read.
pub record Request : Type 0 where
  pub method : Text
  pub path : Text
  pub query : Option Text
  pub content_type : Option HeaderValue
  pub body : Option Text

pub record Response : Type 0 where
  pub status : ℕ
  pub body : Text

-- What the client is asked to send.
pub record OutRequest : Type 0 where
  pub method : Text
  pub url : Text
  pub content_type : Option Text
  pub body : Option Text
  pub timeout_ms : ℕ

-- A reply has a status, and its body if that can be read.
pub data Sent : Type 0 where
  replied : ℕ → Option Text → Sent
  timed_out failed : Sent

-- The HTTP client and the status codes of its library, and the nanoseconds that a handler ran.
pub record Client : Type 0 where
  pub send : OutRequest → Sent
  pub from_u16 : ℕ → Option ℕ
  pub elapsed : ℕ

abbrev pub default_timeout_ms : ℕ
default_timeout_ms = 30000

abbrev pub bad_request : Response
bad_request = record { status = 400; body = bytes "Failed to read request body" }

abbrev pub gateway_timeout : Response
gateway_timeout = record { status = 504; body = bytes "Request timed out" }

abbrev pub bad_gateway : Text → Response
bad_gateway message = record { status = 502; body = message }

abbrev pub unavailable : Text → Response
unavailable message = record { status = 503; body = message }

abbrev pub upstream_failed : Text
upstream_failed = bytes "Upstream request failed"

abbrev pub upstream_unread : Text
upstream_unread = bytes "Failed to read upstream response"

abbrev pub no_el_node : Text
no_el_node = bytes "No healthy EL node available"

abbrev pub no_cl_node : Text
no_cl_node = bytes "No healthy CL node available"

module _ (client : Client) where
  open client use {send, from_u16, elapsed}

  -- `convert_response`
  unfoldable pub convert_response : ℕ → Option Text → Response
  convert_response status none = bad_gateway upstream_unread
  convert_response status (some body) = record {
    status = unwrap_or (from_u16 status) 500;
    body = body;
  }

  -- The `match` on the result of `send`.
  unfoldable pub answer : Sent → Response
  unfolding convert_response
  answer (replied status body) = convert_response status body
  answer timed_out = gateway_timeout
  answer failed = bad_gateway upstream_failed

  -- `headers().get("content-type").and_then(|v| v.to_str().ok())`
  abbrev pub header_text : Option HeaderValue → Option Text
  header_text none = none
  header_text (some v) = v.to_str

  unfoldable pub forward_request : Request → Text → Response
  unfolding answer
  forward_request request target_url = elim request.body [
    | none ↦ bad_request
    | some body_bytes ↦ answer (
        send (record {
          method = request.method;
          url = target_url;
          content_type = header_text request.content_type;
          body = some body_bytes;
          timeout_ms = default_timeout_ms;
        }))
  ]

  -- An empty body is not attached.
  unfoldable pub forward_request_to_url : Request → Text → Response
  unfolding answer
  forward_request_to_url request target_url = elim request.body [
    | none ↦ bad_request
    | some body_bytes ↦ answer (
        send (record {
          method = request.method;
          url = target_url;
          content_type = header_text request.content_type;
          body = if is_empty body_bytes then none else some body_bytes;
          timeout_ms = default_timeout_ms;
        }))
  ]

  -- The flag is loaded in state `early`, the nodes are read in state `state`.
  unfoldable pub el_proxy_handler : AppState → AppState → Request → Response × List MetricCall
  el_proxy_handler early state request =
      elim (select_el_node state.el_nodes early.el_failover_active) [
        | none ↦ (unavailable no_el_node, [])
        | some n ↦ (
          forward_request request n.http_url,
          inc_el_requests n.name (tier n.is_primary)
              ∷ observe_el_duration n.name (tier n.is_primary) elapsed
              ∷ [],
        )
      ]

-- The path behind `/cl`, and the URL that it names below the node's URL.
unfoldable pub stripped_path : Text → Text
stripped_path path =
    unwrap_or
      (elim (strip_prefix (bytes "/cl/") path) [
        | some p ↦ some p
        | none ↦ strip_prefix (bytes "/cl") path
      ])
      path

unfoldable pub cl_path : Text → Text
unfolding stripped_path
cl_path path =
    let p = stripped_path path in
    if is_empty p || text_eq p (bytes "/") then [] else if starts_with (bytes "/") p then p else p

abbrev pub query_text : Option Text → Text
query_text none = []
query_text (some q) = bytes "?" ++ q

unfoldable pub join_url : Text → Text → Option Text → Text
join_url base_url p query =
    if is_empty p
    then base_url ++ query_text query
    else if starts_with (bytes "/") p
    then base_url ++ (p ++ query_text query)
    else base_url ++ (bytes "/" ++ (p ++ query_text query))

unfoldable pub full_url : Text → Text → Option Text → Text
full_url target_url path query = join_url (trim_end_matches b'/' target_url) (cl_path path) query

unfoldable pub cl_proxy_handler : Client → AppState → Request → Response × List MetricCall
cl_proxy_handler client state request = elim (select_cl_node state.cl_nodes) [
  | none ↦ (unavailable no_cl_node, [])
  | some n ↦ (
    forward_request_to_url client request (full_url n.url request.path request.query),
    inc_cl_requests n.name ∷ observe_cl_duration n.name client.elapsed ∷ [],
  )
]

pub record ElNodeStatus : Type 0 where
  pub name : Text
  pub http_url : Text
  pub is_primary : Bool
  pub block_number : ℕ
  pub lag : ℕ
  pub check_ok : Bool
  pub is_healthy : Bool

pub record ClNodeStatus : Type 0 where
  pub name : Text
  pub url : Text
  pub slot : ℕ
  pub lag : ℕ
  pub health_ok : Bool
  pub is_healthy : Bool

pub record StatusResponse : Type 0 where
  pub el_chain_head : ℕ
  pub cl_chain_head : ℕ
  pub el_failover_active : Bool
  pub el_nodes : List ElNodeStatus
  pub cl_nodes : List ClNodeStatus

abbrev pub el_status : ElNodeState → ElNodeStatus
el_status n = record {
  name = n.name;
  http_url = n.http_url;
  is_primary = n.is_primary;
  block_number = n.block_number;
  lag = n.lag;
  check_ok = n.check_ok;
  is_healthy = n.is_healthy;
}

abbrev pub cl_status : ClNodeState → ClNodeStatus
cl_status n = record {
  name = n.name;
  url = n.url;
  slot = n.slot;
  lag = n.lag;
  health_ok = n.health_ok;
  is_healthy = n.is_healthy;
}

-- The heads and the flag are loaded in state `s₀`, the EL nodes read in `s₁`, the CL nodes in `s₂`.
unfoldable pub status_handler : AppState → AppState → AppState → StatusResponse
status_handler s₀ s₁ s₂ = record {
  el_chain_head = s₀.el_chain_head;
  cl_chain_head = s₀.cl_chain_head;
  el_failover_active = s₀.el_failover_active;
  el_nodes = map el_status s₁.el_nodes;
  cl_nodes = map cl_status s₂.cl_nodes;
}
