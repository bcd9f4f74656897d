-- ===== src/UnitTests/Http.antt =====
-- The unit tests of proxy/http.rs, at the handlers that the test's routes lead to.
use vixy.Prelude.{
  ◌==◌, ◌≡◌, refl, Bool, true, false, not, ◌&&◌, leb, ltb, List, [], ◌∷◌, ◌++◌, Option, none, some,
  Text, bytes, text_eq, starts_with, strip_prefix, trim_end_matches, if◌then◌else◌,
}
use vixy.State.{ElNodeState, ClNodeState, AppState}
use vixy.Selection.{select_el_node, select_cl_node}
use vixy.Http.{
  Client, Request, OutRequest, replied, convert_response, answer, forward_request,
  forward_request_to_url, el_proxy_handler, cl_proxy_handler, stripped_path, cl_path, join_url,
  full_url,
}

abbrev create_test_state : List ElNodeState → List ClNodeState → AppState
create_test_state el_nodes cl_nodes = record {
  el_nodes = el_nodes;
  cl_nodes = cl_nodes;
  el_chain_head = 0;
  cl_chain_head = 0;
  el_failover_active = false;
  max_el_lag = 5;
  max_cl_lag = 3;
  proxy_timeout_ms = 30000;
  max_retries = 2;
  health_check_max_failures = 3;
}

abbrev make_el_node : Text → Text → Bool → ElNodeState
make_el_node name url is_healthy = record {
  name = name;
  http_url = url;
  ws_url = url;
  is_primary = true;
  block_number = 1000;
  check_ok = is_healthy;
  is_healthy = is_healthy;
  lag = 0;
  consecutive_failures = 0;
}

abbrev make_cl_node : Text → Text → Bool → ClNodeState
make_cl_node name url is_healthy = record {
  name = name;
  url = url;
  slot = 5000;
  health_ok = is_healthy;
  is_healthy = is_healthy;
  lag = 0;
  consecutive_failures = 0;
}

abbrev uri : Text
uri = bytes "http://127.0.0.1:9000"

-- A mocked server, which answers what it knows with a body, and all else with 404.
abbrev mock_server : (OutRequest → Bool) → Text → Client
mock_server knows body = record {
  send = λ out. if knows out then replied 200 (some body) else replied 404 (some []);
  from_u16 = λ code. if leb 100 code && ltb code 1000 then some code else none;
  elapsed = 1;
}

-- Whether the request is a `GET` of a path at the server.
abbrev gets : Text → OutRequest → Bool
gets path out = text_eq out.method (bytes "GET") && text_eq out.url (uri ++ path)

abbrev el_request : Option Text → Text → Request
el_request content_type body = record {
  method = bytes "POST";
  path = bytes "/el";
  query = none;
  content_type = elim content_type [ none ↦ none | some t ↦ some (record { to_str = some t }) ];
  body = some body;
}

abbrev cl_request : Text → Request
cl_request path = record {
  method = bytes "GET";
  path = path;
  query = none;
  content_type = none;
  body = some [];
}

abbrev block_number_body : Text
block_number_body =
    bytes "{\"jsonrpc\":\"2.0\",\"method\":\"eth_blockNumber\",\"params\":[],\"id\":1}"

abbrev body_is : Text → OutRequest → Bool
body_is text out = elim out.body [ none ↦ false | some b ↦ text_eq b text ]

abbrev el_state : Bool → AppState
el_state healthy = create_test_state (make_el_node (bytes "geth-1") uri healthy ∷ []) []

abbrev cl_state : Bool → AppState
cl_state healthy = create_test_state [] (make_cl_node (bytes "lighthouse-1") uri healthy ∷ [])

abbrev test_el_proxy_forwards_request : Bool
test_el_proxy_forwards_request =
    let reply = bytes "{\"jsonrpc\":\"2.0\",\"result\":\"0x10d4f\",\"id\":1}" in
    let server =
      mock_server (λ out. text_eq out.method (bytes "POST") && body_is block_number_body out)
        reply in
    let request = el_request (some (bytes "application/json")) block_number_body in
    let response = (el_proxy_handler server (el_state true) (el_state true) request).0 in
    (response.status == 200) && text_eq response.body reply

abbrev test_el_proxy_returns_503_no_healthy_nodes : Bool
test_el_proxy_returns_503_no_healthy_nodes =
    let server = mock_server (λ out. true) [] in
    let state = el_state false in
    (el_proxy_handler server state state (el_request none (bytes "{}"))).0.status == 503

abbrev test_cl_proxy_forwards_get_request : Bool
test_cl_proxy_forwards_get_request =
    let server = mock_server (gets (bytes "/eth/v1/node/health")) [] in
    (cl_proxy_handler server (cl_state true) (cl_request (bytes "/cl/eth/v1/node/health"))).0.status
    == 200

abbrev test_cl_proxy_preserves_path : Bool
test_cl_proxy_preserves_path =
    let reply = bytes "{\"data\":{\"header\":{\"message\":{\"slot\":\"12345\"}}}}" in
    let server = mock_server (gets (bytes "/eth/v1/beacon/headers/head")) reply in
    let request = cl_request (bytes "/cl/eth/v1/beacon/headers/head") in
    let response = (cl_proxy_handler server (cl_state true) request).0 in
    (response.status == 200) && text_eq response.body reply

abbrev test_cl_proxy_returns_503_no_healthy_nodes : Bool
test_cl_proxy_returns_503_no_healthy_nodes =
    let server = mock_server (λ out. true) [] in
    let request = cl_request (bytes "/cl/eth/v1/node/health") in
    (cl_proxy_handler server (cl_state false) request).0.status == 503

abbrev test_el_proxy_with_trailing_slash : Bool
test_el_proxy_with_trailing_slash =
    let server =
      mock_server (λ out. text_eq out.method (bytes "POST")) (bytes "{\"result\":\"0x123\"}") in
    let request : Request =
      record (el_request (some (bytes "application/json")) block_number_body) {
        path = bytes "/el/";
      } in
    (el_proxy_handler server (el_state true) (el_state true) request).0.status == 200

abbrev test_cl_proxy_with_trailing_slash_base : Bool
test_cl_proxy_with_trailing_slash_base =
    let reply = bytes "{\"data\":{\"genesis_time\":\"1234567890\"}}" in
    let server = mock_server (gets (bytes "/eth/v1/beacon/genesis")) reply in
    let request = cl_request (bytes "/cl/eth/v1/beacon/genesis") in
    let response = (cl_proxy_handler server (cl_state true) request).0 in
    (response.status == 200) && text_eq response.body reply

abbrev test_cl_proxy_bare_cl_path : Bool
test_cl_proxy_bare_cl_path =
    let server = mock_server (gets (bytes "/")) (bytes "OK") in
    not ((cl_proxy_handler server (cl_state true) (cl_request (bytes "/cl"))).0.status == 503)

-- All of them pass.
passes :
    (test_el_proxy_forwards_request && test_el_proxy_returns_503_no_healthy_nodes
      && test_cl_proxy_forwards_get_request && test_cl_proxy_preserves_path
      && test_cl_proxy_returns_503_no_healthy_nodes && test_el_proxy_with_trailing_slash
      && test_cl_proxy_with_trailing_slash_base && test_cl_proxy_bare_cl_path)
    ≡ true
unfolding text_eq starts_with strip_prefix trim_end_matches select_el_node select_cl_node
    convert_response answer forward_request forward_request_to_url el_proxy_handler cl_proxy_handler
    stripped_path cl_path join_url full_url
passes = refl
