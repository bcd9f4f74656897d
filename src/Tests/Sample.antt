-- ===== src/Tests/Sample.antt =====
-- Nodes, a network and a client for the tests.
use vixy.Prelude.{ℕ, leb, ltb, ◌&&◌, Bool, [], ◌∷◌, none, some, Text, bytes, text_eq, if◌then◌else◌}
use vixy.Config.{Config, ElNode, Cl, default_global, default_metrics}
use vixy.State.{AppState, new}
use vixy.Health.Net.{Net, Reply, JsonRpcResponse, BeaconHeaderResponse}
use vixy.Http.{Client, Request, replied}

abbrev pub geth : ElNode
geth = record {
  name = bytes "geth";
  http_url = bytes "http://geth:8545";
  ws_url = bytes "ws://geth:8546";
}

abbrev pub reth : ElNode
reth = record {
  name = bytes "reth";
  http_url = bytes "http://reth:8545";
  ws_url = bytes "ws://reth:8546";
}

abbrev pub nimbus : Cl
nimbus = record { name = bytes "nimbus"; url = bytes "http://nimbus:5052/" }

abbrev pub config : Config
config = record {
  global = default_global;
  metrics = default_metrics;
  el = record { primary = geth ∷ []; backup = reth ∷ [] };
  cl = nimbus ∷ [];
}

abbrev pub initial : AppState
initial = new config

abbrev block_reply : Text → Reply JsonRpcResponse
block_reply number = record {
  status = 200;
  json = some (record { result = some number; error = none });
}

abbrev header_reply : Reply BeaconHeaderResponse
header_reply = record {
  status = 200;
  json =
      some
        (record { body = record { header = record { message = record { slot = bytes "77" } } } });
}

abbrev pub is_success : ℕ → Bool
is_success code = leb 200 code && ltb code 300

-- All nodes answer.
abbrev pub up : Net
up = record {
  post = λ visit url request. some (block_reply (bytes "0x1f4"));
  fetch = λ visit url. some header_reply;
  is_success = is_success;
}

-- Only the backup answers, and the CL node.
abbrev pub backup_only : Net
backup_only = record {
  post = λ visit url request.
      if text_eq url reth.http_url then some (block_reply (bytes "0x1f5")) else none;
  fetch = λ visit url. some header_reply;
  is_success = is_success;
}

abbrev pub down : Net
down = record {
  post = λ visit url request. none;
  fetch = λ visit url. none;
  is_success = is_success;
}

-- A node that answers every request with its own body.
abbrev pub echo : Client
echo = record {
  send = λ out. replied 201 out.body;
  from_u16 = λ code. if leb 100 code && ltb code 1000 then some code else none;
  elapsed = 7;
}

abbrev pub request : Request
request = record {
  method = bytes "POST";
  path = bytes "/cl/eth/v1/node/version";
  query = some (bytes "a=1");
  content_type = none;
  body = some (bytes "{}");
}
