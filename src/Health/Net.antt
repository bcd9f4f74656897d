-- ===== src/Health/Net.antt =====
-- What the health checks ask of the network: the HTTP client, which answers the `n`th visit to a
-- node. The bodies are as the JSON decoder leaves them.
use vixy.Prelude.{ℕ, List, Option, Text, ◌≡◌, ◌&&◌, leb, ltb, Bool}

-- `negsuc n` is -(n + 1).
pub data ℤ : Type 0 where
  pos : ℕ → ℤ
  negsuc : ℕ → ℤ

-- health/el.rs, `JsonRpcRequest`
pub record JsonRpcRequest : Type 0 where
  pub jsonrpc : Text
  pub method : Text
  pub params : List (Unit {0})
  pub id : ℕ

-- health/el.rs, `JsonRpcError`
pub record JsonRpcError : Type 0 where
  pub code : ℤ
  pub message : Text

-- health/el.rs, `JsonRpcResponse`
pub record JsonRpcResponse : Type 0 where
  pub result : Option Text
  pub error : Option JsonRpcError

-- health/cl.rs, `BeaconHeaderResponse` and the three structs that it nests; `body` is its `data`
pub record BeaconHeaderMessage : Type 0 where
  pub slot : Text

pub record BeaconHeader : Type 0 where
  pub message : BeaconHeaderMessage

pub record BeaconHeaderData : Type 0 where
  pub header : BeaconHeader

pub record BeaconHeaderResponse : Type 0 where
  pub body : BeaconHeaderData

-- A reply: its status, and its body if that decodes.
pub record Reply (B : Type 0) : Type 0 where
  pub status : ℕ
  pub json : Option B

-- `none` where the request cannot be sent or is not answered.
pub record Net : Type 0 where
  pub post : ℕ → Text → JsonRpcRequest → Option (Reply JsonRpcResponse)
  pub fetch : ℕ → Text → Option (Reply BeaconHeaderResponse)
  pub is_success : ℕ → Bool

-- What the HTTP library documents of `StatusCode::is_success`.
abbrev pub IsSuccessLaw : Net → Type 0
IsSuccessLaw net = (code : ℕ) → net.is_success code ≡ (leb 200 code && ltb code 300)
