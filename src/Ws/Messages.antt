-- ===== src/Ws/Messages.antt =====
-- proxy/ws.rs: the handlers of one message. The sink that a handler writes to takes the message or
-- refuses it, which is an argument; a handler gives what it handed to the sink, the new maps, the
-- source's result and its calls of the metrics helpers.
pub mod Subscribe
pub mod Invariant
use vixy.Prelude.{
  ℕ, ◌+◌, Bool, true, false, not, ◌&&◌, List, [], ◌∷◌, ◌++◌, Option, none, some, Text, bytes,
  text_eq, Dict, get, insert, remove, Result, ok, err, if◌then◌else◌,
}
use vixy.Health.El.{unwrap_or}
use vixy.Metrics.{MetricCall, inc_ws_messages, inc_ws_subscriptions, dec_ws_subscriptions}
use vixy.Ws.Json.{Json}
use vixy.Ws.Tracker.{
  SubscribeRequest, SubscriptionTracker, track_subscribe, translate_to_client_id,
  remove_subscription, clear_upstream_mappings, get_all_subscriptions,
}

-- What a client's socket carries. The reason in a close frame is never read.
pub data Message : Type 0 where
  text binary ping pong : Text → Message
  close : Message

-- What an upstream socket carries; `frame` is a raw frame.
pub data UpstreamMessage : Type 0 where
  text binary ping pong : Text → UpstreamMessage
  close : UpstreamMessage
  frame : Text → UpstreamMessage

abbrev pub Pending : Type 0 → Type 0
Pending Value = Dict (List Value × Option Text)

abbrev pub and_then {ℓ κ} : {A : Type ℓ} {B : Type κ} → Option A → (A → Option B) → Option B
and_then none f = none
and_then (some a) f = f a

abbrev pub first {ℓ} : {A : Type ℓ} → List A → Option A
first [] = none
first (a ∷ as') = some a

-- `method == Some(name)`
abbrev pub is_some_text : Option Text → Text → Bool
is_some_text none name = false
is_some_text (some t) name = text_eq t name

abbrev pub eth_subscribe : Text
eth_subscribe = bytes "eth_subscribe"

abbrev pub eth_unsubscribe : Text
eth_unsubscribe = bytes "eth_unsubscribe"

-- The sinks' verdict on a message that is passed on: `Err(code)` if it is refused.
abbrev passed_on : Bool → Bool → Result Bool (Unit {0})
passed_on accepts code = if accepts then ok tt else err code

module _ (j : Json) where
  open j use {Value, Members}

  -- The two maps that the handlers share, and the metrics calls so far.
  pub record Books : Type 0 where
    pub tracker : SubscriptionTracker Value
    pub pending : Pending Value
    pub calls : List MetricCall

  -- The `eth_subscribe` branch: both the id and the parameters must be there.
  unfoldable pub note_subscribe : Option Value → Option Value → Books → Books
  note_subscribe (some id) (some params) b = record b {
    pending = insert (j.to_string id) (unwrap_or (j.as_array params) [], none) b.pending;
  }
  note_subscribe (some id) none b = b
  note_subscribe none params b = b

  -- The `eth_unsubscribe` branch, on the first parameter if that is a string.
  unfoldable pub note_unsubscribe : Option Text → Books → Books
  note_unsubscribe none b = b
  note_unsubscribe (some sub_id) b = record b {
    tracker = remove_subscription b.tracker sub_id;
    calls = b.calls ++ dec_ws_subscriptions ∷ [];
  }

  -- The params' first entry, if that is a string.
  abbrev pub unsubscribed_id : Value → Option Text
  unsubscribed_id json =
      and_then (and_then (and_then (j.get (bytes "params") json) j.as_array) first) j.as_str

  unfoldable pub note_method : Option Text → Value → Books → Books
  unfolding note_subscribe note_unsubscribe
  note_method method json b =
      if is_some_text method eth_subscribe
      then note_subscribe (j.get (bytes "id") json) (j.get (bytes "params") json) b
      else if is_some_text method eth_unsubscribe
      then note_unsubscribe (unsubscribed_id json) b
      else b

  unfoldable pub note_request : Option Value → Books → Books
  unfolding note_method
  note_request none b = b
  note_request (some json) b = note_method (and_then (j.get (bytes "method") json) j.as_str) json b

  pub record ClientHandled : Type 0 where
    pub books : Books
    pub out : UpstreamMessage
    pub result : Result Bool (Unit {0})

  unfoldable pub handle_client_message : Bool → Message → Books → ClientHandled
  unfolding note_request
  handle_client_message accepts (text t) b = record {
    books =
        note_request (j.from_str t)
          (record b { calls = b.calls ++ inc_ws_messages (bytes "upstream") ∷ [] });
    out = text t;
    result = passed_on accepts false;
  }
  handle_client_message accepts (binary d) b = record {
    books = b;
    out = binary d;
    result = passed_on accepts false;
  }
  handle_client_message accepts (ping d) b = record {
    books = b;
    out = ping d;
    result = passed_on accepts false;
  }
  handle_client_message accepts (pong d) b = record {
    books = b;
    out = pong d;
    result = passed_on accepts false;
  }
  handle_client_message accepts close b = record { books = b; out = close; result = err true }

  -- A pending request that `sub_id` answers becomes a subscription.
  unfoldable pub note_answer : Value → Text → Books → Books
  note_answer id sub_id b = elim (get (j.to_string id) b.pending) [
    | none ↦ b
    | some (params, _) ↦ record {
      tracker = track_subscribe b.tracker params id sub_id;
      pending = remove (j.to_string id) b.pending;
      calls = b.calls ++ inc_ws_subscriptions ∷ [];
    }
  ]

  unfoldable pub note_response : Option Value → Option Value → Books → Books
  unfolding note_answer
  note_response (some id) (some result) b = elim (j.as_str result) [
    | none ↦ b
    | some sub_id ↦ note_answer id sub_id b
  ]
  note_response (some id) none b = b
  note_response none result b = b

  -- The text with `params.subscription` replaced, or as it was where that fails.
  unfoldable pub rewrite_subscription : Text → Text → Text
  rewrite_subscription client_sub_id t = elim (j.members_from_str t) [
    | none ↦ t
    | some members ↦ elim (and_then (j.member (bytes "params") members) j.as_object) [
      | none ↦ t
      | some params ↦
          unwrap_or
            (j.members_to_string (
              j.put (bytes "params")
                (j.object (j.put (bytes "subscription") (j.string client_sub_id) params)) members))
            t
    ]
  ]

  -- The text that goes to the client for a notification with the id `upstream_sub_id`.
  unfoldable pub translate_text : SubscriptionTracker Value → Option Text → Text → Text
  unfolding rewrite_subscription
  translate_text tracker none t = t
  translate_text tracker (some upstream_sub_id) t =
      elim (translate_to_client_id tracker upstream_sub_id) [
        | none ↦ t
        | some client_sub_id ↦
            if text_eq client_sub_id upstream_sub_id
            then t
            else rewrite_subscription client_sub_id t
      ]

  abbrev pub notified_id : Value → Option Text
  notified_id json =
      and_then (and_then (j.get (bytes "params") json) (j.get (bytes "subscription"))) j.as_str

  pub record UpstreamHandled : Type 0 where
    pub books : Books
    pub out : Option Message
    pub result : Result Bool (Unit {0})

  -- The body of the text branch, for a text that decodes as JSON or does not.
  unfoldable pub read_text : Option Value → Text → Books → Books × Text
  unfolding note_response translate_text
  read_text none t b = (b, t)
  read_text (some json) t b =
      let b' = note_response (j.get (bytes "id") json) (j.get (bytes "result") json) b in
      (b', translate_text b'.tracker (notified_id json) t)

  unfoldable pub handle_upstream_message : Bool → UpstreamMessage → Books → UpstreamHandled
  unfolding read_text
  handle_upstream_message accepts (text t) b =
      let (b', text_to_send) =
        read_text (j.from_str t) t
          (record b { calls = b.calls ++ inc_ws_messages (bytes "downstream") ∷ [] }) in
      record { books = b'; out = some (text text_to_send); result = passed_on accepts true }
  handle_upstream_message accepts (binary d) b = record {
    books = b;
    out = some (binary d);
    result = passed_on accepts true;
  }
  handle_upstream_message accepts (ping d) b = record {
    books = b;
    out = some (ping d);
    result = passed_on accepts true;
  }
  handle_upstream_message accepts (pong d) b = record {
    books = b;
    out = some (pong d);
    result = passed_on accepts true;
  }
  handle_upstream_message accepts close b = record {
    books = b;
    out = some close;
    result = err true;
  }
  handle_upstream_message accepts (frame d) b = record { books = b; out = none; result = ok tt }
