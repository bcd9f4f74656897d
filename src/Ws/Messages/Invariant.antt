-- ===== src/Ws/Messages/Invariant.antt =====
-- What the handlers of one message in proxy/ws.rs keep of the maps and the metrics calls: a
-- statement that each of their four changes keeps.
use vixy.Prelude.{
  ◌≡◌, ◌⊎◌, inl, inr, refl, Bool, [], ◌∷◌, ◌++◌, Option, none, some, Text, bytes, Option-cases,
  Bool-cases,
}
use vixy.Metrics.{inc_ws_messages}
use vixy.Ws.Json.{Json}
use vixy.Ws.Messages.{
  Message, UpstreamMessage, Books, eth_subscribe, eth_unsubscribe, is_some_text, unsubscribed_id,
  note_subscribe, note_unsubscribe, note_method, note_request, note_answer, note_response,
  read_text, handle_client_message, handle_upstream_message,
}

-- The label of a message's metric.
abbrev pub IsDirection : Text → Type 0
IsDirection d = (d ≡ bytes "upstream") ⊎ (d ≡ bytes "downstream")

-- One statement on the books, and that each change keeps it.
pub record Kept {ℓ} (j : Json) (P : Books j → Type ℓ) : Type ℓ where
  pub message :
      (b : Books j) (d : Text)
      → IsDirection d
      → P b
      → P (record b { calls = b.calls ++ inc_ws_messages d ∷ [] })
  pub subscribe :
      (b : Books j) (id params : Option j.Value) → P b → P (note_subscribe j id params b)
  pub unsubscribe : (b : Books j) (sub_id : Option Text) → P b → P (note_unsubscribe j sub_id b)
  pub answer : (b : Books j) (id : j.Value) (sub_id : Text) → P b → P (note_answer j id sub_id b)

module _ {ℓ} (j : Json) (P : Books j → Type ℓ) (kept : Kept j P) where
  open j use {Value}

  note_method-Kept :
      (method : Option Text) (json : Value) (b : Books j) → P b → P (note_method j method json b)
  unfolding note_method
  note_method-Kept method json b h = elim (Bool-cases (is_some_text method eth_subscribe)) [
    | inl e ↦ rw (e, note_method) (kept.subscribe b _ _ h)
    | inr e ↦ elim (Bool-cases (is_some_text method eth_unsubscribe)) [
      | inl f ↦ rw (e, f, note_method) (kept.unsubscribe b (unsubscribed_id j json) h)
      | inr f ↦ rw (e, f, note_method) h
    ]
  ]

  note_request-Kept : (json : Option Value) (b : Books j) → P b → P (note_request j json b)
  unfolding note_request
  note_request-Kept none b h = h
  note_request-Kept (some json) b h = note_method-Kept _ json b h

  pub client-Kept :
      (accepts : Bool) (msg : Message) (b : Books j)
      → P b
      → P (handle_client_message j accepts msg b).books
  unfolding handle_client_message
  client-Kept accepts (Message.text t) b h =
      note_request-Kept (j.from_str t) _ (kept.message b (bytes "upstream") (inl refl) h)
  client-Kept accepts _ b h = h

  note_response-Kept :
      (id result : Option Value) (b : Books j) → P b → P (note_response j id result b)
  unfolding note_response
  note_response-Kept (some id) (some result) b h = elim (Option-cases (j.as_str result)) [
    | inl e ↦ rw (e, note_response) h
    | inr (sub_id, e) ↦ rw (e, note_response) (kept.answer b id sub_id h)
  ]
  note_response-Kept (some id) none b h = h
  note_response-Kept none _ b h = h

  pub read_text-Kept :
      (json : Option Value) (t : Text) (b : Books j) → P b → P (read_text j json t b).0
  unfolding read_text
  read_text-Kept none t b h = h
  read_text-Kept (some json) t b h = note_response-Kept _ _ b h

  pub upstream-Kept :
      (accepts : Bool) (msg : UpstreamMessage) (b : Books j)
      → P b
      → P (handle_upstream_message j accepts msg b).books
  unfolding handle_upstream_message
  upstream-Kept accepts (UpstreamMessage.text t) b h =
      read_text-Kept (j.from_str t) t _ (kept.message b (bytes "downstream") (inr refl) h)
  upstream-Kept accepts _ b h = h
