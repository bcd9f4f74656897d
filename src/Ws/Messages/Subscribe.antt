-- ===== src/Ws/Messages/Subscribe.antt =====
-- The life of a subscription in the message handlers of proxy/ws.rs.
use vixy.Prelude.{
  ◌≡◌, refl, Bool, List, Option, none, some, Text, bytes, text_eq, text_eq_refl, get, insert,
  remove, get-insert, get-remove, arith, if◌then◌else◌, if_if,
}
use vixy.Ws.Json.{Json}
use vixy.Ws.Tracker.{track_subscribe, translate_to_client_id}
use vixy.Ws.Messages.{
  Message, UpstreamMessage, Books, eth_subscribe, note_request, note_method, note_subscribe,
  note_answer, note_response, read_text, handle_client_message, handle_upstream_message,
}

module _ (j : Json) where
  open j use {Value}

  -- `t` decodes as an `eth_subscribe` request.
  pub record IsSubscribe (t : Text) (id : Value) (params : List Value) : Type 0 where
    pub json : Value
    pub method : Value
    pub list : Value
    pub decodes : j.from_str t ≡ some json
    pub has_method : j.get (bytes "method") json ≡ some method
    pub is_subscribe : j.as_str method ≡ some eth_subscribe
    pub has_id : j.get (bytes "id") json ≡ some id
    pub has_params : j.get (bytes "params") json ≡ some list
    pub is_list : j.as_array list ≡ some params

  -- `t` decodes as the answer to the request `id`, a subscription id.
  pub record IsAnswer (t : Text) (id : Value) (sub_id : Text) : Type 0 where
    pub json : Value
    pub outcome : Value
    pub decodes : j.from_str t ≡ some json
    pub has_id : j.get (bytes "id") json ≡ some id
    pub has_result : j.get (bytes "result") json ≡ some outcome
    pub is_text : j.as_str outcome ≡ some sub_id

  pub client_subscribe :
      (accepts : Bool) (t : Text) (id : Value) (params : List Value) (b : Books j)
      → IsSubscribe t id params
      → let h = handle_client_message j accepts (Message.text t) b in
        (h.books.tracker ≡ b.tracker)
        × (h.books.pending ≡ insert (j.to_string id) (params, none) b.pending)
  unfolding handle_client_message note_request note_method note_subscribe
  client_subscribe accepts t id params b r =
      rw
        (
          r.decodes,
          note_request,
          r.has_method,
          r.is_subscribe,
          note_method,
          text_eq_refl eth_subscribe,
          r.has_id,
          r.has_params,
          note_subscribe,
          r.is_list,
        )
        (refl, refl)

  pub upstream_answer :
      (accepts : Bool) (t : Text) (id : Value) (sub_id : Text) (b : Books j) (params : List Value)
      → IsAnswer t id sub_id
      → get (j.to_string id) b.pending ≡ some (params, none)
      → let h = handle_upstream_message j accepts (UpstreamMessage.text t) b in
        (h.books.tracker ≡ track_subscribe b.tracker params id sub_id)
        × (h.books.pending ≡ remove (j.to_string id) b.pending)
  unfolding handle_upstream_message read_text note_response note_answer
  upstream_answer accepts t id sub_id b params a e =
      ground (arith, a.decodes, a.has_id, a.has_result, a.is_text, e)

  -- After a client's `eth_subscribe` and the node's answer, the answer's id stands for the
  -- subscription with the request's id and parameters, and for itself as the id that the client
  -- knows; the request is not pending any more. All other entries of the maps are as before.
  pub subscribe_round_trip :
      (accepts accepts' : Bool) (t u k : Text) (id : Value) (params : List Value) (sub_id : Text)
      (b : Books j)
      → IsSubscribe t id params
      → IsAnswer u id sub_id
      → let asked = (handle_client_message j accepts (Message.text t) b).books in
        let answered = (handle_upstream_message j accepts' (UpstreamMessage.text u) asked).books in
        (get k answered.tracker.subscriptions ≡ (
          if text_eq sub_id k
          then some (record { rpc_id = id; params = params; client_sub_id = sub_id })
          else get k b.tracker.subscriptions))
        × (translate_to_client_id answered.tracker k
            ≡ (if text_eq sub_id k then some sub_id else translate_to_client_id b.tracker k))
        × (get k answered.pending ≡ (if text_eq (j.to_string id) k then none else get k b.pending))
  unfolding track_subscribe translate_to_client_id
  subscribe_round_trip accepts accepts' t u k id params sub_id b r a =
      let asked = (handle_client_message j accepts (Message.text t) b).books in
      let (tracker, pending) = client_subscribe accepts t id params b r in
      let is_pending : get (j.to_string id) asked.pending ≡ some (params, none) = rw (
        pending,
        get-insert (j.to_string id) (j.to_string id) (params, none) b.pending,
        text_eq_refl (j.to_string id),
      ) in
      let (tracker', pending') = upstream_answer accepts' u id sub_id asked params a is_pending in
      let asked_pending : List Value × Option Text = (params, none) in
      (
        rw (tracker', tracker, get-insert),
        rw (tracker', tracker, get-insert),
        rw
            (
              pending',
              pending,
              get-remove (j.to_string id) k (insert (j.to_string id) asked_pending b.pending),
              get-insert (j.to_string id) k asked_pending b.pending,
            )
            (if_if (text_eq (j.to_string id) k) _ _ _),
      )
