-- ===== src/Ws/Session/Waiting.antt =====
-- How long a request for a subscription waits for its answer, in the proxy loop of proxy/ws.rs.
use vixy.Prelude.{
  ◌≡◌, refl, ap, ◌∙◌, Bool, true, false, List, [], ◌∷◌, All, Option, none, some, Text, bytes,
  text_eq, text_eq_refl, get, insert, get-insert, get-remove, if_ind, Option-cases, Bool-cases, inl,
  inr, if◌then◌else◌,
}
use vixy.Ws.Json.{Json}
use vixy.Ws.Messages.{
  Message, UpstreamMessage, Books, and_then, is_some_text, eth_subscribe, eth_unsubscribe,
  unsubscribed_id, note_subscribe, note_unsubscribe, note_method, note_request, note_answer,
  note_response, read_text, handle_client_message, handle_upstream_message,
}
use vixy.Ws.Tracker.{track_subscribe}
use vixy.Ws.Messages.Subscribe.{IsSubscribe, IsAnswer, client_subscribe, upstream_answer}
use vixy.Ws.Session.Identity.{step-open, on_reconnect-pending}
use vixy.Ws.Session.{
  Session, Event, from_client, from_upstream, reconnect, channels_closed, on_client, on_upstream,
  on_event, step, run_loop, clean_up,
}

module _ (j : Json) where
  open j use {Value}

  -- The key under which a request waits, if the text asks for a subscription.
  abbrev pub asked_key : Value → Option Text
  asked_key json =
      if is_some_text (and_then (j.get (bytes "method") json) j.as_str) eth_subscribe
      then and_then (j.get (bytes "id") json) (λ id. some (j.to_string id))
      else none

  -- The key that the text answers, if its result is a text.
  abbrev pub answered_key : Value → Option Text
  answered_key json =
      and_then (and_then (j.get (bytes "result") json) j.as_str)
        (λ sub_id. and_then (j.get (bytes "id") json) (λ id. some (j.to_string id)))

  -- The event neither asks for a subscription under the key `k`, nor answers `k` with a text.
  abbrev pub Leaves : Text → Event j → Type 0
  Leaves k (from_client accepts (Message.text t)) =
      is_some_text (and_then (j.from_str t) asked_key) k ≡ false
  Leaves k (from_client accepts _) = Unit
  Leaves k (from_upstream accepts (UpstreamMessage.text t)) =
      is_some_text (and_then (j.from_str t) answered_key) k ≡ false
  Leaves k (from_upstream accepts _) = Unit
  Leaves k (reconnect info order connects accepts) = Unit
  Leaves k channels_closed = Unit

  -- What waits under the key `k`.
  abbrev waiting : Text → Books j → Option (List Value × Option Text)
  waiting k b = get k b.pending

  note_subscribe-waiting :
      (k : Text) (id params : Option Value) (b : Books j)
      → is_some_text (and_then id (λ i. some (j.to_string i))) k ≡ false
      → waiting k (note_subscribe j id params b) ≡ waiting k b
  unfolding note_subscribe
  note_subscribe-waiting k (some id) (some params) b e =
      get-insert (j.to_string id) k _ b.pending ∙ rw e
  note_subscribe-waiting k (some id) none b e = refl
  note_subscribe-waiting k none params b e = refl

  note_unsubscribe-waiting :
      (k : Text) (sub_id : Option Text) (b : Books j)
      → waiting k (note_unsubscribe j sub_id b) ≡ waiting k b
  unfolding note_unsubscribe
  note_unsubscribe-waiting k none b = refl
  note_unsubscribe-waiting k (some c) b = refl

  note_method-waiting :
      (k : Text) (json : Value) (b : Books j)
      → is_some_text (asked_key json) k ≡ false
      → waiting k (note_method j (and_then (j.get (bytes "method") json) j.as_str) json b)
        ≡ waiting k b
  unfolding note_method
  note_method-waiting k json b e =
      let method = and_then (j.get (bytes "method") json) j.as_str in
      elim (Bool-cases (is_some_text method eth_subscribe)) [
        | inl f ↦ rw (f, note_method) (note_subscribe-waiting k _ _ b (rw f at e))
        | inr f ↦ elim (Bool-cases (is_some_text method eth_unsubscribe)) [
          | inl g ↦ rw (f, g, note_method) (note_unsubscribe-waiting k (unsubscribed_id j json) b)
          | inr g ↦ rw (f, g, note_method)
        ]
      ]

  note_answer-waiting :
      (k : Text) (id : Value) (sub_id : Text) (b : Books j)
      → text_eq (j.to_string id) k ≡ false
      → waiting k (note_answer j id sub_id b) ≡ waiting k b
  unfolding note_answer
  note_answer-waiting k id sub_id b e = elim (Option-cases (get (j.to_string id) b.pending)) [
    | inl f ↦ rw (f, note_answer)
    | inr (_, f) ↦ rw (f, note_answer) (get-remove (j.to_string id) k b.pending ∙ rw e)
  ]

  note_response-waiting :
      (k : Text) (id result : Option Value) (b : Books j)
      → is_some_text
          (and_then (and_then result j.as_str) (λ sub_id. and_then id (λ i. some (j.to_string i))))
          k
        ≡ false
      → waiting k (note_response j id result b) ≡ waiting k b
  unfolding note_response
  note_response-waiting k (some id) (some result) b e = elim (Option-cases (j.as_str result)) [
    | inl f ↦ rw (f, note_response)
    | inr (sub_id, f) ↦ rw (f, note_response) (note_answer-waiting k id sub_id b (rw f at e))
  ]
  note_response-waiting k (some id) none b e = refl
  note_response-waiting k none _ b e = refl

  client-waiting :
      (k : Text) (accepts : Bool) (m : Message) (b : Books j)
      → Leaves k (from_client accepts m)
      → waiting k (handle_client_message j accepts m b).books ≡ waiting k b
  unfolding handle_client_message note_request
  client-waiting k accepts (Message.text t) b e = elim (Option-cases (j.from_str t)) [
    | inl f ↦ rw (f, note_request)
    | inr (json, f) ↦ rw (f, note_request) (note_method-waiting k json _ (rw f at e))
  ]
  client-waiting k accepts _ b e = refl

  upstream-waiting :
      (k : Text) (accepts : Bool) (m : UpstreamMessage) (b : Books j)
      → Leaves k (from_upstream accepts m)
      → waiting k (handle_upstream_message j accepts m b).books ≡ waiting k b
  unfolding handle_upstream_message read_text
  upstream-waiting k accepts (UpstreamMessage.text t) b e = elim (Option-cases (j.from_str t)) [
    | inl f ↦ rw (f, read_text)
    | inr (json, f) ↦ rw (f, read_text) (note_response-waiting k _ _ _ (rw f at e))
  ]
  upstream-waiting k accepts _ b e = refl

  on_event-waiting :
      (k : Text) (s : Session j) (e : Event j)
      → Leaves k e
      → waiting k (on_event j s e).books ≡ waiting k s.books
  unfolding on_event on_client on_upstream clean_up
  on_event-waiting k s (from_client accepts m) l =
      let same = client-waiting k accepts m s.books l in
      if_ind (λ (t : Session j). waiting k t.books ≡ waiting k s.books) _ same same
  on_event-waiting k s (from_upstream accepts m) l =
      let same = upstream-waiting k accepts m s.books l in
      if_ind (λ (t : Session j). waiting k t.books ≡ waiting k s.books) _ same same
  on_event-waiting k s (reconnect info order connects accepts) l =
      ap (get k) (on_reconnect-pending j info order connects accepts s)
  on_event-waiting k s channels_closed l = refl

  run_loop-waiting :
      (k : Text) (s : Session j) (es : List (Event j))
      → All (Leaves k) es
      → waiting k (run_loop j s es).books ≡ waiting k s.books
  unfolding run_loop step
  run_loop-waiting k s [] l = refl
  run_loop-waiting k s (e ∷ es) (now, later) =
      run_loop-waiting k (step j s e) es later
      ∙ if_ind (λ (t : Session j). waiting k t.books ≡ waiting k s.books) s.is_open
          (on_event-waiting k s e now) refl

  -- A session that takes a text of the client, or of the upstream node, has the books of the handler.
  step-client :
      (s : Session j) (accepts : Bool) (m : Message)
      → s.is_open ≡ true
      → (step j s (from_client accepts m)).books ≡ (handle_client_message j accepts m s.books).books
  unfolding on_event on_client clean_up
  step-client s accepts m o = rw (step-open j s (from_client accepts m) o) (
      if_ind (λ (t : Session j). t.books ≡ (handle_client_message j accepts m s.books).books) _ refl
        refl)

  step-upstream :
      (s : Session j) (accepts : Bool) (m : UpstreamMessage)
      → s.is_open ≡ true
      → (step j s (from_upstream accepts m)).books
        ≡ (handle_upstream_message j accepts m s.books).books
  unfolding on_event on_upstream clean_up
  step-upstream s accepts m o = rw (step-open j s (from_upstream accepts m) o) (
      if_ind (λ (t : Session j). t.books ≡ (handle_upstream_message j accepts m s.books).books) _
        refl refl)

  -- A request for a subscription waits until a text result comes under its id. Whatever is said
  -- in between that neither asks for a subscription under that id nor answers it with a text, such
  -- as an error from the node, another request of the client under the same id, or reconnections:
  -- if the loop is still open, the next text result under that id becomes a subscription with
  -- the parameters of the request, and the client's id for it is that result.
  pub late_answer :
      (s : Session j) (a a' : Bool) (t u : Text) (id : Value) (params : List Value) (sub_id : Text)
      (es : List (Event j))
      → s.is_open ≡ true
      → IsSubscribe j t id params
      → IsAnswer j u id sub_id
      → All (Leaves (j.to_string id)) es
      → let later = run_loop j (step j s (from_client a (Message.text t))) es in
        later.is_open ≡ true
        → (step j later (from_upstream a' (UpstreamMessage.text u))).books.tracker
          ≡ track_subscribe later.books.tracker params id sub_id
  late_answer s a a' t u id params sub_id es o asks answers quiet o' =
      let k = j.to_string id in
      let asked = step j s (from_client a (Message.text t)) in
      let later = run_loop j asked es in
      let noted : asked.books.pending ≡ insert k (params, none) s.books.pending =
        ap (λ b. b.pending) (step-client s a (Message.text t) o)
        ∙ (client_subscribe j a t id params s.books asks).1 in
      let waits : waiting k later.books ≡ some (params, none) =
        run_loop-waiting k asked es quiet
        ∙ ap (get k) noted
        ∙ get-insert k k (params, none) s.books.pending
        ∙ rw (text_eq_refl k) in
      ap (λ b. b.tracker) (step-upstream later a' (UpstreamMessage.text u) o')
      ∙ (upstream_answer j a' u id sub_id later.books params answers waits).0
