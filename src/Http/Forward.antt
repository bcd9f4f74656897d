-- ===== src/Http/Forward.antt =====
-- What a client of proxy/http.rs is answered, on every path through the two handlers, the two
-- forwarding functions and `convert_response`.
use vixy.Prelude.{
  ℕ, ◌≤◌, ◌<◌, ◌≡◌, ◌↔◌, refl, sym, ap, Option, none, some, Option-cases, inl, inr, Text, is_empty,
  if◌then◌else◌, arith,
}
use mathlib.Core.Path.{subst}
use vixy.State.{AppState, ElNodeState, ClNodeState}
use vixy.Selection.{select_el_node, select_cl_node}
use vixy.Http.{
  Request, Response, OutRequest, Sent, replied, timed_out, failed, Client, default_timeout_ms,
  bad_request, bad_gateway, gateway_timeout, unavailable, upstream_failed, upstream_unread,
  no_el_node, no_cl_node, header_text, convert_response, answer, forward_request,
  forward_request_to_url, el_proxy_handler, cl_proxy_handler, full_url,
}

-- What the HTTP libraries document: a reply has a status of three digits, and
-- `StatusCode::from_u16` takes such a status.
pub record ClientLaws (client : Client) : Type 0 where
  pub three_digits :
      (out : OutRequest) (status : ℕ) (body : Option Text)
      → client.send out ≡ replied status body
      → (100 ≤ status) × (status < 1000)
  pub from_u16 : (code : ℕ) → 100 ≤ code → code < 1000 → client.from_u16 code ≡ some code

module _ (client : Client) where
  -- The request that goes out for `request` with the body `b`: method and content type are the
  -- client's.
  abbrev pub outgoing : Request → Text → Option Text → OutRequest
  outgoing request url b = record {
    method = request.method;
    url = url;
    content_type = header_text client request.content_type;
    body = b;
    timeout_ms = default_timeout_ms;
  }

  -- What the client is answered when `out` has been sent to the node.
  pub data Answered (out : OutRequest) : Response → Type 0 where
    passed_on :
        (status : ℕ) (body : Text)
        → client.send out ≡ replied status (some body)
        → Answered out (record { status = status; body = body })
    unread :
        (status : ℕ)
        → client.send out ≡ replied status none
        → Answered out (bad_gateway upstream_unread)
    late : client.send out ≡ timed_out → Answered out gateway_timeout
    lost : client.send out ≡ failed → Answered out (bad_gateway upstream_failed)

  -- What the client is answered for a request to the URL, if a body `b` goes out as `attached b`.
  pub data Forwarded (request : Request) (url : Text) (attached : Text → Option Text)
      : Response → Type 0 where
    unreadable : request.body ≡ none → Forwarded request url attached bad_request
    sent :
        (b : Text) (r : Response)
        → request.body ≡ some b
        → Answered (outgoing request url (attached b)) r
        → Forwarded request url attached r

  -- An empty body is attached to EL requests, and not to CL requests.
  abbrev pub unless_empty : Text → Option Text
  unless_empty b = if is_empty b then none else some b

  pub data ElServed (early state : AppState) (request : Request) : Response → Type 0 where
    refused :
        select_el_node state.el_nodes early.el_failover_active ≡ none
        → ElServed early state request (unavailable no_el_node)
    forwarded :
        (n : ElNodeState) (r : Response)
        → select_el_node state.el_nodes early.el_failover_active ≡ some n
        → Forwarded request n.http_url some r
        → ElServed early state request r

  pub data ClServed (state : AppState) (request : Request) : Response → Type 0 where
    refused : select_cl_node state.cl_nodes ≡ none → ClServed state request (unavailable no_cl_node)
    forwarded :
        (n : ClNodeState) (r : Response)
        → select_cl_node state.cl_nodes ≡ some n
        → Forwarded request (full_url n.url request.path request.query) unless_empty r
        → ClServed state request r

  module _ (law : ClientLaws client) where
    converted :
        (out : OutRequest) (status : ℕ) (body : Text)
        → client.send out ≡ replied status (some body)
        → answer client (client.send out) ≡ record { status = status; body = body }
    unfolding answer convert_response
    converted out status body e =
        let (lo, hi) = law.three_digits out status (some body) e in
        ground (arith, e, law.from_u16 status lo hi)

    Answered-answer :
        (out : OutRequest) (r : Response) → Answered out r → answer client (client.send out) ≡ r
    unfolding answer convert_response
    Answered-answer out _ (passed_on status body e) = converted out status body e
    Answered-answer out _ (unread status e) = ap (answer client) e
    Answered-answer out _ (late e) = ap (answer client) e
    Answered-answer out _ (lost e) = ap (answer client) e

    answer-Answered : (out : OutRequest) → Answered out (answer client (client.send out))
    unfolding answer convert_response
    answer-Answered out = from (client.send out) refl
      where
        from : (s : Sent) → client.send out ≡ s → Answered out (answer client (client.send out))
        from (replied status (some body)) e =
            subst (Answered out) (sym (converted out status body e)) (passed_on status body e)
        from (replied status none) e =
            subst (Answered out) (sym (ap (answer client) e)) (unread status e)
        from timed_out e = subst (Answered out) (sym (ap (answer client) e)) (late e)
        from failed e = subst (Answered out) (sym (ap (answer client) e)) (lost e)

    Forwarded-eq :
        (request : Request) (url : Text) (r : Response)
        → Forwarded request url some r
        → forward_request client request url ≡ r
    unfolding forward_request
    Forwarded-eq request url _ (unreadable e) = rw (e, forward_request) refl
    Forwarded-eq request url _ (sent b r e a) = rw (e, forward_request) (Answered-answer _ r a)

    to_url-eq :
        (request : Request) (url : Text) (r : Response)
        → Forwarded request url unless_empty r
        → forward_request_to_url client request url ≡ r
    unfolding forward_request_to_url
    to_url-eq request url _ (unreadable e) = rw (e, forward_request_to_url) refl
    to_url-eq request url _ (sent b r e a) = rw (e, forward_request_to_url) (Answered-answer _ r a)

    forward_request-Forwarded :
        (request : Request) (url : Text)
        → Forwarded request url some (forward_request client request url)
    forward_request-Forwarded request url = elim (Option-cases request.body) [
      | inl e ↦ is_forwarded _ (unreadable e)
      | inr (b, e) ↦ is_forwarded _ (sent b _ e (answer-Answered _))
    ]
      where
        is_forwarded :
            (r : Response)
            → Forwarded request url some r
            → Forwarded request url some (forward_request client request url)
        is_forwarded r f = subst (Forwarded request url some) (sym (Forwarded-eq request url r f)) f

    to_url-Forwarded :
        (request : Request) (url : Text)
        → Forwarded request url unless_empty (forward_request_to_url client request url)
    to_url-Forwarded request url = elim (Option-cases request.body) [
      | inl e ↦ is_forwarded _ (unreadable e)
      | inr (b, e) ↦ is_forwarded _ (sent b _ e (answer-Answered _))
    ]
      where
        is_forwarded :
            (r : Response)
            → Forwarded request url unless_empty r
            → Forwarded request url unless_empty (forward_request_to_url client request url)
        is_forwarded r f =
            subst (Forwarded request url unless_empty) (sym (to_url-eq request url r f)) f

    el_iff :
        (early state : AppState) (request : Request) (r : Response)
        → ((el_proxy_handler client early state request).0 ≡ r) ↔ ElServed early state request r
    unfolding el_proxy_handler
    el_iff early state request r = (λ e. subst (ElServed early state request) e served, back)
      where
        served : ElServed early state request (el_proxy_handler client early state request).0
        served = elim (Option-cases (select_el_node state.el_nodes early.el_failover_active)) [
          | inl e ↦ rw (e, el_proxy_handler) (ElServed.refused e)
          | inr (n, e) ↦
              rw (e, el_proxy_handler)
                (ElServed.forwarded n _ e (forward_request-Forwarded request n.http_url))
        ]

        back :
            {r : Response}
            → ElServed early state request r
            → (el_proxy_handler client early state request).0 ≡ r
        back (ElServed.refused e) = rw (e, el_proxy_handler) refl
        back (ElServed.forwarded n r e f) =
            rw (e, el_proxy_handler) (Forwarded-eq request n.http_url r f)

    cl_iff :
        (state : AppState) (request : Request) (r : Response)
        → ((cl_proxy_handler client state request).0 ≡ r) ↔ ClServed state request r
    unfolding cl_proxy_handler
    cl_iff state request r = (λ e. subst (ClServed state request) e served, back)
      where
        served : ClServed state request (cl_proxy_handler client state request).0
        served = elim (Option-cases (select_cl_node state.cl_nodes)) [
          | inl e ↦ rw (e, cl_proxy_handler) (ClServed.refused e)
          | inr (n, e) ↦
              rw (e, cl_proxy_handler) (ClServed.forwarded n _ e (to_url-Forwarded request _))
        ]

        back :
            {r : Response}
            → ClServed state request r
            → (cl_proxy_handler client state request).0 ≡ r
        back (ClServed.refused e) = rw (e, cl_proxy_handler) refl
        back (ClServed.forwarded n r e f) = rw (e, cl_proxy_handler) (to_url-eq request _ r f)

    -- With a client that replies with statuses of three digits, both handlers answer, on each path,
    -- exactly this: 503 if no node is chosen; 400 if the request's body cannot be read; else the
    -- status and the body that the chosen node replies to the request with the client's method,
    -- body and content type, if that is a text; or 504 if that request times out, and 502 if it
    -- fails otherwise or the reply cannot be read. An EL request goes to the node's HTTP URL, a CL
    -- request to the URL that its path and query name below the node's, without a body if that is
    -- empty.
    pub proxy_handlers_iff :
        (early state : AppState) (request : Request) (r : Response)
        → (((el_proxy_handler client early state request).0 ≡ r) ↔ ElServed early state request r)
          × (((cl_proxy_handler client state request).0 ≡ r) ↔ ClServed state request r)
    proxy_handlers_iff early state request r =
        (el_iff early state request r, cl_iff state request r)
