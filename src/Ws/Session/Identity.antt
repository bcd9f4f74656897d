-- ===== src/Ws/Session/Identity.antt =====
-- The map of upstream ids in the proxy loop of proxy/ws.rs: it only ever maps an id to itself.
use vixy.Prelude.{
  ℕ, ◌≡◌, refl, ap, Bool, true, false, List, Option, none, some, Text, text_eq_iff, get,
  Option-cases, arith, if◌then◌else◌, inl, inr,
}
use vixy.Ws.Json.{Json}
use vixy.Ws.Tracker.{SubscriptionTracker, translate_to_client_id, clear_upstream_mappings}
use vixy.Ws.Tracker.Laws.{
  IsIdentity, translate-IsIdentity, track_subscribe-IsIdentity, remove_subscription-IsIdentity,
}
use vixy.Ws.Messages.{
  Books, note_subscribe, note_unsubscribe, note_answer, translate_text, notified_id, read_text,
}
use vixy.Ws.Messages.Invariant.{Kept, read_text-Kept}
use vixy.Ws.Session.Invariant.{Maintained, Moves-anywhere, anywhere, on_event-Keeps, run_loop-Keeps}
use vixy.Ws.Replay.{reconnect_upstream}
use vixy.Ws.Session.{Session, Event, ReconnectInfo, Order, on_reconnect, on_event, step, run_loop}

module _ (j : Json) where
  open j use {Value}

  note_subscribe-tracker :
      (id params : Option Value) (b : Books j) → (note_subscribe j id params b).tracker ≡ b.tracker
  unfolding note_subscribe
  note_subscribe-tracker id params b = ground arith

  note_unsubscribe-IsIdentity :
      (sub_id : Option Text) (b : Books j)
      → IsIdentity b.tracker
      → IsIdentity (note_unsubscribe j sub_id b).tracker
  unfolding note_unsubscribe
  note_unsubscribe-IsIdentity none b h = h
  note_unsubscribe-IsIdentity (some c) b h = remove_subscription-IsIdentity b.tracker c h

  note_answer-IsIdentity :
      (id : Value) (sub_id : Text) (b : Books j)
      → IsIdentity b.tracker
      → IsIdentity (note_answer j id sub_id b).tracker
  unfolding note_answer
  note_answer-IsIdentity id sub_id b h = elim (Option-cases (get (j.to_string id) b.pending)) [
    | inl e ↦ rw (e, note_answer) h
    | inr ((params, _), e) ↦
        rw (e, note_answer) (track_subscribe-IsIdentity b.tracker params id sub_id h)
  ]

  pub IsIdentity-Kept : Kept j (λ b. IsIdentity b.tracker)
  IsIdentity-Kept = record {
    message = λ b d is h. h;
    subscribe = λ b id params h. rw (note_subscribe-tracker id params b) h;
    unsubscribe = λ b sub_id. note_unsubscribe-IsIdentity sub_id b;
    answer = λ b id sub_id. note_answer-IsIdentity id sub_id b;
  }

  translate_text-IsIdentity :
      (t : SubscriptionTracker Value) (u : Option Text) (s : Text)
      → IsIdentity t
      → translate_text j t u s ≡ s
  unfolding translate_text
  translate_text-IsIdentity t none s h = refl
  translate_text-IsIdentity t (some u) s h = elim (Option-cases (translate_to_client_id t u)) [
    | inl e ↦ rw (e, translate_text)
    | inr (c, e) ↦ ground (arith, e, text_eq_iff c u, translate-IsIdentity t u h e)
  ]

  pub read_text-IsIdentity :
      (json : Option Value) (s : Text) (b : Books j)
      → IsIdentity b.tracker
      → (read_text j json s b).1 ≡ s
  unfolding read_text
  read_text-IsIdentity none s b h = refl
  read_text-IsIdentity (some json) s b h =
      let h' = read_text-Kept j _ IsIdentity-Kept (some json) s b h in
      translate_text-IsIdentity _ (notified_id j json) s h'

  reconnect-IsIdentity :
      (order : Order j) (connects : Bool) (accepts : ℕ → Bool) (t : SubscriptionTracker Value)
      → IsIdentity t
      → IsIdentity (reconnect_upstream j order connects accepts t).0
  unfolding reconnect_upstream clear_upstream_mappings
  reconnect-IsIdentity order true accepts t h = tt
  reconnect-IsIdentity order false accepts t h = h

  pub step-open : (s : Session j) (e : Event j) → s.is_open ≡ true → step j s e ≡ on_event j s e
  unfolding step
  step-open s e is_open = ap (λ b. if b then on_event j s e else s) is_open

  pub on_reconnect-tracker :
      (info : ReconnectInfo) (order : Order j) (connects : Bool) (accepts : ℕ → Bool)
      (s : Session j)
      → (on_reconnect j info order connects accepts s).books.tracker
        ≡ (reconnect_upstream j order connects accepts s.books.tracker).0
  unfolding on_reconnect
  on_reconnect-tracker info order connects accepts s =
      elim (Option-cases (reconnect_upstream j order connects accepts s.books.tracker).1) [
        | inl e ↦ rw (e, on_reconnect)
        | inr (sent, e) ↦ rw (e, on_reconnect)
      ]

  pub on_reconnect-pending :
      (info : ReconnectInfo) (order : Order j) (connects : Bool) (accepts : ℕ → Bool)
      (s : Session j)
      → (on_reconnect j info order connects accepts s).books.pending ≡ s.books.pending
  unfolding on_reconnect
  on_reconnect-pending info order connects accepts s =
      elim (Option-cases (reconnect_upstream j order connects accepts s.books.tracker).1) [
        | inl e ↦ rw (e, on_reconnect)
        | inr (sent, e) ↦ rw (e, on_reconnect)
      ]

  IsIdentity-Maintained : Maintained j (λ info. Unit {0}) (λ node b. IsIdentity b.tracker)
  IsIdentity-Maintained = record {
    messages = λ node. IsIdentity-Kept;
    reconnects = λ s info order connects accepts a h.
        rw (on_reconnect-tracker info order connects accepts s)
          (reconnect-IsIdentity order connects accepts s.books.tracker h);
  }

  pub on_event-IsIdentity :
      (s : Session j) (e : Event j)
      → IsIdentity s.books.tracker
      → IsIdentity (on_event j s e).books.tracker
  on_event-IsIdentity s e = on_event-Keeps j _ _ IsIdentity-Maintained s e (anywhere e)

  pub run_loop-IsIdentity :
      (s : Session j) (es : List (Event j))
      → IsIdentity s.books.tracker
      → IsIdentity (run_loop j s es).books.tracker
  run_loop-IsIdentity s es = run_loop-Keeps j _ _ IsIdentity-Maintained s es (Moves-anywhere j es)
