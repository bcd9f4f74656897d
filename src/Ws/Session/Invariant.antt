-- ===== src/Ws/Session/Invariant.antt =====
-- What the proxy loop of proxy/ws.rs keeps of its books and of the node that it is on.
use vixy.Prelude.{ℕ, All, Bool, List, [], ◌∷◌, Text, if_ind}
use vixy.Ws.Json.{Json}
use vixy.Ws.Messages.{Books}
use vixy.Ws.Messages.Invariant.{Kept, client-Kept, upstream-Kept}
use vixy.Ws.Session.{
  Session, Event, from_client, from_upstream, reconnect, channels_closed, ReconnectInfo, Order,
  on_client, on_upstream, on_reconnect, on_event, step, run_loop, clean_up,
}

-- A reconnection to a node of which `A` holds, or no reconnection.
abbrev pub Moves {ℓ} : {j : Json} → (ReconnectInfo → Type ℓ) → Event j → Type ℓ
Moves A (reconnect info order connects accepts) = A info
Moves A (from_client accepts m) = Unit
Moves A (from_upstream accepts m) = Unit
Moves A channels_closed = Unit

pub anywhere : {j : Json} (e : Event j) → Moves (λ info. Unit {0}) e
anywhere (from_client accepts m) = tt
anywhere _ = tt

pub Moves-anywhere : (j : Json) (es : List (Event j)) → All (Moves (λ info. Unit {0})) es
Moves-anywhere j [] = tt
Moves-anywhere j (e ∷ es) = (anywhere e, Moves-anywhere j es)

-- The handlers of messages keep `P` on every node, and a reconnection does where `A` holds.
pub record Maintained {ℓ κ} (j : Json) (A : ReconnectInfo → Type κ) (P : Text → Books j → Type ℓ)
    : Type (ℓ ⊔ κ) where
  pub messages : (node : Text) → Kept j (P node)
  pub reconnects :
      (s : Session j) (info : ReconnectInfo) (order : Order j) (connects : Bool)
      (accepts : ℕ → Bool)
      → A info
      → P s.current_node s.books
      → let t = on_reconnect j info order connects accepts s in P t.current_node t.books

module _ {ℓ κ} (j : Json) (A : ReconnectInfo → Type κ) (P : Text → Books j → Type ℓ)
    (kept : Maintained j A P) where
  abbrev Keeps : Session j → Type ℓ
  Keeps s = P s.current_node s.books

  pub on_event-Keeps : (s : Session j) (e : Event j) → Moves A e → Keeps s → Keeps (on_event j s e)
  unfolding on_event on_client on_upstream clean_up
  on_event-Keeps s (from_client accepts msg) a h =
      let next =
        client-Kept j (P s.current_node) (kept.messages s.current_node) accepts msg s.books h in
      if_ind Keeps _ next next
  on_event-Keeps s (from_upstream accepts msg) a h =
      let next =
        upstream-Kept j (P s.current_node) (kept.messages s.current_node) accepts msg s.books h in
      if_ind Keeps _ next next
  on_event-Keeps s (reconnect info order connects accepts) a h =
      kept.reconnects s info order connects accepts a h
  on_event-Keeps s channels_closed a h = h

  pub run_loop-Keeps :
      (s : Session j) (es : List (Event j)) → All (Moves A) es → Keeps s → Keeps (run_loop j s es)
  unfolding run_loop step
  run_loop-Keeps s [] a h = h
  run_loop-Keeps s (e ∷ es) (now, later) h =
      run_loop-Keeps (step j s e) es later (if_ind Keeps s.is_open (on_event-Keeps s e now h) h)
