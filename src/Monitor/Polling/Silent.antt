-- ===== src/Monitor/Polling/Silent.antt =====
-- What one silent node does to all readers of the EL nodes of monitor.rs.
use vixy.Prelude.{◌≡◌, refl, ap, length, List, [], ◌∷◌, ◌++◌, Text}
use vixy.State.{ElNodeState}
use vixy.Monitor.{poll_el}
use vixy.Monitor.Polling.{
  polling, Guarded, Step, lock, answer, unlock, assess, read, Reach, here, next,
}

module _ (Answers : Text → Type 0) (n : ElNodeState) (silent : ¬ Answers n.http_url) where
  moved_on :
      (before after rest : List ElNodeState) (m : ElNodeState)
      → before ++ n ∷ after ≡ m ∷ rest
      → Answers m.http_url
      → (before' : List ElNodeState) × (rest ≡ before' ++ n ∷ after)
  moved_on [] after rest m e a =
      let same : n ≡ m = cc e in absurd (silent (rw (ap (λ k. k.http_url) same) a))
  moved_on (b ∷ before) after rest m e a = (before, cc e)

  not_done : (before after : List ElNodeState) → ¬ (before ++ n ∷ after ≡ [])
  not_done [] after e = cc e
  not_done (b ∷ before) after e = cc e

  -- The monitor is in the loop, and the node is yet to answer.
  record Stuck (reads : List (List ElNodeState)) (g : Guarded) : Type 0 where
    checked : List ElNodeState
    before : List ElNodeState
    after : List ElNodeState
    turn : g.turn ≡ polling checked (before ++ n ∷ after)
    unread : g.reads ≡ reads

  Step-Stuck :
      (reads : List (List ElNodeState)) {g h : Guarded}
      → Stuck reads g
      → Step Answers g h
      → Stuck reads h
  Step-Stuck reads s (lock e) = absurd (cc (s.turn, e))
  Step-Stuck reads s (answer net checked m rest e a) =
      let e' : s.before ++ n ∷ s.after ≡ m ∷ rest = cc (s.turn, e) in
      let (before, split) = moved_on s.before s.after rest m e' a in
      record {
        checked = checked ++ poll_el net (length checked) m ∷ [];
        before = before;
        after = s.after;
        turn = ap (polling (checked ++ poll_el net (length checked) m ∷ [])) split;
        unread = s.unread;
      }
  Step-Stuck reads s (unlock checked e) = absurd (not_done s.before s.after (cc (s.turn, e)))
  Step-Stuck reads s (assess head l f e) = absurd (cc (s.turn, e))
  Step-Stuck reads s (read e) = absurd (cc (s.turn, e))

  Reach-Stuck :
      (reads : List (List ElNodeState)) {g h : Guarded}
      → Stuck reads g
      → Reach Answers g h
      → Stuck reads h
  Reach-Stuck reads s here = s
  Reach-Stuck reads s (next r t) = Step-Stuck reads (Reach-Stuck reads s r) t

  -- Once the monitor has taken the lock to check the EL nodes, and one of them is silent, the lock
  -- is never given back: in whatever comes after, nobody reads the nodes any more, however many of
  -- them are healthy, and the monitor is still in the loop, with the silent node to come.
  pub silent_node-blocks :
      (g : Guarded) (before after : List ElNodeState) {h : Guarded}
      → g.nodes ≡ before ++ n ∷ after
      → Reach Answers (record g { turn = polling [] g.nodes }) h
      → (h.reads ≡ g.reads)
        × (checked : List ElNodeState) × (waiting : List ElNodeState) × (rest : List ElNodeState)
        × (h.turn ≡ polling checked (waiting ++ n ∷ rest))
  silent_node-blocks g before after split r =
      let start : Stuck g.reads (record g { turn = polling [] g.nodes }) = record {
        checked = [];
        before = before;
        after = after;
        turn = ap (polling []) split;
        unread = refl;
      } in
      let stuck = Reach-Stuck g.reads start r in
      (stuck.unread, stuck.checked, stuck.before, stuck.after, stuck.turn)
