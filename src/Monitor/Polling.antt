-- ===== src/Monitor/Polling.antt =====
-- monitor.rs, the first loop of `check_all_el_nodes` request by request. The loop holds the write
-- lock of the EL nodes from its first request to its last answer, and the requests of health/el.rs
-- have no timeout: a node may be silent. Whoever reads the EL nodes (the handlers of EL requests, of
-- upgrades and of the status, and the watchers) waits for the lock.
pub mod Silent
pub mod Released
use vixy.Prelude.{ℕ, length, ◌≡◌, false, List, [], ◌∷◌, ◌++◌, Text}
use vixy.State.{ElNodeState}
use vixy.Health.Net.{Net}
use vixy.Monitor.{poll_el, el_pass}

-- Where the monitor stands: without the lock, or in the loop, with the nodes that have been checked
-- and those that are to come. The request to the first of these is under way.
pub data Turn : Type 0 where
  elsewhere : Turn
  polling : List ElNodeState → List ElNodeState → Turn

-- The nodes behind the lock, and what readers have seen of them, the latest first.
pub record Guarded : Type 0 where
  pub nodes : List ElNodeState
  pub turn : Turn
  pub reads : List (List ElNodeState)

-- A node answers at the URL, if only with an error, or is silent there for ever.
module _ (Answers : Text → Type 0) where
  pub data Step (g : Guarded) : Guarded → Type 0 where
    lock : g.turn ≡ elsewhere → Step g (record g { turn = polling [] g.nodes })
    answer :
        (net : Net) (checked : List ElNodeState) (n : ElNodeState) (rest : List ElNodeState)
        → g.turn ≡ polling checked (n ∷ rest)
        → Answers n.http_url
        → Step g (record g { turn = polling (checked ++ poll_el net (length checked) n ∷ []) rest })
    unlock :
        (checked : List ElNodeState)
        → g.turn ≡ polling checked []
        → Step g (record g { nodes = checked; turn = elsewhere })
    -- the second loop, which waits for nothing
    assess :
        (head max_lag max_failures : ℕ)
        → g.turn ≡ elsewhere
        → Step g (record g { nodes = (el_pass head max_lag max_failures false 0 g.nodes).nodes })
    read : g.turn ≡ elsewhere → Step g (record g { reads = g.nodes ∷ g.reads })

  -- What can be the case after `g`.
  pub data Reach (g : Guarded) : Guarded → Type 0 where
    here : Reach g g
    next : {h k : Guarded} → Reach g h → Step h k → Reach g k
