-- ===== src/Monitor/Polling/Released.antt =====
-- The loop of monitor.rs over the EL nodes, where every node answers.
use vixy.Prelude.{
  ◌+◌, ◌≡◌, refl, sym, ◌∙◌, ap, All, length, List, [], ◌∷◌, ◌++◌, Text, append_assoc, append-nil,
  arith,
}
use mathlib.Core.Path.{subst}
use vixy.State.{ElNodeState}
use vixy.Health.Net.{Net}
use vixy.Monitor.{poll_el, poll_el_nodes}
use vixy.Monitor.Polling.{elsewhere, polling, Guarded, lock, answer, unlock, Reach, here, next}

length-snoc {ℓ} : {A : Type ℓ} (xs : List A) (x : A) → length (xs ++ x ∷ []) ≡ length xs + 1
length-snoc [] x = omega arith
length-snoc (y ∷ xs) x = omega (arith, length-snoc xs x)

module _ (Answers : Text → Type 0) where
  trans : {g h k : Guarded} → Reach Answers g h → Reach Answers h k → Reach Answers g k
  trans r here = r
  trans r (next q s) = next (trans r q) s

  -- The rest of the loop, from any point of it.
  poll_rest :
      (g : Guarded) (net : Net) (checked rest : List ElNodeState)
      → g.turn ≡ polling checked rest
      → All (λ n. Answers n.http_url) rest
      → Reach Answers g
          (record g { turn = polling (checked ++ poll_el_nodes net (length checked) rest) [] })
  unfolding poll_el_nodes
  poll_rest g net checked [] e a =
      subst (λ t. Reach Answers g (record g { turn = t }))
        (e ∙ ap (λ ns. polling ns []) (sym (append-nil checked))) here
  poll_rest g net checked (n ∷ rest) e (now, later) =
      let x = poll_el net (length checked) n in
      let g' : Guarded = record g { turn = polling (checked ++ x ∷ []) rest } in
      let all : Reach Answers g' (record g' {
        turn =
            polling ((checked ++ x ∷ []) ++ poll_el_nodes net (length (checked ++ x ∷ [])) rest) [];
      }) =
        poll_rest g' net (checked ++ x ∷ []) rest refl later in
      let same : (checked ++ x ∷ []) ++ poll_el_nodes net (length (checked ++ x ∷ [])) rest
          ≡ checked ++ (x ∷ poll_el_nodes net (length checked + 1) rest) =
        append_assoc checked (x ∷ []) _
        ∙ ap (λ k. checked ++ (x ∷ poll_el_nodes net k rest)) (length-snoc checked x) in
      trans (next here (answer net checked n rest e now))
        (subst (λ ns. Reach Answers g' (record g { turn = polling ns [] })) same all)

  -- If every EL node answers, the monitor can come to the end of the loop from wherever it takes the
  -- lock; it then has given the lock back, and the nodes are those of the loop of
  -- `check_all_el_nodes` in one piece.
  pub polls-poll_el_nodes :
      (g : Guarded) (net : Net)
      → g.turn ≡ elsewhere
      → All (λ n. Answers n.http_url) g.nodes
      → Reach Answers g (record g { nodes = poll_el_nodes net 0 g.nodes; turn = elsewhere })
  polls-poll_el_nodes g net e a =
      next
        (trans (next here (lock e))
          (poll_rest (record g { turn = polling [] g.nodes }) net [] g.nodes refl a))
        (unlock (poll_el_nodes net 0 g.nodes) refl)
