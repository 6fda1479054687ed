-- ===== src/Work/Node/Round.antt =====
-- node/line/work/node.rs and node/biunion/work/node.rs: the part that a work node with one output has
-- in common with the others, whatever it searches for its next message.
pub mod Keeps
use areamy.Common.{ℕ, zero, suc, Option, none, some, List, [], ◌∷◌}
use areamy.Error.{closed, Result, ok, err}
use areamy.Graph.{TryPushable, Pushable, Closeable}
use areamy.Edge.Fanout.{Fanout, Rotation, rotate_from, resume, close}
use areamy.Work.Node.{Incoming, message, input_closed, instead}

-- What is searched, and the outputs.
pub record WorkNode {ℓ} (Q E M : Type ℓ) : Type ℓ where
  pub search : Q
  pub outputs : Fanout E M

module _ {ℓ} {Q M : Type ℓ} where
  again :
      (Q → Option (Result (Incoming M)) × Q)
      → Result (Option (Incoming M)) × Q
      → Option (Result (Incoming M)) × Q
  again onward (ok none, s) = onward s
  again onward (ok (some found), s) = (some (ok found), s)
  again onward (err e, s) = (some (err e), s)

  -- A search's loop for some turns; `none` where it goes on.
  unfoldable pub search_loop :
      (Q → Result (Option (Incoming M)) × Q) → ℕ → Q → Option (Result (Incoming M)) × Q
  unfolding again
  search_loop turn zero s = (none, s)
  search_loop turn (suc turns) s = again (search_loop turn turns) (turn s)

module _ {ℓ} {Q E M : Type ℓ} where
  rotated_to : Q → Result Rotation × Fanout E M → Option (Result (Unit {0})) × WorkNode Q E M
  rotated_to s (a, f) = (some (instead tt a), record { search = s; outputs = f })

  -- The end of `work`, given what the search found; `none` where that goes on.
  push_found :
      (M → M)
      → TryPushable E M
      → Closeable E
      → Fanout E M
      → Option (Result (Incoming M)) × Q
      → Option (Result (Unit {0})) × WorkNode Q E M
  unfolding rotated_to
  push_found clone t c f (none, s) = (none, record { search = s; outputs = f })
  push_found clone t c f (some (err e), s) = (some (err e), record { search = s; outputs = f })
  push_found clone t c f (some (ok (message m)), s) = rotated_to s (rotate_from clone t f 0 m)
  push_found clone t c f (some (ok input_closed), s) =
      (some (err closed), record { search = s; outputs = (close c f).1 })

  -- `Workable::work`: one round, which finishes a suspended push or pushes one message.
  unfoldable pub work_with :
      (Q → Option (Result (Incoming M)) × Q)
      → (M → M)
      → TryPushable E M
      → Pushable E M
      → Closeable E
      → WorkNode Q E M
      → Option (Result (Unit {0})) × WorkNode Q E M
  unfolding push_found
  work_with next_message clone t p c n = elim n.outputs.suspended [
    | some held ↦ rotated_to n.search (resume clone t p n.outputs)
    | none ↦ push_found clone t c n.outputs (next_message n.search)
  ]

  go_on :
      (WorkNode Q E M → Option (Result (Unit {0})) × WorkNode Q E M)
      → Option (Result (Unit {0})) × WorkNode Q E M
      → Option (Result (Unit {0})) × WorkNode Q E M
  go_on onward (some (ok u), n) = onward n
  go_on onward (none, n) = (none, n)
  go_on onward (some (err e), n) = (some (err e), n)

  -- Rounds, each with its number of turns, until one fails or its search goes on.
  unfoldable pub rounds_of :
      (ℕ → WorkNode Q E M → Option (Result (Unit {0})) × WorkNode Q E M)
      → List ℕ
      → WorkNode Q E M
      → Option (Result (Unit {0})) × WorkNode Q E M
  unfolding go_on
  rounds_of work [] n = (some (ok tt), n)
  rounds_of work (turns ∷ more) n = go_on (rounds_of work more) (work turns n)
