-- ===== src/Work/Node.antt =====
-- node/work.rs and what the work nodes of node/line/work/, node/biunion/work/ and node/bifurcation/work/
-- share: a routine that takes all it is sent, the node's own input, and a round of its parents.
--
-- The parents push into the node's input edge, as other threads do, so the edge is not a value of
-- the node's: it is in the world `X`, together with all that working a parent changes. The calls of
-- an edge are parameters. Waiting on an edge is one call, which returns when its wait is over.
pub mod Stream
pub mod Round
use areamy.Common.{Bool, true, false, Option, none, some, List, [], ◌∷◌}
use areamy.Error.{Error, fatal, any, closed, Result, ok, err, and_then, Op}
use areamy.Message.{Message, data', flush, marker}
use areamy.Work.Each.{work_each}

-- What a work node's search for its next message found.
pub data Incoming {ℓ} (M : Type ℓ) : Type ℓ where
  message : M → Incoming M
  input_closed : Incoming M  -- `Closed`

-- node/routine.rs: `Send`, `Flush` and `Next`.
pub record Routine {ℓ} (R D Out : Type ℓ) : Type ℓ where
  pub send : R → D → Result (Unit {0}) × R
  pub flush : R → Result (Unit {0}) × R
  pub next : R → Result (Option Out) × R

-- `Receiver::poll` and `Receiver::wait_front` of the edge that a node reads.
pub record Inlet {ℓ} (X M : Type ℓ) : Type ℓ where
  pub poll : X → Result (Option M) × X
  pub wait_front : X → Result (Unit {0}) × X

module _ {ℓ κ} {A : Type ℓ} {B : Type κ} where
  -- The value of a call that ended well.
  abbrev pub instead : B → Result A → Result B
  instead b (ok a) = ok b
  instead b (err e) = err e

module _ {ℓ} {W X : Type ℓ} where
  -- After a wait: closed once the edge can never fill, and else `onward`.
  abbrev pub waited :
      (X → Result Bool × List W × X) → List W → Result (Unit {0}) × X → Result Bool × List W × X
  waited onward ws (ok u, x) = onward x
  waited onward ws (err closed, x) = (ok true, ws, x)
  waited onward ws (err (fatal m), x) = (err (fatal m), ws, x)
  waited onward ws (err (any e), x) = (err (any e), ws, x)

module _ {ℓ} {W X : Type ℓ} (work : W → Op X (Unit {0})) where
  -- Work each parent once: the edge is not known to be closed.
  abbrev pub work_parents : List W → X → Result Bool × List W × X
  work_parents ws x = let (a, ws', x') = work_each work ws x in (instead false a, ws', x')

  -- The branch of an input that polled empty: with no parents left, block on the edge; then a round
  -- of the parents. True once the edge can never fill.
  pub starved : Op X (Unit {0}) → List W → X → Result Bool × List W × X
  starved wait [] x = waited (work_parents []) [] (wait x)
  starved wait (w ∷ ws) x = work_parents (w ∷ ws) x
