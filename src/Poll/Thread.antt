-- ===== src/Poll/Thread.antt =====
-- poll/thread.rs: the loop of a poll thread over the nodes of its graph.
--
-- The ids that `consumer.next()` hands out come as a list, in the order in which it does, and the
-- loop waits where the list ends; so every order of wakes is one. A pollable is a value of the
-- client's type, polled in a world `X`, which holds the edges; dropping one is an operation on that
-- world, the cascade of its handles. The ambient timer of a poll is part of the client's.
pub mod Occupied
pub mod Past
pub mod Slots
pub mod Ends
mod Tests
use Prim.Native.String.{String}
use areamy.Common.{
  ℕ, suc, ◌-◌, ◌==◌, Bool, true, false, Option, none, some, List, [], ◌∷◌, get_elem?, set, length,
}
use areamy.Error.{Error, fatal, any, closed, Result, ok, err}
use areamy.Poll.Node.{Polled, ready, pending}

-- `runtime.nodes`, the loop's `alive`, and the world.
pub record Runtime {ℓ} (P X : Type ℓ) : Type ℓ where
  pub nodes : List (Option P)
  pub alive : ℕ
  pub world : X

module _ {ℓ} {P X : Type ℓ} (poll : P → X → Result Polled × P × X) (drop : P → X → X) where
  -- `*slot = None; alive -= 1`
  vacate : ℕ → P → Runtime P X → Runtime P X
  vacate node_id p s = record {
    nodes = set s.nodes node_id none;
    alive = s.alive - 1;
    world = drop p s.world;
  }

  put_back : ℕ → P → X → Runtime P X → Runtime P X
  put_back node_id p x s = record s { nodes = set s.nodes node_id (some p); world = x }

  -- `match pollable.poll(cx)`: an error other than closed ends the loop.
  polled : ℕ → Result Polled × P × X → Runtime P X → Result (Unit {0}) × Runtime P X
  unfolding vacate put_back
  polled node_id (ok pending, p, x) s = (ok tt, put_back node_id p x s)
  polled node_id (ok ready, p, x) s = (ok tt, vacate node_id p (record s { world = x }))
  polled node_id (err closed, p, x) s = (ok tt, vacate node_id p (record s { world = x }))
  polled node_id (err (fatal m), p, x) s = (err (fatal m), put_back node_id p x s)
  polled node_id (err (any e), p, x) s = (err (any e), put_back node_id p x s)

  -- One turn, for the id that the consumer handed out.
  pub turn : ℕ → Runtime P X → Result (Unit {0}) × Runtime P X
  unfolding polled
  turn node_id s = elim (get_elem? s.nodes node_id) [
    | none ↦ (err (fatal "woken for a node not in this graph"), s)
    | some slot ↦ elim slot [ none ↦ (ok tt, s) | some p ↦ polled node_id (poll p s.world) s ]
  ]

  go_on :
      (Runtime P X → Option (Result (Unit {0})) × Runtime P X)
      → Result (Unit {0}) × Runtime P X
      → Option (Result (Unit {0})) × Runtime P X
  go_on onward (ok u, s) = onward s
  go_on onward (err e, s) = (some (err e), s)

  -- `none` where it waits for an id.
  pub poll_loop : List ℕ → Runtime P X → Option (Result (Unit {0})) × Runtime P X
  unfolding turn go_on
  poll_loop [] s = elim (s.alive == 0) [ true ↦ (some (ok tt), s) | false ↦ (none, s) ]
  poll_loop (node_id ∷ ids) s = elim (s.alive == 0) [
    | true ↦ (some (ok tt), s)
    | false ↦ go_on (poll_loop ids) (turn node_id s)
  ]

  -- The loop from its start.
  pub run : List ℕ → List (Option P) → X → Option (Result (Unit {0})) × Runtime P X
  run ids nodes x = poll_loop ids (record { nodes = nodes; alive = length nodes; world = x })
