-- ===== src/Poll/Node/Line.antt =====
-- node/line/poll/node/ (input.rs, work.rs, output.rs): the phases of a node with one input. That a
-- phase finds the shared state borrowed by another one is left out: polls do not nest.
pub mod Tests
pub mod Moves
use areamy.Common.{true, false}
use areamy.Error.{closed, Op, ◌>>=◌, ◌>>◌, pure, fail}
use areamy.Message.{Message}
use areamy.Poll.Node.{
  NodeState, running, flushing, flush_ready, marker_ready, forwarding, close_ready, is_shut, Phase,
  input, work, output, Polled, pending, LineRoutine, Receivable, Rotate, Node, wake,
}
use areamy.Poll.Node.Feed.{feed}
use areamy.Poll.Node.Drive.{drive}
use areamy.Poll.Node.Emit.{emit}

module _ {ℓ} {I R O D Out S : Type ℓ} (r : LineRoutine R D Out) (i : Receivable I (Message D S))
    (o : Rotate O (Message Out S)) where
  -- What `Input::poll` does after the inputs were drained.
  after_feed : NodeState S → Op (Node I R O D S) Polled
  after_feed close_ready = do wake output; fail closed
  after_feed s = pure pending

  input_in : NodeState S → Op (Node I R O D S) Polled
  unfolding after_feed
  input_in is_shut = fail closed
  input_in close_ready = fail closed
  input_in running = do feed r i false; λ n. after_feed n.state n
  input_in s = pure pending

  -- `Pollable::poll` of `Input`, `Work` and `Output`.
  pub poll : Phase → Op (Node I R O D S) Polled
  unfolding input_in
  poll input n = input_in n.state n
  poll work n = drive r n
  poll output n = emit r o n
