-- ===== src/Poll/Node/Drive.antt =====
-- node/poll/drive.rs: the Work phase, which polls the routine.
pub mod Step
use areamy.Common.{ℕ, ◌≡◌}
use areamy.Error.{fatal, closed, Result, Op, ◌>>=◌, ◌>>◌, pure, fail}
use areamy.Poll.Node.{
  NodeState, running, flushing, flush_ready, marker_ready, forwarding, close_ready, is_shut, output,
  Polled, ready, pending, LineRoutine, Node, wake, become, of_routine, guarded,
}

module _ {ℓ} {I R O D Out S : Type ℓ} (r : LineRoutine R D Out) where
  poll_routine : Op (Node I R O D S) Polled
  poll_routine =
      guarded "routine returned Closed error — routines must handle close, not propagate it"
        (of_routine r.poll)

  premature : Polled → Op (Node I R O D S) Polled → Op (Node I R O D S) Polled
  premature ready onward = fail (fatal "routine returned Ready without pending flush or close")
  premature pending onward = onward

  flushed : S → Polled → Op (Node I R O D S) Polled
  flushed signal ready = do become (flush_ready signal); wake output; pure pending
  flushed signal pending = pure pending

  drive_in : NodeState S → Op (Node I R O D S) Polled
  unfolding poll_routine premature flushed wake become
  drive_in is_shut = fail closed
  drive_in close_ready = fail closed
  drive_in (flushing signal) = do p ← poll_routine; flushed signal p
  drive_in running = do p ← poll_routine; premature p (pure pending)
  drive_in (marker_ready signal) = do p ← poll_routine; premature p (do wake output; pure pending)
  drive_in (flush_ready signal) = pure pending
  drive_in forwarding = pure pending

  -- `Drive::poll`
  unfoldable pub drive : Op (Node I R O D S) Polled
  unfolding drive_in
  drive n = drive_in n.state n
