-- ===== src/Poll/Node/Emit.antt =====
-- node/poll/emit.rs: the Output phase, which drains the routine into the output edges and forwards
-- signals. What it logs of parked edges is left out.
pub mod Step
pub mod Account
use areamy.Common.{
  ℕ, zero, suc, Bool, true, false, Option, none, some, List, [], ◌∷◌, ◌++◌, if◌then◌else◌,
}
use areamy.Error.{closed, Result, ok, err, Op, ◌>>=◌, ◌>>◌, pure, fail}
use areamy.Message.{Message, data', flush, marker}
use areamy.Edge.Fanout.{Rotation, complete, at}
use areamy.Poll.Node.{
  NodeState, running, flushing, flush_ready, marker_ready, forwarding, close_ready, is_shut, input,
  work, output, Polled, pending, LineRoutine, Rotate, Node, wake, become, of_routine, of_outlet,
}

pub data Drained : Type 0 where
  all_out parked yielded : Drained

module _ {ℓ} {I R O D Out S : Type ℓ} (r : LineRoutine R D Out) (o : Rotate O (Message Out S)) where
  -- `settled`
  settled : Op (Node I R O D S) Rotation
  settled = of_outlet o.retry

  -- `start`
  start : Message Out S → Op (Node I R O D S) Rotation
  start m = of_outlet (λ outlet. o.rotate outlet m)

  -- `drain` goes on behind a message that went out, and stops at an edge that refused it.
  after_rotation : Op (Node I R O D S) Drained → Rotation → Op (Node I R O D S) Drained
  after_rotation onward complete n = onward n
  after_rotation onward (at edge) n = (ok parked, n)

  -- An iteration of `drain`'s loop, by the output that the routine had.
  after_next : Op (Node I R O D S) Drained → Option Out → Op (Node I R O D S) Drained
  unfolding start after_rotation
  after_next onward none n = (ok all_out, n)
  after_next onward (some out) n = (start (data' out) >>= after_rotation onward) n

  -- The loop of `drain`, over what is left of the budget.
  drain_loop : ℕ → Op (Node I R O D S) Drained
  unfolding wake after_next
  drain_loop zero = do wake output; pure yielded
  drain_loop (suc budget) = of_routine r.next >>= after_next (drain_loop budget)

  drain : Op (Node I R O D S) Drained
  unfolding settled drain_loop after_rotation
  drain n = (settled >>= after_rotation (drain_loop n.budget_output)) n

  -- `running`: the signal is out, so the inputs and Work go on.
  run_again : Op (Node I R O D S) Polled
  unfolding wake become
  run_again = do become running; wake input; wake work; pure pending

  -- The signal's rotation, begun or resumed.
  after_signal : Rotation → Op (Node I R O D S) Polled
  unfolding run_again
  after_signal complete n = run_again n
  after_signal (at edge) n = (ok pending, n)

  -- `FlushReady` and `MarkerReady`: the signal goes out behind the data.
  after_data : Message Out S → Drained → Op (Node I R O D S) Polled
  unfolding start become after_signal
  after_data signal all_out n =
      (do become forwarding; rotation ← start signal; after_signal rotation) n
  after_data signal parked n = (ok pending, n)
  after_data signal yielded n = (ok pending, n)

  -- `CloseReady`: the output closes behind the data, or at an edge that refuses.
  after_last : Drained → Op (Node I R O D S) Polled
  after_last yielded n = (ok pending, n)
  after_last all_out n = (do of_outlet o.close; fail closed) n
  after_last parked n = (do of_outlet o.close; fail closed) n

  step_in : NodeState S → Op (Node I R O D S) Polled
  unfolding settled drain after_signal after_data after_last
  step_in is_shut = fail closed
  step_in (flush_ready signal) = drain >>= after_data (flush signal)
  step_in (marker_ready signal) = drain >>= after_data (marker signal)
  step_in forwarding = settled >>= after_signal
  step_in close_ready = drain >>= after_last
  step_in running = do drained ← drain; pure pending
  step_in (flushing signal) = do drained ← drain; pure pending

  -- `close`, after an error.
  shut : Result Polled × Node I R O D S → Result Polled × Node I R O D S
  shut (ok p, n) = (ok p, n)
  shut (err e, n) = (err e, record n { state = is_shut; woken = n.woken ++ input ∷ work ∷ [] })

  -- `Emit::poll`
  unfoldable pub emit : Op (Node I R O D S) Polled
  unfolding step_in shut
  emit n = shut (step_in n.state n)
