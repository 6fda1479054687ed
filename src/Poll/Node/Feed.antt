-- ===== src/Poll/Node/Feed.antt =====
-- node/poll/feed.rs: an Input phase, which moves messages from its edge into the routine.
pub mod Step
pub mod Account
use areamy.Common.{ℕ, zero, suc, Bool, true, false, Option, none, some, if◌then◌else◌}
use areamy.Error.{Error, fatal, any, closed, Result, ok, err, Op, ◌>>=◌, ◌>>◌, pure, fail}
use areamy.Message.{Message, data', flush, marker}
use areamy.Poll.Node.{
  NodeState, running, flushing, marker_ready, close_ready, input, work, Accept, accepted, full,
  LineRoutine, Receivable, Node, wake, become, of_routine, not_closed,
}

-- `ControlFlow<()>`
pub data Flow : Type 0 where
  break continue : Flow

module _ {ℓ} {I R O D Out S : Type ℓ} (r : LineRoutine R D Out)
    (i : Receivable I (Message D S)) where
  -- `offer`: the message that the routine refused, if it did.
  offered : Result (Accept D) × Node I R O D S → Result (Option D) × Node I R O D S
  offered (ok accepted, n) = (ok none, n)
  offered (ok (full d), n) = (ok (some d), n)
  offered (err e, n) = (
    err (
        not_closed
          "routine returned Closed from try_send — routines must handle close, not propagate it" e),
    n,
  )

  offer : D → Op (Node I R O D S) (Option D)
  unfolding offered
  offer d n = offered (of_routine (λ routine. r.try_send routine d) n)

  -- A refused message is held: it ends the phase.
  hold : Option D → Op (Node I R O D S) Flow
  hold none n = (ok continue, n)
  hold (some d) n = (ok break, record n { held = some d })

  offer_or_hold : D → Op (Node I R O D S) Flow
  unfolding offer hold
  offer_or_hold d = offer d >>= hold

  -- `retry`, which takes the held message.
  retry_held : Option D → Op (Node I R O D S) Flow
  unfolding offer_or_hold
  retry_held none n = (ok continue, n)
  retry_held (some d) n = offer_or_hold d (record n { held = none })

  -- `close`; `others` says whether another input still feeds the node.
  close_input : Bool → Op (Node I R O D S) (Unit {0})
  unfolding wake become
  close_input others n =
      let n' : Node I R O D S = record n { is_open = false } in
      if others then (ok tt, n') else (do become close_ready; wake work) n'

  -- `flushing`, once the routine's `flush` is through.
  begin_flush : S → Op (Node I R O D S) Flow
  unfolding wake become
  begin_flush signal = do become (flushing signal); wake work; pure break

  received : Bool → Result (Option (Message D S)) → Op (Node I R O D S) Flow
  unfolding offer_or_hold close_input begin_flush
  received others (ok none) = pure break
  received others (ok (some (data' d))) = offer_or_hold d
  received others (ok (some (flush signal))) = do of_routine r.flush; begin_flush signal
  received others (ok (some (marker signal))) = do
    become (marker_ready signal)
    wake work
    pure break
  received others (err closed) = do close_input others; pure break
  received others (err (fatal m)) = fail (fatal m)
  received others (err (any e)) = fail (any e)

  -- `recv`
  recv : Bool → Op (Node I R O D S) Flow
  unfolding received
  recv others n =
      let (m, inlet) = i.try_recv n.inlet in received others m (record n { inlet = inlet })

  -- The loop of `drain`, over what is left of the budget.
  drain_loop : Bool → ℕ → Op (Node I R O D S) (Unit {0})
  unfolding recv wake
  drain_loop others zero = wake input
  drain_loop others (suc budget) = do
    flow ← recv others
    elim flow [ break ↦ pure tt | continue ↦ drain_loop others budget ]

  -- A closed input has nothing more to take.
  drain_open : Bool → Bool → Op (Node I R O D S) (Unit {0})
  unfolding drain_loop
  drain_open others true n = drain_loop others n.budget_input n
  drain_open others false n = (ok tt, n)

  -- `Feed::drain`
  unfoldable pub feed : Bool → Op (Node I R O D S) (Unit {0})
  unfolding retry_held drain_open
  feed others n =
      (do
        flow ← retry_held n.held
        elim flow [ break ↦ pure tt | continue ↦ λ n'. drain_open others n'.is_open n' ])
        n
