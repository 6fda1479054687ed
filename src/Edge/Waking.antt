-- ===== src/Edge/Waking.antt =====
-- edge/waking.rs: the edge between threads (Edge.Sync) with a waker for its consumer.
--
-- A call of a sender is the inner edge's critical section, with the notices that it leaves, and then,
-- where the Boolean says so, a wake of the consumer, which is a step of its own. `Drop` of a sender
-- does what `close` does: the inner sender is dropped first, and then the waker. `poll` and `state` of
-- the receiver are the inner edge's `try_pop` and `state`, and its `close` wakes no consumer.
use areamy.Common.{Bool, true, false, List}
use areamy.Error.{Result, ok, err}
use areamy.Graph.{TryPush, pushed, full, stuck}
use areamy.Edge.Sync.{Shared, Sender, Notice, Blocking, done, parked}
use areamy.Edge.Sync

module _ {ℓ} {M : Type ℓ} where
  -- `matches!(result, TryPush::Pushed)`, where the call did not fail.
  abbrev pub is_pushed : Result (TryPush M) → Bool
  is_pushed (ok pushed) = true
  is_pushed (ok (full m)) = false
  is_pushed (ok (stuck m)) = false
  is_pushed (err e) = false

  unfoldable pub try_push :
      Shared M → Sender → M → (Result (TryPush M) × Shared M × Sender × List Notice) × Bool
  try_push s h m = let x = Sync.try_push_back s h m in (x, is_pushed (x.0))

  -- Whether a `push_back` that ended woke the consumer.
  abbrev pub has_landed : Blocking (Result (Unit {0})) M → Bool
  has_landed (done (ok u) s ns) = true
  has_landed (done (err e) s ns) = false
  has_landed (parked s) = false

  unfoldable pub push_back : Shared M → Sender → M → Blocking (Result (Unit {0})) M × Bool
  push_back s h m = let x = Sync.push_back s h m in (x, has_landed x)

  unfoldable pub push_back_woken : Shared M → M → Blocking (Result (Unit {0})) M × Bool
  push_back_woken s m = let x = Sync.push_back_woken s m in (x, has_landed x)

  unfoldable pub close : Shared M → Sender → (Shared M × Sender × List Notice) × Bool
  close s h = (Sync.sender_close s h, true)
