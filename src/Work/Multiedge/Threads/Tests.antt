-- ===== src/Work/Multiedge/Threads/Tests.antt =====
-- Two edges, one with a producer left and one with none.
use areamy.Common.{ℕ, false, none, List, [], ◌∷◌, ◌≡◌, refl}
use areamy.Edge.Sync.{Shared, Sender, state, push_back, push_open, enqueue, wake_consumer}
use areamy.Edge.Waking
use areamy.Wake.Parker.{turn, sleep, wake}
use areamy.Wake.Parker.Threads.{asleep, running, after}
use areamy.Wake.Parker.Threads
use areamy.Work.Multiedge.{looked, scanned}
use areamy.Work.Multiedge.Survey.{Waits}
use areamy.Work.Multiedge.Threads.{
  Action, goes_on, pushes, wakes, notified, scanning, step, end_scan, see, in_park, at_edge, leave,
  leave_blocking, act, perform, start,
}
use areamy.Work.Multiedge.Threads.Wakes.{asleep-Waits}

abbrev edge : ℕ → Shared ℕ
edge producers = record {
  inner = record {
    buffer = [];
    is_closed = false;
    consumer_waiting = false;
    bound = none;
    producers_waiting = 0;
    progress = 0;
    refused = [];
  };
  producer_count = producers;
}

abbrev handle : Sender
handle = record { refused_at = none; waker = none; released = false }

abbrev waits : List (Action ℕ)
waits = goes_on ∷ goes_on ∷ goes_on ∷ []

-- A push on the first edge, its wake and the notification bring the thread back to its scan.
comes_back :
    (perform
      (start (edge 1 ∷ edge 0 ∷ []))
      (goes_on ∷ goes_on ∷ goes_on ∷ pushes 0 handle 7 ∷ wakes ∷ notified ∷ goes_on ∷ [])).waiter
    ≡ scanning 0 false
unfolding perform start act step end_scan see in_park at_edge leave leave_blocking looked scanned
    state after turn sleep wake Threads.act Threads.new Waking.push_back push_back push_open enqueue
    wake_consumer
comes_back = refl

asleep-Waits_example : Waits (perform (start (edge 1 ∷ edge 0 ∷ [])) waits).edges
unfolding perform start act step end_scan see in_park looked scanned state after turn sleep
    Threads.act Threads.new
asleep-Waits_example = asleep-Waits (edge 1 ∷ edge 0 ∷ []) waits refl refl refl
