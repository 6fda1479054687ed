-- ===== src/Edge/Sync/Trace/Tests.antt =====
-- The theorems on sequences of calls at concrete ones.
use mathlib.Core.List.{mem-cons_self}
use areamy.Common.{
  ℕ, ◌≤◌, ◌≡◌, refl, ◌⊎◌, false, none, some, List, [], ◌∷◌, ◌++◌, arith, length, Mem,
}
use areamy.Error.{ok}
use areamy.Edge.Sync.{Shared, Sender, wake, with_bound, try_push_back}
use areamy.Graph.{full}
use areamy.Edge.Sync.Trace.{Call, run, try_pushes, polls, mints}
use areamy.Edge.Sync.Trace.Fifo.{run-fifo}
use areamy.Edge.Sync.Trace.Bound.{run-with_bound-le}
use areamy.Edge.Sync.Trace.Wakes.{Waits, run-owed, try_push_back-again}

abbrev bound_to_9 : Sender
bound_to_9 = record { refused_at = none; waker = some 9; released = false }

abbrev filling : List (Call ℕ)
filling = mints ∷ try_pushes bound_to_9 1 ∷ try_pushes bound_to_9 2 ∷ try_pushes bound_to_9 3 ∷ []

-- Two slots hold 1 and 2; the sender of 3 was refused.
abbrev crowded : Shared ℕ
crowded = record {
  inner = record {
    buffer = 1 ∷ 2 ∷ [];
    is_closed = false;
    consumer_waiting = false;
    bound = some 2;
    producers_waiting = 0;
    progress = 0;
    refused = 9 ∷ [];
  };
  producer_count = 1;
}

filled : (run (with_bound (some 2)) filling).shared ≡ crowded
unfolding run with_bound
filled = refl

run-fifo_example :
    crowded.buffer ++ (run crowded (polls ∷ try_pushes bound_to_9 3 ∷ [])).accepted
    ≡ (run crowded (polls ∷ try_pushes bound_to_9 3 ∷ [])).taken
      ++ (run crowded (polls ∷ try_pushes bound_to_9 3 ∷ [])).shared.buffer
run-fifo_example = run-fifo crowded (polls ∷ try_pushes bound_to_9 3 ∷ [])

run-with_bound-le_example : length (run (with_bound (some 2)) filling).shared.buffer ≤ 2
run-with_bound-le_example = run-with_bound-le 2 filling

run-owed_example :
    Waits 9 crowded (run crowded (polls ∷ [])).taken (run crowded (polls ∷ [])).shared
    ⊎ Mem (wake 9) (run crowded (polls ∷ [])).notices
run-owed_example = run-owed 9 crowded (polls ∷ []) mem-cons_self

abbrev refused_once : Sender
refused_once = record bound_to_9 { refused_at = some 0 }

-- Another sender filled the slot that was freed.
abbrev meanwhile : List (Call ℕ)
meanwhile = polls ∷ try_pushes bound_to_9 5 ∷ []

try_push_back-again_example :
    (try_push_back (run crowded meanwhile).shared refused_once 3).0 ≡ ok (full 3)
unfolding run
try_push_back-again_example =
    try_push_back-again crowded meanwhile refused_once 3 (omega arith) (omega arith) refl refl refl
      refl
