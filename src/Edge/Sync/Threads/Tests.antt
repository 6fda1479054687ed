-- ===== src/Edge/Sync/Threads/Tests.antt =====
-- The theorems on sleeping threads at concrete schedules, and the edge's calls at work.
use areamy.Common.{ℕ, ◌≡◌, refl, ◌≢◌, true, false, none, some, List, [], ◌∷◌, arith, length}
use areamy.Edge.Sync.{with_bound, Sender, is_full}
use areamy.Edge.Sync.Threads.{Action, push, push_again, read, mint, reach_one, perform, fresh}
use areamy.Edge.Sync.Threads.Sleepers.{sleeping_producer, sleeping_reader}

abbrev handle : Sender
handle = record { refused_at = none; waker = none; released = false }

-- One slot: the first push lands, the second producer goes to sleep.
abbrev crowded : List (Action ℕ)
crowded = mint ∷ push handle 7 ∷ push handle 8 ∷ []

abbrev starved : List (Action ℕ)
starved = mint ∷ read ∷ []

-- The reader frees a slot, and the sleeping producer is notified and pushes.
abbrev freed : List (Action ℕ)
freed = mint ∷ push handle 7 ∷ push handle 8 ∷ read ∷ reach_one ∷ push_again 8 ∷ []

handed_over : (perform (fresh (some 1)) freed).buffer ≡ 8 ∷ []
unfolding perform fresh with_bound
handed_over = refl

sleeping_producer_example :
    ((perform (fresh (some 1)) crowded).is_closed ≡ false)
    × (is_full (perform (fresh (some 1)) crowded).inner ≡ true)
unfolding perform fresh with_bound
sleeping_producer_example = sleeping_producer (some 1) crowded (omega arith) refl refl refl

sleeping_reader_example :
    ((perform (fresh none) starved).is_closed ≡ false)
    × (length (perform (fresh none) starved).buffer ≡ 0)
    × ((perform (fresh none) starved).producer_count ≢ 0)
unfolding perform fresh with_bound
sleeping_reader_example = sleeping_reader none starved refl refl refl
