-- ===== src/Poll/Edge/Trace/Tests.antt =====
-- An edge of two slots, and its theorems there.
use areamy.Common.{ℕ, true, false, some, List, [], ◌∷◌, ◌++◌, ◌≡◌, refl, ◌≤◌, length, ◌⊎◌, is_empty}
use areamy.Poll.Edge.{Shared, channel}
use areamy.Poll.Edge.Trace.{
  Call, pushes, receives, sender_closes, run, channel-run, Owed, run-Owed, for_producer,
}

abbrev burst : List (Call ℕ)
burst = pushes 1 ∷ pushes 2 ∷ pushes 3 ∷ receives ∷ pushes 4 ∷ sender_closes ∷ receives ∷ []

burst_taken : (run (channel (some 2)) burst).taken ≡ 1 ∷ 2 ∷ []
unfolding run channel
burst_taken = refl

channel-run_example :
    ((run (channel (some 2)) burst).accepted
      ≡ (run (channel (some 2)) burst).taken ++ (run (channel (some 2)) burst).shared.buffer)
    × (length (run (channel (some 2)) burst).shared.buffer ≤ 2)
channel-run_example = channel-run 2 burst

-- The producer, which waker 9 belongs to, was refused.
abbrev refusing : Shared ℕ
refusing = record {
  buffer = 1 ∷ 2 ∷ [];
  bound = some 2;
  is_closed = false;
  refused = true;
  producer = some 9;
}

run-Owed_example :
    (Owed (run refusing (pushes 3 ∷ receives ∷ [])).shared
      × (is_empty (run refusing (pushes 3 ∷ receives ∷ [])).taken ≡ true))
    ⊎ (for_producer (run refusing (pushes 3 ∷ receives ∷ [])).woken ≡ true)
run-Owed_example = run-Owed refusing (pushes 3 ∷ receives ∷ []) (refl, refl)
