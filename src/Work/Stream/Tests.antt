-- ===== src/Work/Stream/Tests.antt =====
-- Workables that share a number of turns to take, and close when there are none.
use areamy.Common.{ℕ, zero, suc, arith, some, [], ◌∷◌, ◌≡◌}
use areamy.Error.{closed, Result, ok, err}
use areamy.Work.Stream.{stream_loop}
use areamy.Work.Stream.Loop.{Drains, stream_loop-Drains}
use areamy.Work.Stream.Ends.{Spends, stream_loop-ends}

abbrev take_turn : ℕ → ℕ → Result (Unit {0}) × ℕ
take_turn w zero = (err closed, zero)
take_turn w (suc n) = (ok tt, n)

take_turn-Spends : (w x : ℕ) → Spends (λ n. n) x (take_turn w x)
take_turn-Spends w zero = omega arith
take_turn-Spends w (suc n) = omega arith

stream_loop-Drains_example :
    Drains take_turn (7 ∷ 8 ∷ []) 3 (stream_loop take_turn 5 (7 ∷ 8 ∷ []) 3)
stream_loop-Drains_example = stream_loop-Drains take_turn 5 (7 ∷ 8 ∷ []) 3

stream_loop-ends_example :
    (u : Result (Unit {0})) × ((stream_loop take_turn 5 (7 ∷ 8 ∷ []) 3).0 ≡ some u)
stream_loop-ends_example =
    stream_loop-ends take_turn (λ n. n) take_turn-Spends 5 (7 ∷ 8 ∷ []) 3 (omega arith)
