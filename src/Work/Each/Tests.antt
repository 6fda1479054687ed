-- ===== src/Work/Each/Tests.antt =====
-- A round over nodes that log that they were worked.
use areamy.Common.{ℕ, if◌then◌else◌, ◌==◌, List, [], ◌∷◌, ◌++◌, ◌≡◌, refl}
use areamy.Error.{fatal, closed, Result, ok, err}
use areamy.Work.Each.{last_first, rotated, work_each}
use areamy.Work.Each.Once.{Ended, work_each-Ended}

-- Node 1 is closed, and node 9 fails.
abbrev answer : ℕ → Result (Unit {0})
answer n = if n == 1 then err closed else if n == 9 then err (fatal "failed") else ok tt

abbrev logged : ℕ → List ℕ → Result (Unit {0}) × List ℕ
logged n log = (answer n, log ++ n ∷ [])

-- The last takes the place of the closed one, so it is worked next.
skips_none : work_each logged (0 ∷ 1 ∷ 2 ∷ 3 ∷ []) [] ≡ (ok tt, 3 ∷ 2 ∷ 0 ∷ [], 0 ∷ 1 ∷ 3 ∷ 2 ∷ [])
unfolding work_each last_first
skips_none = refl

failure_stops :
    work_each logged (0 ∷ 9 ∷ 2 ∷ []) [] ≡ (err (fatal "failed"), 0 ∷ 9 ∷ 2 ∷ [], 0 ∷ 9 ∷ [])
unfolding work_each
failure_stops = refl

work_each-Ended_example :
    Ended logged rotated [] (0 ∷ 1 ∷ 2 ∷ 3 ∷ []) [] (work_each logged (0 ∷ 1 ∷ 2 ∷ 3 ∷ []) [])
work_each-Ended_example = work_each-Ended logged (0 ∷ 1 ∷ 2 ∷ 3 ∷ []) []
