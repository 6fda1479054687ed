-- ===== src/Thread/Tests.antt =====
-- A bundle of three threads: one closes, one fails, one panics after it.
use areamy.Common.{ℕ, Option, none, some, List, [], ◌∷◌, ◌≡◌, ◌↔◌, map}
use areamy.Error.{Error, any, ok, err}
use areamy.Thread.{panic, failed, Fate, unwinds, returns, task, inject, exits, join, errors}
use areamy.Thread.Exits.{task-told, exits-first, first}

abbrev reason : Option ℕ → ℕ
reason none = 0
reason (some n) = n

abbrev payload : ℕ → Error
payload n = any n

abbrev hooks : List ℕ
hooks = 8 ∷ 9 ∷ []

abbrev one_panic : Fate ℕ ℕ
one_panic = unwinds 6

abbrev three : List (List ℕ × Fate ℕ ℕ)
three = (1 ∷ [], returns (ok tt)) ∷ ([], returns (err (any 5))) ∷ (2 ∷ 3 ∷ [], unwinds 6) ∷ []

task-told_example : task reason one_panic hooks ≡ (8, panic) ∷ (9, panic) ∷ []
task-told_example = task-told reason one_panic hooks

exits-first_example :
    (exits reason (inject hooks three) hooks ≡ (8, failed (any 5)) ∷ (9, failed (any 5)) ∷ [])
    × (errors (map (join reason payload) (map (λ t. t.1) three)) ≡ []
        ↔ first reason (map (λ t. t.1) three) ≡ none)
exits-first_example = exits-first reason payload three hooks
