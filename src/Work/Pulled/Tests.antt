-- ===== src/Work/Pulled/Tests.antt =====
-- A chain that counts, on one output with room for two messages.
use areamy.Common.{
  ℕ, suc, ltb, if◌then◌else◌, none, List, [], ◌∷◌, ◌++◌, refl, Bool-cases, inl, inr, length,
}
use areamy.Error.{Result, ok}
use areamy.Graph.{TryPush, pushed, full, TryPushable, Pushable}
use areamy.Edge.Fanout.Delivery.{Answers}
use areamy.Work.Node.Round.{WorkNode, rounds_of}
use areamy.Work.Node.Round.Keeps.{Rounded}
use areamy.Work.Pulled.{work, GaveOut, rounds-GaveOut}

-- What the counter gave, and its next number.
abbrev Counter : Type 0
Counter = List ℕ × ℕ

abbrev pull : Counter → Result ℕ × Counter
pull x = (ok (x.1), (x.0 ++ x.1 ∷ [], suc (x.1)))

abbrev try_push : List ℕ → ℕ → Result (TryPush ℕ) × List ℕ
try_push e m = if ltb (length e) 2 then (ok pushed, e ++ m ∷ []) else (ok (full m), e)

abbrev slots : TryPushable (List ℕ) ℕ
slots = record { try_push = try_push }

abbrev blocking : Pushable (List ℕ) ℕ
blocking = record { push = λ e m. (ok tt, e ++ m ∷ []) }

abbrev node : WorkNode Counter (List ℕ) ℕ
node = record { search = ([], 4); outputs = record { edges = [] ∷ []; suspended = none } }

try_push-Answers : (e : List ℕ) (m : ℕ) → Answers (λ x. x) e m (try_push e m)
try_push-Answers e m = elim (Bool-cases (ltb (length e) 2)) [
  | inl room ↦ rw room refl
  | inr none_left ↦ rw none_left (refl, refl)
]

rounds-GaveOut_example :
    Rounded
      (GaveOut (λ (x : Counter). x.0) [])
      (λ m. m)
      (λ (e : List ℕ). e)
      ([] ∷ [])
      (rounds_of (λ k. work pull (λ m. m) slots blocking) (0 ∷ 0 ∷ 0 ∷ 0 ∷ []) node)
rounds-GaveOut_example =
    rounds-GaveOut pull (λ m. m) slots blocking (λ x. x.0) (λ e. e) try_push-Answers (λ e m. refl)
      (λ x. refl) (0 ∷ 0 ∷ 0 ∷ 0 ∷ []) node refl
