-- ===== src/Edge/Fanout/Tests.antt =====
-- The fan-out over edges that refuse as told.
use areamy.Common.{ℕ, ◌+◌, ◌≡◌, refl, Bool, true, false, none, List, [], ◌∷◌, ◌++◌, map}
use areamy.Error.{Result, ok}
use areamy.Graph.{TryPush, pushed, full, stuck, TryPushable, Pushable}
use areamy.Edge.Fanout.{Fanout, rotate, retry, resume}
use areamy.Edge.Fanout.Delivery.{Answers}
use areamy.Edge.Fanout.Delivery.Once.{
  Delivered, Again, retries, resumes, call_again, rotate-Delivered,
}

-- An edge with what it took and what it answers next: `Full`, `Stuck` or, at the end, `Pushed`.
record Port : Type 0 where
  got : List ℕ
  stuck_next : List Bool

abbrev attempt : List Bool → List ℕ → ℕ → Result (TryPush ℕ) × Port
attempt [] got m = (ok pushed, record { got = got ++ m ∷ []; stuck_next = [] })
attempt (true ∷ rs) got m = (ok (stuck m), record { got = got; stuck_next = rs })
attempt (false ∷ rs) got m = (ok (full m), record { got = got; stuck_next = rs })

attempt-Answers :
    (rs : List Bool) (got : List ℕ) (m : ℕ)
    → Answers (λ (e : Port). e.got) (record { got = got; stuck_next = rs }) m (attempt rs got m)
attempt-Answers [] got m = refl
attempt-Answers (true ∷ rs) got m = (refl, refl)
attempt-Answers (false ∷ rs) got m = (refl, refl)

abbrev trying : TryPushable Port ℕ
trying = record { try_push = λ e m. attempt e.stuck_next e.got m }

abbrev blocking : Pushable Port ℕ
blocking = record { push = λ e m. (ok tt, record e { got = e.got ++ m ∷ [] }) }

abbrev port : List Bool → Port
port rs = record { got = []; stuck_next = rs }

-- Clones are marked, to see who gets one.
abbrev marked : ℕ → ℕ
marked m = m + 100

abbrev three : Fanout Port ℕ
three = record {
  edges = port [] ∷ port (false ∷ true ∷ []) ∷ port (true ∷ []) ∷ [];
  suspended = none;
}

abbrev again : List Again
again = retries ∷ resumes ∷ resumes ∷ retries ∷ []

delivered :
    map
      (λ (e : Port). e.got)
      (call_again marked trying blocking again (rotate marked trying three 7)).1.edges
    ≡ (107 ∷ []) ∷ (107 ∷ []) ∷ (7 ∷ []) ∷ []
unfolding call_again rotate retry resume
delivered = refl

rotate-Delivered_example :
    Delivered marked
      (λ (e : Port). e.got)
      7
      ([] ∷ [] ∷ [] ∷ [])
      (call_again marked trying blocking again (rotate marked trying three 7))
rotate-Delivered_example =
    rotate-Delivered marked (λ (e : Port). e.got) trying blocking three 7 again
      (λ e m. attempt-Answers e.stuck_next e.got m) (λ e m. refl) refl
