-- ===== src/Poll/Thread/Tests.antt =====
-- A graph of nodes that stay pending as often as their number says and then close.
use areamy.Common.{ℕ, zero, suc, some, List, [], ◌∷◌, ◌≡◌, refl, arith, ◌<◌, get_elem?, map}
use areamy.Error.{closed, Result, ok, err}
use areamy.Poll.Node.{Polled, pending}
use areamy.Poll.Thread.{turn, run, poll_loop}
use areamy.Poll.Thread.Past.{Event, answered, dropped}
use areamy.Poll.Thread.Slots.{Outcome, run-Outcome}
use areamy.Poll.Thread.Ends.{run-Returns}

record Counter : Type 0 where
  slot : ℕ
  left : ℕ

-- What a node answers that has `left` pendings before it.
abbrev answer : ℕ → Result Polled
answer zero = err closed
answer (suc n) = ok pending

abbrev lower : ℕ → ℕ
lower zero = zero
lower (suc n) = n

-- The world logs what nodes answer, and that they are dropped.
abbrev countdown : Counter → List Event → Result Polled × Counter × List Event
countdown c x =
    (answer c.left, record c { left = lower c.left }, answered c.slot (answer c.left) ∷ x)

abbrev drops : Counter → List Event → List Event
drops c x = dropped c.slot ∷ x

abbrev counters : List Counter
counters = record { slot = 0; left = 0 } ∷ record { slot = 1; left = 1 } ∷ []

abbrev wakes : List ℕ
wakes = 1 ∷ 0 ∷ 0 ∷ 1 ∷ []

lower-lt : (n : ℕ) → answer n ≡ ok pending → lower n < n
lower-lt zero e = cc
lower-lt (suc n) e = omega arith

-- Node 0 is polled once, node 1 twice; the last wake of node 0 finds its slot empty.
closes_all :
    (run countdown drops wakes (map some counters) []).1.world
    ≡ dropped 1
      ∷ answered 1 (err closed)
      ∷ dropped 0
      ∷ answered 0 (err closed)
      ∷ answered 1 (ok pending)
      ∷ []
unfolding run poll_loop turn
closes_all = refl

counters-placed : (i : ℕ) (c : Counter) → get_elem? counters i ≡ some c → c.slot ≡ i
counters-placed zero c e = ground (arith, e)
counters-placed (suc zero) c e = ground (arith, e)
counters-placed (suc (suc i)) c e = cc

run-Outcome_example :
    Outcome countdown drops
      (λ c. c.slot)
      (λ x. x)
      (λ c x. refl)
      (λ c x. refl)
      (λ c x. refl)
      2
      (run countdown drops wakes (map some counters) [])
run-Outcome_example =
    run-Outcome countdown drops (λ c. c.slot) (λ x. x) (λ c x. refl) (λ c x. refl) (λ c x. refl)
      wakes counters [] counters-placed refl

run-Returns_example :
    (r : Result (Unit {0})) × ((run countdown drops wakes (map some counters) []).0 ≡ some r)
run-Returns_example =
    run-Returns countdown drops (λ c. c.left) (λ c x. lower-lt c.left) wakes counters []
      (omega arith)
