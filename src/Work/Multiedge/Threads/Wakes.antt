-- ===== src/Work/Multiedge/Threads/Wakes.antt =====
-- A thread that sleeps in `wait_any` has nothing to do.
use areamy.Common.{arith, ◌≡◌, inl, inr, true, false, some, List, map}
use areamy.Edge.Sync.{Shared, state}
use areamy.Wake.Parker.Threads.{asleep}
use areamy.Work.Multiedge.Threads.{parking, World, Action, perform, start}
use areamy.Work.Multiedge.Survey.{survey, survey-ne-ready, survey-idle, Waits}
use areamy.Work.Multiedge.Threads.Keeps.{Inv, perform-Inv, start-Inv}

Inv-Waits {ℓ} :
    {M : Type ℓ} (w : World M)
    → Inv w
    → w.parker.thread ≡ asleep
    → w.parker.under_way ≡ 0
    → w.to_wake ≡ 0
    → Waits w.edges
Inv-Waits w i sleeps none_under_way none_to_wake =
    let unset : w.parker.woken ≡ false = ground (arith, i.token.sleeper) in
    let parks_on : w.waiter ≡ parking = ground (arith, i.phase) in
    elim i.fresh [
      | inl t ↦ cc
      | inr (inl n) ↦ absurd (omega arith)
      | inr (inr h) ↦
          let found : survey (map state w.edges) false ≡ some true = rw parks_on at h in
          (λ k. survey-ne-ready (map state w.edges) false true k found, survey-idle _ found)
    ]

-- Under any schedule of a thread that waits on any edges and of producers at them, whatever they call,
-- with spurious wakeups: when it sleeps with no notification under way and no producer between its
-- call on an edge and its wake, no edge is ready and one is idle, so that there is nothing to do and
-- a producer to wait for.
pub asleep-Waits {ℓ} :
    {M : Type ℓ} (edges : List (Shared M)) (as' : List (Action M))
    → (perform (start edges) as').parker.thread ≡ asleep
    → (perform (start edges) as').parker.under_way ≡ 0
    → (perform (start edges) as').to_wake ≡ 0
    → Waits (perform (start edges) as').edges
asleep-Waits edges as' =
    Inv-Waits (perform (start edges) as') (perform-Inv (start edges) as' (start-Inv edges))
