-- ===== src/Thread.antt =====
-- thread/: how a thread ends, and who is told.
--
-- A task's fate is what the OS and the thread's body decide: its spawn is refused, it panics, or its
-- loop returns. Callbacks are named by a client's type, and what is recorded is each call of one,
-- in order; a callback that panics is caught, so it is a call like any. `boxed` is the number that
-- stands for the boxed `NeverStarted` error with the OS's reason, or without one; `fatal_of` is the
-- error made of a panic's payload.
pub mod Exits
mod Tests
use areamy.Common.{ℕ, Bool, true, false, Option, none, some, List, [], ◌∷◌, ◌++◌, map}
use areamy.Error.{Error, any, Result, ok, err}

-- thread/done.rs
pub data Done : Type 0 where
  close : Done
  error : Error → Done
  panic : Done

pub data Failure : Type 0 where
  failed : Error → Failure
  panicked : Failure

abbrev pub from_done : Done → Option Failure
from_done close = none
from_done (error e) = some (failed e)
from_done panic = some panicked

-- How a task ends.
pub data Fate {ℓ} (A Q : Type ℓ) : Type ℓ where
  refused : A → Fate A Q
  unwinds : Q → Fate A Q
  returns : Result (Unit {0}) → Fate A Q

-- thread/join.rs
pub data Join : Type 0 where
  clean : Join
  error : Error → Join
  panic : Error → Join

-- `fire`: every callback of the list, in order.
abbrev pub fire {ℓ} : {C : Type ℓ} → List C → Done → List (C × Done)
fire callbacks done = map (λ c. (c, done)) callbacks

-- `InitGuard` dropped with these callbacks in it, their list empty or not.
pub drop_init {ℓ κ} : {C : Type ℓ} {A : Type κ} → (Option A → ℕ) → List C → List (C × Done)
drop_init boxed [] = []
drop_init boxed (c ∷ cs) = fire (c ∷ cs) (error (any (boxed none)))

pub drop_run {ℓ} : {C : Type ℓ} → List C → List (C × Done)
drop_run [] = []
drop_run (c ∷ cs) = fire (c ∷ cs) panic

-- `InitGuard::start` and `RunGuard::drain`: the callbacks move on, and the guard that is left is
-- dropped, empty.
pub start {ℓ κ} : {C : Type ℓ} {A : Type κ} → (Option A → ℕ) → List C → List C × List (C × Done)
unfolding drop_init
start boxed cs = (cs, drop_init boxed [])

pub drain {ℓ} : {C : Type ℓ} → List C → List C × List (C × Done)
unfolding drop_run
drain cs = (cs, drop_run [])

abbrev pub done_of : Result (Unit {0}) → Done
done_of (ok u) = close
done_of (err e) = error e

-- `into_task` of a work thread and of a poll thread, run or dropped.
pub task {ℓ κ} : {C : Type ℓ} {A Q : Type κ} → (Option A → ℕ) → Fate A Q → List C → List (C × Done)
unfolding start drain
task boxed (refused reason) cs = drop_init boxed cs
task boxed (unwinds payload) cs = let (run, calls) = start boxed cs in calls ++ drop_run run
task boxed (returns r) cs =
    let (run, calls) = start boxed cs in
    let (taken, calls') = drain run in calls ++ calls' ++ fire taken (done_of r)

-- `Spawned::join`.
pub join {κ} : {A Q : Type κ} → (Option A → ℕ) → (Q → Error) → Fate A Q → Join
join boxed fatal_of (refused reason) = error (any (boxed (some reason)))
join boxed fatal_of (unwinds payload) = panic (fatal_of payload)
join boxed fatal_of (returns (ok u)) = clean
join boxed fatal_of (returns (err e)) = error e

-- `BundleJoin::errors`.
pub errors : List Join → List Error
errors [] = []
errors (clean ∷ js) = errors js
errors (Join.error e ∷ js) = e ∷ errors js
errors (Join.panic e ∷ js) = e ∷ errors js

-- A thread's `on_done` callback: a client's, or the one that `inject` adds.
pub data OnDone {ℓ} (U : Type ℓ) : Type ℓ where
  client : U → OnDone U
  first_error : OnDone U

-- thread/bundle/first_error.rs: `inject` on the threads of a bundle, each its callbacks and a body.
pub inject {ℓ κ μ} :
    {U : Type ℓ} {F : Type κ} {X : Type μ} → List F → List (List U × X) → List (List (OnDone U) × X)
inject [] threads = map (λ (cs, x). (map client cs, x)) threads
inject (c ∷ hooks) threads = map (λ (cs, x). (map client cs ++ first_error ∷ [], x)) threads

-- The injected callback, on the slot that all of them share: on a failure it takes all.
pub on_failure {ℓ} : {F : Type ℓ} → Option Failure → List F → List (F × Failure) × List F
on_failure none slot = ([], slot)
on_failure (some failure) slot = (map (λ c. (c, failure)) slot, [])

-- What the calls of a thread's callbacks do to the slot.
pub called {ℓ κ} :
    {U : Type ℓ} {F : Type κ} → List (OnDone U × Done) → List F → List (F × Failure) × List F
unfolding on_failure
called [] slot = ([], slot)
called ((client u, done) ∷ calls) slot = called calls slot
called ((first_error, done) ∷ calls) slot =
    let (fired, slot') = on_failure (from_done done) slot in
    let (more, slot'') = called calls slot' in (fired ++ more, slot'')

-- The threads of a bundle exit, in this order, each with its callbacks and its fate.
pub exits {ℓ κ μ} :
    {U : Type ℓ} {F : Type κ} {A Q : Type μ}
    → (Option A → ℕ)
    → List (List (OnDone U) × Fate A Q)
    → List F
    → List (F × Failure)
unfolding task called
exits boxed [] slot = []
exits boxed ((callbacks, fate) ∷ threads) slot =
    let (fired, slot') = called (task boxed fate callbacks) slot in
    fired ++ exits boxed threads slot'
