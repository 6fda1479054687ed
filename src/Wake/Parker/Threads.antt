-- ===== src/Wake/Parker/Threads.antt =====
-- The parking thread and any number of wakers, one critical section, notification or spurious
-- wakeup after another.
pub mod Token
mod Tests
use areamy.Common.{
  ℕ, zero, suc, ◌+◌, ◌-◌, ◌≤◌, ◌≡◌, refl, ◌⊎◌, inl, inr, Bool, true, false, List, [], ◌∷◌, arith,
  ltb, if◌then◌else◌,
}
use areamy.Wake.Parker.{State, Park, returned, timed_out, waits, turn, sleep, wake}

pub data Thread : Type 0 where
  running asleep roused : Thread

pub record World : Type 0 where
  pub state : State
  pub open state use *
  pub thread : Thread
  pub under_way : ℕ  -- notifications that have not reached the condition variable
  pub wakes : ℕ  -- wakes so far
  pub returns : ℕ  -- parks that returned before their deadline

pub data Action : Type 0 where
  parks turns : Bool → Action
  wakes_once notified spurious : Action

unfoldable pub after : World → Park × State → World
after w (returned, s) = record w { state = s; thread = running; returns = w.returns + 1 }
after w (timed_out, s) = record w { state = s; thread = running }
after w (waits, s) = record w { state = s; thread = asleep }

abbrev stir : Thread → Thread
stir asleep = roused
stir running = running
stir roused = roused

unfoldable pub act : World → Action → World
unfolding after turn sleep wake
act w (parks expired) = elim w.thread [
  | running ↦ after w (sleep expired w.state)
  | asleep ↦ w
  | roused ↦ w
]
act w (turns expired) = elim w.thread [
  | roused ↦ after w (turn expired w.state)
  | asleep ↦ w
  | running ↦ w
]
act w wakes_once =
    let (notifies, s) = wake w.state in
    record w {
      state = s;
      under_way = if notifies then w.under_way + 1 else w.under_way;
      wakes = w.wakes + 1;
    }
act w notified =
    if ltb 0 w.under_way
    then record w { under_way = w.under_way - 1; thread = stir w.thread }
    else w
act w spurious = record w { thread = stir w.thread }

pub perform : World → List Action → World
unfolding act
perform w [] = w
perform w (a ∷ as') = perform (act w a) as'

unfoldable pub new : World
new = record {
  state = record { woken = false; parked = false };
  thread = running;
  under_way = 0;
  wakes = 0;
  returns = 0;
}

abbrev pub bit : Bool → ℕ
bit true = 1
bit false = 0

pub record Inv (w : World) : Type 0 where
  pub sleeper : w.thread ≡ asleep → ((w.woken ≡ false) × (w.parked ≡ true)) ⊎ (1 ≤ w.under_way)
  pub waiting : (w.thread ≡ running) ⊎ ((w.woken ≡ true) ⊎ (w.parked ≡ true))
  pub paid : w.returns + bit w.woken ≤ w.wakes

pub act-Inv : (w : World) (a : Action) → Inv w → Inv (act w a)
unfolding act after turn sleep wake
act-Inv w a i = record {
  sleeper = λ e. ground (arith, i.sleeper, i.waiting);
  waiting = ground (arith, i.waiting);
  paid = ground (arith, i.paid);
}

perform-Inv : (w : World) (as' : List Action) → Inv w → Inv (perform w as')
unfolding perform
perform-Inv w [] i = i
perform-Inv w (a ∷ as') i = perform-Inv (act w a) as' (act-Inv w a i)

pub new-Inv : Inv new
unfolding new
new-Inv = record { sleeper = λ x. ground (arith, x); waiting = inl refl; paid = omega arith }

-- After any schedule: a thread that sleeps with no notification under way has not been woken since
-- it parked, and the next wake notifies it.
pub asleep-unwoken :
    (as' : List Action)
    → (perform new as').thread ≡ asleep
    → (perform new as').under_way ≡ 0
    → ((perform new as').woken ≡ false) × (((wake (perform new as').state).0) ≡ true)
unfolding new wake
asleep-unwoken as' e none = ground (arith, (perform-Inv new as' new-Inv).sleeper)

-- After any schedule: no more parks returned before their deadline than there were wakes.
pub returns-le : (as' : List Action) → (perform new as').returns ≤ (perform new as').wakes
unfolding new
returns-le as' = ground (arith, (perform-Inv new as' new-Inv).paid)
