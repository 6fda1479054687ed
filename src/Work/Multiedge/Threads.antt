-- ===== src/Work/Multiedge/Threads.antt =====
-- A thread that waits on several waking edges, and any number of producers at them: one critical
-- section, wake, notification or spurious wakeup after another.
pub mod Keeps
pub mod Wakes
mod Tests
use areamy.Common.{
  ℕ, zero, suc, ◌+◌, ◌-◌, ltb, if◌then◌else◌, Bool, true, false, Option, none, some, List, [], ◌∷◌,
  map, get_elem?, set,
}
use areamy.Error.{Result, ok, err}
use areamy.Edge.Sync.{Shared, Sender, Blocking, done, parked, state}
use areamy.Edge.Waking
use areamy.Wake.Parker.Threads.{Thread, running, asleep, roused, parks, turns, wakes_once}
use areamy.Wake.Parker.Threads
use areamy.Work.Multiedge.{looked, Wait, scanned}
use areamy.Work.Multiedge

-- Where `wait_any` is: it is to read the state of this edge, with an edge idle before it or not; it
-- is in `park`; or it returned.
pub data Waiter : Type 0 where
  scanning : ℕ → Bool → Waiter
  parking : Waiter
  returned : Result (Unit {0}) → Waiter

pub record World {ℓ} (M : Type ℓ) : Type ℓ where
  pub edges : List (Shared M)
  pub parker : Threads.World
  pub waiter : Waiter
  pub to_wake : ℕ  -- producers between their critical section and their wake

-- A producer's call is at the edge with this number.
pub data Action {ℓ} (M : Type ℓ) : Type ℓ where
  goes_on : Action M
  try_pushes pushes : ℕ → Sender → M → Action M
  pushes_woken : ℕ → M → Action M
  closes : ℕ → Sender → Action M
  wakes notified spurious : Action M

-- Back from the parker: asleep, or round again.
abbrev pub resumed : Thread → Waiter
resumed running = scanning 0 false
resumed asleep = parking
resumed roused = parking

module _ {ℓ} {M : Type ℓ} where
  in_park : World M → Threads.Action → World M
  in_park w a = let p = Threads.act w.parker a in record w { parker = p; waiter = resumed p.thread }

  end_scan : World M → Wait → World M
  unfolding in_park
  end_scan w Multiedge.parks = in_park w (parks false)
  end_scan w (Multiedge.ends r) = record w { waiter = returned r }

  see : World M → ℕ → Option Bool → World M
  see w k none = record w { waiter = returned (ok tt) }
  see w k (some idle) = record w { waiter = scanning (suc k) idle }

  -- One step of the waiting thread.
  step : World M → Waiter → World M
  unfolding end_scan see in_park
  step w (scanning k idle) = elim (get_elem? w.edges k) [
    | none ↦ end_scan w (scanned idle)
    | some s ↦ see w k (looked idle (state s))
  ]
  step w parking = in_park w (turns false)
  step w (returned r) = w

  -- A producer left the edge like this, and is to wake the consumer or not.
  leave : World M → ℕ → Shared M → Bool → World M
  leave w k s wakes_it = record w {
    edges = set w.edges k s;
    to_wake = if wakes_it then w.to_wake + 1 else w.to_wake;
  }

  leave_blocking : World M → ℕ → Blocking (Result (Unit {0})) M × Bool → World M
  unfolding leave
  leave_blocking w k (done r s ns, wakes_it) = leave w k s wakes_it
  leave_blocking w k (parked s, wakes_it) = leave w k s wakes_it

  at_edge : World M → ℕ → (Shared M → World M) → World M
  at_edge w k call = elim (get_elem? w.edges k) [ none ↦ w | some s ↦ call s ]

  pub act : World M → Action M → World M
  unfolding step leave leave_blocking at_edge
  act w goes_on = step w w.waiter
  act w (try_pushes k h m) =
      at_edge w k (λ s. let (x, wakes_it) = Waking.try_push s h m in leave w k (x.1) wakes_it)
  act w (pushes k h m) = at_edge w k (λ s. leave_blocking w k (Waking.push_back s h m))
  act w (pushes_woken k m) = at_edge w k (λ s. leave_blocking w k (Waking.push_back_woken s m))
  act w (closes k h) =
      at_edge w k (λ s. let (x, wakes_it) = Waking.close s h in leave w k (x.0) wakes_it)
  act w wakes =
      if ltb 0 w.to_wake
      then record w { to_wake = w.to_wake - 1; parker = Threads.act w.parker wakes_once }
      else w
  act w notified = record w { parker = Threads.act w.parker Threads.notified }
  act w spurious = record w { parker = Threads.act w.parker Threads.spurious }

  pub perform : World M → List (Action M) → World M
  unfolding act
  perform w [] = w
  perform w (a ∷ as') = perform (act w a) as'

  -- `wait_any` begins, on any edges, with a new parker.
  pub start : List (Shared M) → World M
  start edges = record {
    edges = edges;
    parker = Threads.new;
    waiter = scanning 0 false;
    to_wake = 0;
  }
