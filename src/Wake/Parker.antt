-- ===== src/Wake/Parker.antt =====
-- wake/parker.rs: a token that one thread sleeps on.
--
-- `sleep` is its part up to the first wait and then, each time the thread wakes, `turn`; each is
-- one critical section, and so is `wake`, whose notification follows outside the lock. Whether the
-- deadline has passed is read from the clock, so it is an argument: without a deadline it is false.
pub mod Threads
use areamy.Common.{Bool, true, false, if◌then◌else◌}

pub record State : Type 0 where
  pub woken : Bool
  pub parked : Bool

-- How a critical section of the parking thread ends.
pub data Park : Type 0 where
  returned timed_out waits : Park

-- A turn of the loop.
unfoldable pub turn : Bool → State → Park × State
turn expired s =
    if s.woken
    then (returned, record s { woken = false })
    else if expired
    then (timed_out, record s { parked = false })
    else (waits, s)

unfoldable pub sleep : Bool → State → Park × State
unfolding turn
sleep expired s =
    if s.woken
    then (returned, record s { woken = false })
    else turn expired (record s { parked = true })

-- `wake_by_ref`: whether it notifies the parked thread.
unfoldable pub wake : State → Bool × State
wake s = (s.parked, record { woken = true; parked = false })
