-- ===== src/Work/Multiedge.antt =====
-- work/multiedge.rs: `wait_any`, by which one thread waits on several edges.
--
-- The state of each edge is read in a critical section of its own, one after another; then the thread
-- parks on the token that all the edges' senders wake.
pub mod Survey
pub mod Threads
use areamy.Common.{Bool, true, false, Option, none, some}
use areamy.Error.{closed, Result, ok, err}
use areamy.Edge.Sync.{State, ready, idle, exhausted}

-- `match edge.state()`: `none` returns, and else whether an edge was idle so far.
pub looked : Bool → State → Option Bool
looked idle_seen ready = none
looked idle_seen idle = some true
looked idle_seen exhausted = some idle_seen

-- How `wait_any` goes on.
pub data Wait : Type 0 where
  parks : Wait
  ends : Result (Unit {0}) → Wait

-- At the end of the `for` loop.
pub scanned : Bool → Wait
scanned true = parks
scanned false = ends (err closed)
