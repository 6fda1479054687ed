-- ===== src/Poll/Node.antt =====
-- node/poll/ (drive.rs, emit.rs, feed.rs, state.rs) and node/line/poll/node/: a poll node as three
-- phases over one state.
--
-- The routine, the input edge and the output are the node's parameters, as records of operations.
-- A node keeps a log of the phases that it woke; a routine wakes phases too, by wakers of its own,
-- which is its own business. Both budgets are positive in the source; nothing here needs it.
pub mod Drive
pub mod Emit
pub mod Feed
pub mod Line
pub mod Biunion
pub mod Move
use Prim.Native.String.{String}
use areamy.Common.{
  ℕ, zero, suc, Bool, true, false, Option, none, some, List, [], ◌∷◌, ◌++◌, if◌then◌else◌,
}
use areamy.Error.{
  Error, fatal, any, closed, is_closed, Result, ok, err, and_then, Op, ◌>>=◌, ◌>>◌, pure, fail,
}
use areamy.Message.{Message, data', flush, marker}
use areamy.Edge.Fanout.{Rotation, complete, at}

-- node/poll/state.rs
pub data NodeState {ℓ} (S : Type ℓ) : Type ℓ where
  running : NodeState S
  flushing : S → NodeState S
  flush_ready : S → NodeState S
  marker_ready : S → NodeState S
  forwarding : NodeState S
  close_ready : NodeState S
  is_shut : NodeState S  -- `Closed`

pub data Phase : Type 0 where
  input work output : Phase

-- `core::task::Poll<()>`
pub data Polled : Type 0 where
  ready pending : Polled

-- node/routine.rs
pub data Accept {ℓ} (D : Type ℓ) : Type ℓ where
  accepted : Accept D
  full : D → Accept D

pub record LineRoutine {ℓ} (R D Out : Type ℓ) : Type ℓ where
  pub try_send : R → D → Result (Accept D) × R
  pub next : R → Result (Option Out) × R
  pub flush : R → Result (Unit {0}) × R
  pub poll : R → Result Polled × R

pub record Receivable {ℓ} (I M : Type ℓ) : Type ℓ where
  pub try_recv : I → Result (Option M) × I

-- edge/rotate.rs
pub record Rotate {ℓ} (O M : Type ℓ) : Type ℓ where
  pub retry : O → Result Rotation × O
  pub rotate : O → M → Result Rotation × O
  pub close : O → Result (Unit {0}) × O

-- `SharedState`, with the message that the Input phase holds.
pub record Node {ℓ} (I R O D S : Type ℓ) : Type ℓ where
  pub inlet : I
  pub is_open : Bool
  pub routine : R
  pub outlet : O
  pub state : NodeState S
  pub budget_input : ℕ
  pub budget_output : ℕ
  pub held : Option D
  pub woken : List Phase

-- A routine must handle `Closed`, so one that it returns becomes fatal.
abbrev pub not_closed : String → Error → Error
not_closed message (fatal m) = fatal m
not_closed message (any e) = any e
not_closed message closed = fatal message

abbrev pub recolour {ℓ κ} : {A : Type ℓ} {N : Type κ} → String → Result A × N → Result A × N
recolour message (ok a, n) = (ok a, n)
recolour message (err e, n) = (err (not_closed message e), n)

pub out-recolour {ℓ κ ℓp} :
    {A : Type ℓ} {N : Type κ} (P : N → Type ℓp) (message : String) (x : Result A × N)
    → P x.1
    → P (recolour message x).1
out-recolour P message (ok a, n) h = h
out-recolour P message (err e, n) h = h

module _ {ℓ} {I R O D S : Type ℓ} where
  unfoldable pub wake : Phase → Op (Node I R O D S) (Unit {0})
  wake p n = (ok tt, record n { woken = n.woken ++ p ∷ [] })

  unfoldable pub become : NodeState S → Op (Node I R O D S) (Unit {0})
  become s n = (ok tt, record n { state = s })

  abbrev pub of_routine {κ} : {A : Type κ} → (R → Result A × R) → Op (Node I R O D S) A
  of_routine f n = let (r, routine) = f n.routine in (r, record n { routine = routine })

  abbrev pub of_outlet {κ} : {A : Type κ} → (O → Result A × O) → Op (Node I R O D S) A
  of_outlet f n = let (r, outlet) = f n.outlet in (r, record n { outlet = outlet })

  -- `Err(e) if e.is_closed() => Err(fatal!(..))` after a routine's call.
  abbrev pub guarded {κ} : {A : Type κ} → String → Op (Node I R O D S) A → Op (Node I R O D S) A
  guarded message f n = recolour message (f n)
