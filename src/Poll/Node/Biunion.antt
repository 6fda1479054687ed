-- ===== src/Poll/Node/Biunion.antt =====
-- node/biunion/poll/node.rs and node/biunion/poll/node/ (input.rs, work.rs, output.rs): the phases
-- of a node with two inputs. A phase runs on its view of the node, which is a node of one input
-- with an empty log, and what it logged there is put into this node's terms.
pub mod Moves
pub mod Closes
mod Tests
use areamy.Common.{ℕ, Bool, true, false, Option, none, some, List, [], ◌∷◌, ◌++◌}
use areamy.Error.{closed, Result, ok, err, Op}
use areamy.Message.{Message}
use areamy.Poll.Node.{
  NodeState, running, flushing, flush_ready, marker_ready, forwarding, close_ready, is_shut, Phase,
  input, work, output, Polled, pending, Accept, LineRoutine, Receivable, Rotate, Node,
}
use areamy.Poll.Node.Feed.{feed}
use areamy.Poll.Node.Drive.{drive}
use areamy.Poll.Node.Emit.{emit}

-- `BiunionRoutine`: one `TrySend` for each side.
pub record BiunionRoutine {ℓ} (R D E Out : Type ℓ) : Type ℓ where
  pub try_send_left : R → D → Result (Accept D) × R
  pub try_send_right : R → E → Result (Accept E) × R
  pub next : R → Result (Option Out) × R
  pub flush : R → Result (Unit {0}) × R
  pub poll : R → Result Polled × R

pub data Side : Type 0 where
  left right : Side

abbrev pub other : Side → Side
other left = right
other right = left

pub data BiPhase : Type 0 where
  input_of : Side → BiPhase
  works outputs : BiPhase

pub record BiNode {ℓ} (I J R O D E S : Type ℓ) : Type ℓ where
  pub left_inlet : I
  pub right_inlet : J
  pub left_open : Bool
  pub right_open : Bool
  pub left_held : Option D
  pub right_held : Option E
  pub routine : R
  pub outlet : O
  pub state : NodeState S
  pub budget_input : ℕ
  pub budget_output : ℕ
  pub woken : List BiPhase

-- Wakes of the phases of a view; the node's inputs are `inputs`.
abbrev pub translate : List BiPhase → List Phase → List BiPhase
translate inputs [] = []
translate inputs (input ∷ ws) = inputs ++ translate inputs ws
translate inputs (work ∷ ws) = works ∷ translate inputs ws
translate inputs (output ∷ ws) = outputs ∷ translate inputs ws

abbrev pub both : List BiPhase
both = input_of left ∷ input_of right ∷ []

module _ {ℓ} {R D E Out : Type ℓ} where
  abbrev pub left_routine : BiunionRoutine R D E Out → LineRoutine R D Out
  left_routine r = record {
    try_send = r.try_send_left;
    next = r.next;
    flush = r.flush;
    poll = r.poll;
  }

  abbrev pub right_routine : BiunionRoutine R D E Out → LineRoutine R E Out
  right_routine r = record {
    try_send = r.try_send_right;
    next = r.next;
    flush = r.flush;
    poll = r.poll;
  }

module _ {ℓ} {I J R O D E S : Type ℓ} where
  abbrev pub left_view : BiNode I J R O D E S → Node I R O D S
  left_view n = record {
    inlet = n.left_inlet;
    is_open = n.left_open;
    routine = n.routine;
    outlet = n.outlet;
    state = n.state;
    budget_input = n.budget_input;
    budget_output = n.budget_output;
    held = n.left_held;
    woken = [];
  }

  abbrev pub right_view : BiNode I J R O D E S → Node J R O E S
  right_view n = record {
    inlet = n.right_inlet;
    is_open = n.right_open;
    routine = n.routine;
    outlet = n.outlet;
    state = n.state;
    budget_input = n.budget_input;
    budget_output = n.budget_output;
    held = n.right_held;
    woken = [];
  }

  abbrev pub of_left : List BiPhase → BiNode I J R O D E S → Node I R O D S → BiNode I J R O D E S
  of_left inputs n v = record n {
    left_inlet = v.inlet;
    left_open = v.is_open;
    left_held = v.held;
    routine = v.routine;
    outlet = v.outlet;
    state = v.state;
    woken = n.woken ++ translate inputs v.woken;
  }

  abbrev pub of_right : List BiPhase → BiNode I J R O D E S → Node J R O E S → BiNode I J R O D E S
  of_right inputs n v = record n {
    right_inlet = v.inlet;
    right_open = v.is_open;
    right_held = v.held;
    routine = v.routine;
    outlet = v.outlet;
    state = v.state;
    woken = n.woken ++ translate inputs v.woken;
  }

  -- Work and Output see neither inlet.
  abbrev pub of_shared : BiNode I J R O D E S → Node I R O D S → BiNode I J R O D E S
  of_shared n v = record n {
    routine = v.routine;
    outlet = v.outlet;
    state = v.state;
    woken = n.woken ++ translate both v.woken;
  }

  -- The end of `Feeding::drain` and of `Input::poll`: a close wakes Output and the other side.
  closing : Side → NodeState S → BiNode I J R O D E S → Result Polled × BiNode I J R O D E S
  closing x close_ready n =
      (err closed, record n { woken = n.woken ++ outputs ∷ input_of (other x) ∷ [] })
  closing x s n = (ok pending, n)

  fed : Side → Result (Unit {0}) × BiNode I J R O D E S → Result Polled × BiNode I J R O D E S
  unfolding closing
  fed x (ok u, n) = closing x n.state n
  fed x (err e, n) = (err e, n)

module _ {ℓ} {I J R O D E Out S : Type ℓ} (r : BiunionRoutine R D E Out)
    (i : Receivable I (Message D S)) (j : Receivable J (Message E S))
    (o : Rotate O (Message Out S)) where
  -- `Feeding::drain` of either side.
  drain_side : Side → Op (BiNode I J R O D E S) Polled
  unfolding fed
  drain_side left n =
      let (x, v) = feed (left_routine r) i n.right_open (left_view n) in
      fed left (x, of_left (input_of left ∷ []) n v)
  drain_side right n =
      let (x, v) = feed (right_routine r) j n.left_open (right_view n) in
      fed right (x, of_right (input_of right ∷ []) n v)

  -- `Input::poll`
  input_in : Side → NodeState S → Op (BiNode I J R O D E S) Polled
  unfolding drain_side
  input_in x is_shut n = (err closed, n)
  input_in x close_ready n = (err closed, n)
  input_in x running n = drain_side x n
  input_in x s n = (ok pending, n)

  -- `Pollable::poll` of the four phases.
  pub poll_phase : BiPhase → Op (BiNode I J R O D E S) Polled
  unfolding input_in
  poll_phase (input_of x) n = input_in x n.state n
  poll_phase works n = let (x, v) = drive (left_routine r) (left_view n) in (x, of_shared n v)
  poll_phase outputs n = let (x, v) = emit (left_routine r) o (left_view n) in (x, of_shared n v)
