-- ===== src/Poll/Node/Biunion/Closes.antt =====
-- When a node with two inputs ends.
use areamy.Common.{false, List, [], ◌∷◌, ◌≡◌}
use areamy.Message.{Message}
use areamy.Poll.Node.{close_ready, Receivable, Rotate, Node}
use areamy.Poll.Node.Move.{Move}
use areamy.Poll.Node.Biunion.{BiunionRoutine, BiPhase, BiNode, poll_phase}

module _ {ℓ} {S : Type ℓ} where
  -- A node that is ready to close has no open input.
  abbrev pub Done : {I J R O D E : Type ℓ} → BiNode I J R O D E S → Type ℓ
  Done n = n.state ≡ close_ready → (n.left_open ≡ false) × (n.right_open ≡ false)

module _ {ℓ} {I J R O D E Out S : Type ℓ} (r : BiunionRoutine R D E Out)
    (i : Receivable I (Message D S)) (j : Receivable J (Message E S))
    (o : Rotate O (Message Out S)) where
  pub polls : List BiPhase → BiNode I J R O D E S → BiNode I J R O D E S
  polls [] n = n
  polls (p ∷ ps) n = polls ps (poll_phase r i j o p n).1
