-- ===== src/Poll/Node/Biunion/Tests.antt =====
-- A node that takes numbers on its left and flags on its right, over edges that are lists.
use areamy.Common.{ℕ, Bool, true, false, Option, none, some, List, [], ◌∷◌, ◌++◌, ◌≡◌, refl}
use areamy.Error.{closed, Result, ok, err}
use areamy.Message.{Message, data', flush}
use areamy.Edge.Fanout.{complete}
use areamy.Poll.Node.{running, flushing, pending, Accept, accepted, full, Receivable, Rotate}
use areamy.Poll.Node.Feed.{feed}
use areamy.Poll.Node.Biunion.{BiunionRoutine, left, right, input_of, BiNode, poll_phase}
use areamy.Poll.Node.Biunion.Moves.{BiMoved, poll_phase-BiMoved}

abbrev next_of : List ℕ → Result (Option ℕ) × List ℕ
next_of [] = (ok none, [])
next_of (x ∷ q) = (ok (some x), q)

-- Numbers go out as they come; a flag is refused unless it is set, and goes out as 1.
abbrev flagged : List ℕ → Bool → Result (Accept Bool) × List ℕ
flagged q true = (ok accepted, q ++ 1 ∷ [])
flagged q false = (ok (full false), q)

abbrev merging : BiunionRoutine (List ℕ) ℕ Bool ℕ
merging = record {
  try_send_left = λ q d. (ok accepted, q ++ d ∷ []);
  try_send_right = flagged;
  next = next_of;
  flush = λ q. (ok tt, q);
  poll = λ q. (ok pending, q);
}

abbrev recv : {D : Type 0} → List (Message D ℕ) → Result (Option (Message D ℕ)) × List (Message D ℕ)
recv [] = (err closed, [])
recv (m ∷ ms) = (ok (some m), ms)

abbrev list_inlet : {D : Type 0} → Receivable (List (Message D ℕ)) (Message D ℕ)
list_inlet = record { try_recv = recv }

abbrev list_outlet : Rotate (List (Message ℕ ℕ)) (Message ℕ ℕ)
list_outlet = record {
  retry = λ o. (ok complete, o);
  rotate = λ o m. (ok complete, o ++ m ∷ []);
  close = λ o. (ok tt, o);
}

abbrev merger :
    BiNode (List (Message ℕ ℕ)) (List (Message Bool ℕ)) (List ℕ) (List (Message ℕ ℕ)) ℕ Bool ℕ
merger = record {
  left_inlet = data' 4 ∷ flush 7 ∷ [];
  right_inlet = [];
  left_open = true;
  right_open = true;
  left_held = none;
  right_held = none;
  routine = [];
  outlet = [];
  state = running;
  budget_input = 8;
  budget_output = 8;
  woken = [];
}

-- The flush on the left ends the drain; the close of the right alone does not end the node.
flushes_left :
    (poll_phase merging list_inlet list_inlet list_outlet (input_of left) merger).1.state
    ≡ flushing 7
unfolding poll_phase feed
flushes_left = refl

right_stays :
    (poll_phase merging list_inlet list_inlet list_outlet (input_of right) merger).1.state ≡ running
unfolding poll_phase feed
right_stays = refl

poll_phase-BiMoved_example :
    BiMoved
      (input_of left)
      running
      []
      (poll_phase merging list_inlet list_inlet list_outlet (input_of left) merger).1
poll_phase-BiMoved_example =
    poll_phase-BiMoved merging list_inlet list_inlet list_outlet (input_of left) merger
