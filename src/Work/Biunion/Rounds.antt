-- ===== src/Work/Biunion/Rounds.antt =====
-- Rounds of a node with two inputs: its outputs take a merge of what came on the two sides.
use areamy.Common.{ℕ, none, List, [], ◌≡◌, refl, ◌⊎◌, inl, map}
use areamy.Error.{Op}
use areamy.Message.{Message}
use areamy.Graph.{TryPushable, Pushable, Closeable}
use areamy.Edge.Fanout.Delivery.{Answers, Takes}
use areamy.Work.Node.Round.{WorkNode, rounds_of}
use areamy.Work.Node.Round.Keeps.{Rounded, rounds_of-Rounded, search_loop-Search}
use areamy.Work.Biunion.{BiunionRoutine, Inlets, Search, turn, next_message, work}
use areamy.Work.Biunion.Merge.{BothGrow, BiunionLaws, InletsLaws, Merged-start}
use areamy.Work.Biunion.Turns.{Holds, turn-Turned}

module _ {ℓ} {R W D E Out S X F : Type ℓ} (r : BiunionRoutine R D E Out)
    (i : Inlets X (Message D S) (Message E S)) (work_parent : W → Op X (Unit {0}))
    (clone : Message Out S → Message Out S) (t : TryPushable F (Message Out S))
    (p : Pushable F (Message Out S)) (c : Closeable F) (taken : R → List (D ⊎ E))
    (owes : R → List Out) (left_waiting : X → List (Message D S))
    (right_waiting : X → List (Message E S)) (log : F → List (Message Out S))
    (laws : BiunionLaws taken owes r) (inlets_laws : InletsLaws left_waiting right_waiting i)
    (grows : (w : W) (x : X) → BothGrow left_waiting right_waiting x (work_parent w x).1)
    (law : (e : F) (m : Message Out S) → Answers log e m (t.try_push e m))
    (p_law : (e : F) (m : Message Out S) → Takes log e m (p.push e m)) where
  -- A node with nothing held on its outputs, after any rounds of `work` that do not fail, whatever
  -- parents and other threads push meanwhile. Every output took the same messages, in order, but that
  -- the last may be held for some of them. The node read a merge of its two inputs: of each side what
  -- came on it, in order, and all but what still waits there. The routine took the data of the merge
  -- in its order; and what the node put out, what the routine is to put out and the pending signal
  -- are in this order what they were before and behind it what came since, and the signals among them
  -- are those of before and behind them those of the merge, in its order.
  pub rounds-Merged :
      (turns : List ℕ) (n : WorkNode (Search R W (Message Out S) X) F (Message Out S))
      → n.outputs.suspended ≡ none
      → Rounded
          (Holds taken owes left_waiting right_waiting n.search.routine n.search.pending
            n.search.world)
          clone
          log
          (map log n.outputs.edges)
          (rounds_of (work r i work_parent clone t p c) turns n)
  unfolding work next_message
  rounds-Merged turns n e =
      rounds_of-Rounded _ clone log _ t p c law p_law (next_message r i work_parent)
        (λ k sent s h.
          search_loop-Search _ _ (turn r i work_parent)
            (turn-Turned taken owes left_waiting right_waiting n.search.routine n.search.pending
              n.search.world r i work_parent laws inlets_laws grows sent)
            k s h)
        turns n
        (record {
          sent = [];
          carried = inl (e, refl);
          holds =
              Merged-start taken owes left_waiting right_waiting n.search.routine n.search.pending
                n.search.world;
        })
