-- ===== src/Work/Bifurcation/Rounds.antt =====
-- Rounds of a node with two outputs: each side puts out every signal, and what the routine makes for
-- it, in order.
use areamy.Common.{ℕ, Option, none, some, List, [], ◌∷◌, ◌≡◌}
use areamy.Error.{Result, ok, err, Op}
use areamy.Message.{Message}
use areamy.Graph.{TryPushable, Pushable, Closeable}
use areamy.Edge.Fanout.Delivery.{Answers, Takes}
use areamy.Work.Node.{Inlet}
use areamy.Work.Node.Stream.{Grows, InletLaws}
use areamy.Work.Bifurcation.{BifurcationRoutine, Bifurcation, work}
use areamy.Work.Bifurcation.Turns.{BifurcationLaws, BothRun, BothRun-start, Ran, work-Ran}

module _ {ℓ} {R W D L Q S X E F : Type ℓ} (r : BifurcationRoutine R D L Q)
    (i : Inlet X (Message D S)) (work_parent : W → Op X (Unit {0})) (copy : S → S)
    (clone_left : Message L S → Message L S) (clone_right : Message Q S → Message Q S)
    (t : TryPushable E (Message L S)) (p : Pushable E (Message L S)) (c : Closeable E)
    (u : TryPushable F (Message Q S)) (q : Pushable F (Message Q S)) (d : Closeable F) where
  go_on :
      (Bifurcation R W X E F (Message L S) (Message Q S)
        → Option (Result (Unit {0})) × Bifurcation R W X E F (Message L S) (Message Q S))
      → Option (Result (Unit {0})) × Bifurcation R W X E F (Message L S) (Message Q S)
      → Option (Result (Unit {0})) × Bifurcation R W X E F (Message L S) (Message Q S)
  go_on onward (some (ok a), n) = onward n
  go_on onward (none, n) = (none, n)
  go_on onward (some (err e), n) = (some (err e), n)

  -- Rounds of `work`, each with its turns, until one fails or goes on.
  unfoldable pub rounds :
      List (ℕ × ℕ)
      → Bifurcation R W X E F (Message L S) (Message Q S)
      → Option (Result (Unit {0})) × Bifurcation R W X E F (Message L S) (Message Q S)
  unfolding go_on
  rounds [] n = (some (ok tt), n)
  rounds ((turns, inputs) ∷ more) n =
      go_on (rounds more)
        (work r i work_parent copy clone_left clone_right t p c u q d turns inputs n)

  module _ (left_owes : R → List L) (right_owes : R → List Q) (left_log : E → List (Message L S))
      (right_log : F → List (Message Q S)) (waiting : X → List (Message D S))
      (laws : BifurcationLaws left_owes right_owes r) (inlet_laws : InletLaws waiting i)
      (grows : (w : W) (x : X) → Grows waiting x (work_parent w x).1)
      (copies : (o : S) → copy o ≡ o)
      (law : (e : E) (m : Message L S) → Answers left_log e m (t.try_push e m))
      (p_law : (e : E) (m : Message L S) → Takes left_log e m (p.push e m))
      (u_law : (f : F) (m : Message Q S) → Answers right_log f m (u.try_push f m))
      (q_law : (f : F) (m : Message Q S) → Takes right_log f m (q.push f m))
      (n : Bifurcation R W X E F (Message L S) (Message Q S)) where
    go_on-Ran :
        (onward : Bifurcation R W X E F (Message L S) (Message Q S)
          → Option (Result (Unit {0})) × Bifurcation R W X E F (Message L S) (Message Q S))
        (x : Option (Result (Unit {0})) × Bifurcation R W X E F (Message L S) (Message Q S))
        → Ran left_owes right_owes clone_left clone_right left_log right_log waiting n x
        → ((n' : Bifurcation R W X E F (Message L S) (Message Q S))
            → BothRun left_owes right_owes clone_left clone_right left_log right_log waiting n n'
            → Ran left_owes right_owes clone_left clone_right left_log right_log waiting n
                (onward n'))
        → Ran left_owes right_owes clone_left clone_right left_log right_log waiting n
            (go_on onward x)
    unfolding go_on
    go_on-Ran onward (some (ok a), n') b on = on n' b
    go_on-Ran onward (none, n') b on = b
    go_on-Ran onward (some (err e), n') b on = tt

    rounds-from :
        (turns : List (ℕ × ℕ)) (n' : Bifurcation R W X E F (Message L S) (Message Q S))
        → BothRun left_owes right_owes clone_left clone_right left_log right_log waiting n n'
        → Ran left_owes right_owes clone_left clone_right left_log right_log waiting n
            (rounds turns n')
    unfolding rounds
    rounds-from [] n' b = b
    rounds-from ((turns, inputs) ∷ more) n' b =
        go_on-Ran (rounds more) _
          (work-Ran left_owes right_owes clone_left clone_right left_log right_log waiting r i
            work_parent copy t p c u q d laws inlet_laws grows copies law p_law u_law q_law n turns
            inputs n' b)
          (rounds-from more)

    -- A node with nothing held on either side, after any rounds of `work` that do not fail, whatever
    -- parents and other threads push meanwhile. On each side every output took the same messages, in
    -- order, but that the last may be held for some of them. These, what the routine is to put out on
    -- that side and its pending signal are in this order what they were before, and behind it what
    -- came since. And the signals among them, with those on the input edge, are those that were there
    -- or on the edge before, in order, and behind them those that came meanwhile: every signal goes to
    -- both sides, once.
    pub rounds-Ran :
        (turns : List (ℕ × ℕ))
        → n.left_outputs.suspended ≡ none
        → n.right_outputs.suspended ≡ none
        → Ran left_owes right_owes clone_left clone_right left_log right_log waiting n
            (rounds turns n)
    rounds-Ran turns e f =
        rounds-from turns n (
          BothRun-start left_owes right_owes clone_left clone_right left_log right_log waiting n e
            f)
