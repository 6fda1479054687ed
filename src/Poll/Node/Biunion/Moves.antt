-- ===== src/Poll/Node/Biunion/Moves.antt =====
-- Every move of the state of a node with two inputs, and the phases that it wakes.
use areamy.Common.{Bool, List, [], ◌∷◌, ◌++◌, ◌≡◌, refl, sym, ◌∙◌, ap, append-nil, append_assoc}
use areamy.Error.{Result, ok, err}
use areamy.Message.{Message}
use areamy.Poll.Node.{
  NodeState, running, flushing, flush_ready, marker_ready, forwarding, close_ready, is_shut, Phase,
  work, output, Receivable, Rotate, Node,
}
use areamy.Poll.Node.Move.{Move}
use areamy.Poll.Node.Feed.Step.{Feeds, still, more, flushed, marked, ended, Ends, feed-Ends}
use areamy.Poll.Node.Drive.Step.{drive-Moved}
use areamy.Poll.Node.Emit.Step.{emit-Moved}
use areamy.Poll.Node.Biunion.{
  BiunionRoutine, Side, left, right, other, BiPhase, input_of, works, outputs, BiNode, translate,
  both, left_routine, right_routine, left_view, right_view, of_left, of_right, closing, fed,
  drain_side, input_in, poll_phase,
}

module _ {ℓ} {S : Type ℓ} where
  -- As `Move`, for a poll of a phase of a node with two inputs.
  pub data BiMove : BiPhase → NodeState S → NodeState S → List BiPhase → Type ℓ where
    side_rests : (x : Side) (s : NodeState S) → BiMove (input_of x) s s []
    side_more : (x : Side) → BiMove (input_of x) running running (input_of x ∷ [])
    side_flush :
        (x : Side) (signal : S) → BiMove (input_of x) running (flushing signal) (works ∷ [])
    side_marker :
        (x : Side) (signal : S) → BiMove (input_of x) running (marker_ready signal) (works ∷ [])
    side_closes :
        (x : Side)
        → BiMove (input_of x) running close_ready (works ∷ outputs ∷ input_of (other x) ∷ [])
    work_moves :
        (s s' : NodeState S) (ws : List Phase)
        → Move work s s' ws
        → BiMove works s s' (translate both ws)
    output_moves :
        (s s' : NodeState S) (ws : List Phase)
        → Move output s s' ws
        → BiMove outputs s s' (translate both ws)

  abbrev pub BiMoved :
      {I J R O D E : Type ℓ} → BiPhase → NodeState S → List BiPhase → BiNode I J R O D E S → Type ℓ
  BiMoved p s before n = (ws : List BiPhase) × (n.woken ≡ before ++ ws) × BiMove p s n.state ws

module _ {ℓ} {I J R O D E Out S : Type ℓ} (r : BiunionRoutine R D E Out)
    (i : Receivable I (Message D S)) (j : Receivable J (Message E S))
    (o : Rotate O (Message Out S)) where
  rests :
      (x : Side) (s : NodeState S) (before : List BiPhase) (n : BiNode I J R O D E S)
      → n.state ≡ s
      → n.woken ≡ before
      → BiMoved (input_of x) s before n
  rests x s before n h w = ([], w ∙ sym (append-nil before), rw h (side_rests x s))

  closing-BiMoved :
      (x : Side) (others is_open : Bool) (before : List BiPhase) (s : NodeState S) (ws : List Phase)
      (n : BiNode I J R O D E S)
      → Feeds others is_open s ws
      → n.state ≡ s
      → n.woken ≡ before ++ translate (input_of x ∷ []) ws
      → BiMoved (input_of x) running before (closing x s n).1
  unfolding closing
  closing-BiMoved x _ _ before _ _ n (still _ _) h w =
      rests x running before n h (w ∙ append-nil before)
  closing-BiMoved x _ _ before _ _ n (more _ _) h w = (input_of x ∷ [], w, rw h (side_more x))
  closing-BiMoved x _ _ before _ _ n (flushed _ _ signal) h w =
      (works ∷ [], w, rw h (side_flush x signal))
  closing-BiMoved x _ _ before _ _ n (marked _ _ signal) h w =
      (works ∷ [], w, rw h (side_marker x signal))
  closing-BiMoved x _ _ before _ _ n ended h w = (
    works ∷ outputs ∷ input_of (other x) ∷ [],
    rw (w, append_assoc before (works ∷ []) (outputs ∷ input_of (other x) ∷ [])),
    rw h (side_closes x),
  )

  left-BiMoved :
      (n : BiNode I J R O D E S) (x : Result (Unit {0}) × Node I R O D S)
      → Ends (left_routine r) i n.right_open [] x
      → BiMoved
          (input_of left)
          running
          n.woken
          (fed left (x.0, of_left (input_of left ∷ []) n x.1)).1
  unfolding fed
  left-BiMoved n (ok u, v) (ws, w, f) =
      closing-BiMoved left _ _ n.woken v.state ws (of_left (input_of left ∷ []) n v) f refl (rw w)
  left-BiMoved n (err e, v) (h, w) =
      rests left running n.woken (of_left (input_of left ∷ []) n v) h (rw (w, append-nil n.woken))

  right-BiMoved :
      (n : BiNode I J R O D E S) (x : Result (Unit {0}) × Node J R O E S)
      → Ends (right_routine r) j n.left_open [] x
      → BiMoved
          (input_of right)
          running
          n.woken
          (fed right (x.0, of_right (input_of right ∷ []) n x.1)).1
  unfolding fed
  right-BiMoved n (ok u, v) (ws, w, f) =
      closing-BiMoved right _ _ n.woken v.state ws (of_right (input_of right ∷ []) n v) f refl
        (rw w)
  right-BiMoved n (err e, v) (h, w) =
      rests right running n.woken (of_right (input_of right ∷ []) n v) h
        (rw (w, append-nil n.woken))

  input_in-BiMoved :
      (x : Side) (s : NodeState S) (n : BiNode I J R O D E S)
      → n.state ≡ s
      → BiMoved (input_of x) s n.woken (input_in r i j o x s n).1
  unfolding input_in drain_side
  input_in-BiMoved left running n h =
      left-BiMoved n _ (feed-Ends (left_routine r) i n.right_open (left_view n) h)
  input_in-BiMoved right running n h =
      right-BiMoved n _ (feed-Ends (right_routine r) j n.left_open (right_view n) h)
  input_in-BiMoved x (flushing signal) n h = rests x (flushing signal) n.woken n h refl
  input_in-BiMoved x (flush_ready signal) n h = rests x (flush_ready signal) n.woken n h refl
  input_in-BiMoved x (marker_ready signal) n h = rests x (marker_ready signal) n.woken n h refl
  input_in-BiMoved x forwarding n h = rests x forwarding n.woken n h refl
  input_in-BiMoved x close_ready n h = rests x close_ready n.woken n h refl
  input_in-BiMoved x is_shut n h = rests x is_shut n.woken n h refl

  -- Every poll of a phase of a node with two inputs, whatever the routine and the edges answer, moves
  -- the state as `BiMove` says and wakes exactly the phases that it names.
  pub poll_phase-BiMoved :
      (p : BiPhase) (n : BiNode I J R O D E S)
      → BiMoved p n.state n.woken (poll_phase r i j o p n).1
  unfolding poll_phase
  poll_phase-BiMoved (input_of x) n = input_in-BiMoved x n.state n refl
  poll_phase-BiMoved works n =
      let (ws, w, m) = drive-Moved (left_routine r) (left_view n) in
      (translate both ws, ap (λ l. n.woken ++ translate both l) w, work_moves n.state _ ws m)
  poll_phase-BiMoved outputs n =
      let (ws, w, m) = emit-Moved (left_routine r) o (left_view n) in
      (translate both ws, ap (λ l. n.woken ++ translate both l) w, output_moves n.state _ ws m)
