-- ===== src/Poll/Node/Line/Moves.antt =====
-- node/line/poll/node/: every move of a node's state, and the phases that it wakes.
use areamy.Common.{Bool, false, List, [], ◌∷◌, ◌++◌, ◌≡◌, refl, ◌∙◌, append-nil, append_assoc}
use areamy.Error.{Result, ok, err, and_then}
use areamy.Message.{Message}
use areamy.Poll.Node.{
  NodeState, running, flushing, flush_ready, marker_ready, forwarding, close_ready, is_shut, Phase,
  input, work, output, LineRoutine, Receivable, Rotate, Node, wake,
}
use areamy.Poll.Node.Move.{
  Move, rest, emit_more, shut as shut_move, feed_more, take_flush, take_marker, take_close, Moved,
  rest-Moved,
}
use areamy.Poll.Node.Feed.Step.{Feeds, still, more, flushed, marked, ended, Ends, feed-Ends}
use areamy.Poll.Node.Drive.Step.{drive-Moved}
use areamy.Poll.Node.Emit.Step.{emit-Moved}
use areamy.Poll.Node.Line.{after_feed, input_in, poll}

module _ {ℓ} {I R O D Out S : Type ℓ} (r : LineRoutine R D Out) (i : Receivable I (Message D S))
    (o : Rotate O (Message Out S)) where
  Fed-Moved :
      (before : List Phase) (n : Node I R O D S) (others is_open : Bool) (s : NodeState S)
      (ws : List Phase)
      → n.state ≡ s
      → n.woken ≡ before ++ ws
      → Feeds others is_open s ws
      → Moved input running before (after_feed r i o s n).1
  unfolding after_feed wake
  Fed-Moved before n _ _ _ _ h w (still _ _) =
      rest-Moved input running before n h (w ∙ append-nil before)
  Fed-Moved before n _ _ _ _ h w (more _ _) = (input ∷ [], w, rw h feed_more)
  Fed-Moved before n _ _ _ _ h w (flushed _ _ x) = (work ∷ [], w, rw h (take_flush x))
  Fed-Moved before n _ _ _ _ h w (marked _ _ x) = (work ∷ [], w, rw h (take_marker x))
  Fed-Moved before n _ _ _ _ h w ended =
      (work ∷ output ∷ [], rw (w, append_assoc before (work ∷ []) (output ∷ [])), rw h take_close)

  Ends-Moved :
      (before : List Phase) (x : Result (Unit {0}) × Node I R O D S)
      → Ends r i false before x
      → Moved input running before (and_then x (λ _ n. after_feed r i o n.state n)).1
  Ends-Moved before (ok u, n) (ws, w, f) = Fed-Moved before n _ _ n.state ws refl w f
  Ends-Moved before (err e, n) h = rest-Moved input running before n h.0 h.1

  input_in-Moved :
      (s : NodeState S) (n : Node I R O D S)
      → n.state ≡ s
      → Moved input s n.woken (input_in r i o s n).1
  unfolding input_in
  input_in-Moved running n h = Ends-Moved n.woken _ (feed-Ends r i false n h)
  input_in-Moved (flushing x) n h = rest-Moved input (flushing x) n.woken n h refl
  input_in-Moved (flush_ready x) n h = rest-Moved input (flush_ready x) n.woken n h refl
  input_in-Moved (marker_ready x) n h = rest-Moved input (marker_ready x) n.woken n h refl
  input_in-Moved forwarding n h = rest-Moved input forwarding n.woken n h refl
  input_in-Moved close_ready n h = rest-Moved input close_ready n.woken n h refl
  input_in-Moved is_shut n h = rest-Moved input is_shut n.woken n h refl

  -- Every poll of a phase, whatever the routine and the edges answer, moves the state as `Move`
  -- says and wakes exactly the phases that it names.
  pub poll-Moved : (p : Phase) (n : Node I R O D S) → Moved p n.state n.woken (poll r i o p n).1
  unfolding poll
  poll-Moved input n = input_in-Moved n.state n refl
  poll-Moved work n = drive-Moved r n
  poll-Moved output n = emit-Moved r o n

  -- `Moved` by polls in any order.
  polls : List Phase → Node I R O D S → Node I R O D S
  polls [] n = n
  polls (p ∷ ps) n = polls ps (poll r i o p n).1

  stays_shut : (p : Phase) (s : NodeState S) (ws : List Phase) → Move p is_shut s ws → s ≡ is_shut
  stays_shut p _ _ (rest _ _) = refl
  stays_shut p _ _ (emit_more _) = refl
  stays_shut p _ _ (shut_move _) = refl

  -- A node that is closed stays closed, whatever is polled.
  polls-is_shut :
      (ps : List Phase) (n : Node I R O D S) → n.state ≡ is_shut → (polls ps n).state ≡ is_shut
  unfolding polls
  polls-is_shut [] n h = h
  polls-is_shut (p ∷ ps) n h =
      let (ws, w, m) = poll-Moved p n in
      polls-is_shut ps (poll r i o p n).1 (stays_shut p _ ws (rw (← h) m))
