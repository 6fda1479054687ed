-- ===== src/Poll/Node/Move.antt =====
-- node/poll/state.rs: how the phases of a node with one input move its state, and whom they wake.
use areamy.Common.{List, [], ◌∷◌, ◌++◌, ◌≡◌, append-nil}
use areamy.Poll.Node.{
  NodeState, running, flushing, flush_ready, marker_ready, forwarding, close_ready, is_shut, Phase,
  input, work, output, Node,
}

module _ {ℓ} {S : Type ℓ} where
  -- `Move p s s' ws`: a poll of the phase `p` may take `s` to `s'`, and wakes `ws` if it does.
  pub data Move : Phase → NodeState S → NodeState S → List Phase → Type ℓ where
    rest : (p : Phase) (s : NodeState S) → Move p s s []
    feed_more : Move input running running (input ∷ [])
    take_flush : (x : S) → Move input running (flushing x) (work ∷ [])
    take_marker : (x : S) → Move input running (marker_ready x) (work ∷ [])
    take_close : Move input running close_ready (work ∷ output ∷ [])
    end_flush : (x : S) → Move work (flushing x) (flush_ready x) (output ∷ [])
    pass_marker : (x : S) → Move work (marker_ready x) (marker_ready x) (output ∷ [])
    emit_more : (s : NodeState S) → Move output s s (output ∷ [])
    park_flush : (x : S) → Move output (flush_ready x) forwarding []
    park_marker : (x : S) → Move output (marker_ready x) forwarding []
    send_flush : (x : S) → Move output (flush_ready x) running (input ∷ work ∷ [])
    send_marker : (x : S) → Move output (marker_ready x) running (input ∷ work ∷ [])
    resume : Move output forwarding running (input ∷ work ∷ [])
    shut : (s : NodeState S) → Move output s is_shut (input ∷ work ∷ [])

  -- The node `n'` that a poll of `p` leaves of one in the state `s` that had woken `before`.
  abbrev pub Moved : {I R O D : Type ℓ} → Phase → NodeState S → List Phase → Node I R O D S → Type ℓ
  Moved p s before n = (ws : List Phase) × (n.woken ≡ before ++ ws) × Move p s n.state ws

  pub rest-Moved :
      {I R O D : Type ℓ} (p : Phase) (s : NodeState S) (before : List Phase) (n : Node I R O D S)
      → n.state ≡ s
      → n.woken ≡ before
      → Moved p s before n
  rest-Moved p s before n h w = ([], rw (w, append-nil before), rw h (rest p s))
