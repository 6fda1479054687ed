-- ===== src/Poll/Node/Drive/Step.antt =====
-- How Work leaves the state and whom it wakes.
use areamy.Common.{List, [], ◌∷◌, ◌≡◌, refl}
use areamy.Error.{out-and_then, Op, ◌>>=◌, ◌>>◌, pure}
use areamy.Poll.Node.{
  NodeState, running, flushing, flush_ready, marker_ready, forwarding, close_ready, is_shut, work,
  output, Phase, Polled, ready, pending, LineRoutine, Node, wake, become, out-recolour,
}
use areamy.Poll.Node.Move.{end_flush, pass_marker, Moved, rest-Moved}
use areamy.Poll.Node.Drive.{poll_routine, premature, flushed, drive_in, drive}

module _ {ℓ} {I R O D Out S : Type ℓ} (r : LineRoutine R D Out) where
  flushed-Moved :
      (x : S) (before : List Phase) (p : Polled) (n : Node I R O D S)
      → n.state ≡ flushing x
      → n.woken ≡ before
      → Moved work (flushing x) before (flushed r x p n).1
  unfolding flushed wake become
  flushed-Moved x before ready n h w = (output ∷ [], rw w, end_flush x)
  flushed-Moved x before pending n h w = rest-Moved work _ before n h w

  idle-Moved :
      (before : List Phase) (p : Polled) (n : Node I R O D S)
      → n.state ≡ running
      → n.woken ≡ before
      → Moved work running before (premature r p (pure pending) n).1
  unfolding premature
  idle-Moved before ready n h w = rest-Moved work _ before n h w
  idle-Moved before pending n h w = rest-Moved work _ before n h w

  marked-Moved :
      (x : S) (before : List Phase) (p : Polled) (n : Node I R O D S)
      → n.state ≡ marker_ready x
      → n.woken ≡ before
      → Moved work (marker_ready x) before (premature r p (do wake output; pure pending) n).1
  unfolding premature wake
  marked-Moved x before ready n h w = rest-Moved work _ before n h w
  marked-Moved x before pending n h w = (output ∷ [], rw w, rw h (pass_marker x))

  -- A poll of the routine leaves the state, and what comes after it decides.
  polled-Moved :
      (s : NodeState S) (n : Node I R O D S) (k : Polled → Op (Node I R O D S) Polled)
      → n.state ≡ s
      → ((p : Polled) (n' : Node I R O D S)
          → n'.state ≡ s
          → n'.woken ≡ n.woken
          → Moved work s n.woken (k p n').1)
      → Moved work s n.woken ((poll_routine r >>= k) n).1
  unfolding poll_routine
  polled-Moved s n k h g =
      out-and_then (λ n'. (n'.state ≡ s) × (n'.woken ≡ n.woken)) (Moved work s n.woken) _ k
        (out-recolour {N = Node I R O D S} (λ n'. (n'.state ≡ s) × (n'.woken ≡ n.woken)) _ _
          (h, refl))
        (λ n' e. rest-Moved work s n.woken n' e.0 e.1) (λ p n' e. g p n' e.0 e.1)

  drive_in-Moved :
      (s : NodeState S) (n : Node I R O D S) → n.state ≡ s → Moved work s n.woken (drive_in r s n).1
  unfolding drive_in
  drive_in-Moved is_shut n h = rest-Moved work is_shut n.woken n h refl
  drive_in-Moved close_ready n h = rest-Moved work close_ready n.woken n h refl
  drive_in-Moved (flushing x) n h = polled-Moved (flushing x) n _ h (flushed-Moved x n.woken)
  drive_in-Moved running n h = polled-Moved running n _ h (idle-Moved n.woken)
  drive_in-Moved (marker_ready x) n h = polled-Moved (marker_ready x) n _ h (marked-Moved x n.woken)
  drive_in-Moved (flush_ready x) n h = rest-Moved work (flush_ready x) n.woken n h refl
  drive_in-Moved forwarding n h = rest-Moved work forwarding n.woken n h refl

  pub drive-Moved : (n : Node I R O D S) → Moved work n.state n.woken (drive r n).1
  unfolding drive
  drive-Moved n = drive_in-Moved n.state n refl
