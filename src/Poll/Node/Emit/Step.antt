-- ===== src/Poll/Node/Emit/Step.antt =====
-- How Output leaves the state and whom it wakes.
use areamy.Common.{
  ℕ, zero, suc, Option, none, some, List, [], ◌∷◌, ◌++◌, ◌≡◌, refl, append-nil, append_assoc,
}
use areamy.Error.{closed, Result, ok, err, and_then, Op, fail}
use areamy.Message.{Message}
use areamy.Edge.Fanout.{Rotation, complete, at}
use areamy.Poll.Node.{
  NodeState, running, flushing, flush_ready, marker_ready, forwarding, close_ready, is_shut, input,
  work, output, Phase, Polled, pending, LineRoutine, Rotate, Node, wake, become,
}
use areamy.Poll.Node.Move.{
  Move, shut as shut_move, rest, emit_more, park_flush, park_marker, send_flush, send_marker,
  resume, Moved, rest-Moved,
}
use areamy.Poll.Node.Emit.{
  Drained, all_out, parked, yielded, settled, start, after_rotation, after_next, drain_loop, drain,
  run_again, after_signal, after_data, after_last, step_in, shut, emit,
}

module _ {ℓ} {I R O D Out S : Type ℓ} (r : LineRoutine R D Out) (o : Rotate O (Message Out S)) where
  -- An operation that ends in `n` moved neither the state nor the log.
  abbrev Kept : NodeState S → List Phase → Node I R O D S → Type ℓ
  Kept s before n = (n.state ≡ s) × (n.woken ≡ before)

  -- What `drain` leaves: it wakes nobody, or Output itself when it yields.
  abbrev Drains : NodeState S → List Phase → Result Drained × Node I R O D S → Type ℓ
  Drains s before (ok yielded, n) = (n.state ≡ s) × (n.woken ≡ before ++ output ∷ [])
  Drains s before (ok all_out, n) = Kept s before n
  Drains s before (ok parked, n) = Kept s before n
  Drains s before (err e, n) = Kept s before n

  Drains-and_then {κ} :
      {A : Type κ} (s : NodeState S) (before : List Phase) (x : Result A × Node I R O D S)
      (k : A → Op (Node I R O D S) Drained)
      → Kept s before x.1
      → ((a : A) (n : Node I R O D S) → Kept s before n → Drains s before (k a n))
      → Drains s before (and_then x k)
  Drains-and_then s before (ok a, n) k h on = on a n h
  Drains-and_then s before (err e, n) k h on = h

  after_rotation-Drains :
      (s : NodeState S) (before : List Phase) (onward : Op (Node I R O D S) Drained)
      → ((n : Node I R O D S) → Kept s before n → Drains s before (onward n))
      → (a : Rotation) (n : Node I R O D S) → Kept s before n
      → Drains s before (after_rotation r o onward a n)
  unfolding after_rotation
  after_rotation-Drains s before onward on complete n h = on n h
  after_rotation-Drains s before onward on (at edge) n h = h

  after_next-Drains :
      (s : NodeState S) (before : List Phase) (onward : Op (Node I R O D S) Drained)
      → ((n : Node I R O D S) → Kept s before n → Drains s before (onward n))
      → (a : Option Out) (n : Node I R O D S) → Kept s before n
      → Drains s before (after_next r o onward a n)
  unfolding after_next start
  after_next-Drains s before onward on none n h = h
  after_next-Drains s before onward on (some out) n h =
      Drains-and_then s before _ _ h (after_rotation-Drains s before onward on)

  drain_loop-Drains :
      (s : NodeState S) (before : List Phase) (budget : ℕ) (n : Node I R O D S)
      → Kept s before n
      → Drains s before (drain_loop r o budget n)
  unfolding drain_loop wake
  drain_loop-Drains s before zero n h = (h.0, rw h.1)
  drain_loop-Drains s before (suc budget) n h =
      Drains-and_then s before _ _ h
        (after_next-Drains s before _ (drain_loop-Drains s before budget))

  drain-Drains :
      (s : NodeState S) (n : Node I R O D S) → n.state ≡ s → Drains s n.woken (drain r o n)
  unfolding drain settled
  drain-Drains s n h =
      Drains-and_then s n.woken _ _ (h, refl)
        (after_rotation-Drains s n.woken _ (drain_loop-Drains s n.woken n.budget_output))

  -- What an Output phase leaves, before an error shuts the node.
  abbrev Steps : NodeState S → List Phase → Result Polled × Node I R O D S → Type ℓ
  Steps s before (ok p, n) = Moved output s before n
  Steps s before (err e, n) = (n.woken ≡ before) × Move output s is_shut (input ∷ work ∷ [])

  after_drain-Steps :
      (s : NodeState S) (before : List Phase) (x : Result Drained × Node I R O D S)
      (k : Drained → Op (Node I R O D S) Polled)
      → Drains s before x
      → ((n : Node I R O D S) → Kept s before n → Steps s before (k all_out n))
      → ((n : Node I R O D S) → Kept s before n → Steps s before (k parked n))
      → ((n : Node I R O D S) → k yielded n ≡ (ok pending, n))
      → Steps s before (and_then x k)
  after_drain-Steps s before (ok all_out, n) k h on off wait = on n h
  after_drain-Steps s before (ok parked, n) k h on off wait = off n h
  after_drain-Steps s before (ok yielded, n) k h on off wait =
      rw (wait n) (output ∷ [], h.1, rw h.0 (emit_more s))
  after_drain-Steps s before (err e, n) k h on off wait = (h.1, shut_move s)

  -- The signal is forwarded from a state that may go to `forwarding` or on to `running`.
  signal-Steps :
      (s : NodeState S) (before : List Phase)
      → Move output s forwarding []
      → Move output s running (input ∷ work ∷ [])
      → (x : Result Rotation × Node I R O D S) → Kept forwarding before x.1
      → Steps s before (and_then x (after_signal r o))
  unfolding after_signal run_again become wake
  signal-Steps s before park send (ok complete, n) h =
      (input ∷ work ∷ [], rw (h.1, append_assoc before (input ∷ []) (work ∷ [])), send)
  signal-Steps s before park send (ok (at edge), n) h =
      ([], rw (h.1, append-nil before), rw h.0 park)
  signal-Steps s before park send (err e, n) h = (h.1, shut_move s)

  data-Steps :
      (s : NodeState S) (before : List Phase) (signal : Message Out S)
      → Move output s forwarding []
      → Move output s running (input ∷ work ∷ [])
      → (x : Result Drained × Node I R O D S) → Drains s before x
      → Steps s before (and_then x (after_data r o signal))
  unfolding after_data become start
  data-Steps s before signal park send x h =
      after_drain-Steps s before x _ h (λ n e. signal-Steps s before park send _ (refl, e.1))
        (λ n e. rest-Moved output s before n e.0 e.1) (λ n. refl)

  last-Steps :
      (s : NodeState S) (before : List Phase) (x : Result (Unit {0}) × Node I R O D S)
      → x.1.woken ≡ before
      → Steps s before (and_then x (λ _. fail closed))
  last-Steps s before (ok a, n) h = (h, shut_move s)
  last-Steps s before (err e, n) h = (h, shut_move s)

  step_in-Steps :
      (s : NodeState S) (n : Node I R O D S) → n.state ≡ s → Steps s n.woken (step_in r o s n)
  unfolding step_in after_last settled
  step_in-Steps is_shut n h = (refl, shut_move is_shut)
  step_in-Steps (flush_ready x) n h =
      data-Steps _ n.woken _ (park_flush x) (send_flush x) _ (drain-Drains _ n h)
  step_in-Steps (marker_ready x) n h =
      data-Steps _ n.woken _ (park_marker x) (send_marker x) _ (drain-Drains _ n h)
  step_in-Steps forwarding n h =
      signal-Steps forwarding n.woken (rest output forwarding) resume _ (h, refl)
  step_in-Steps close_ready n h =
      after_drain-Steps _ n.woken _ _ (drain-Drains _ n h) (λ n' e. last-Steps _ _ _ e.1)
        (λ n' e. last-Steps _ _ _ e.1) (λ n. refl)
  step_in-Steps running n h =
      after_drain-Steps _ n.woken _ _ (drain-Drains _ n h)
        (λ n' e. rest-Moved output running n.woken n' e.0 e.1)
        (λ n' e. rest-Moved output running n.woken n' e.0 e.1) (λ n. refl)
  step_in-Steps (flushing x) n h =
      after_drain-Steps _ n.woken _ _ (drain-Drains _ n h)
        (λ n' e. rest-Moved output (flushing x) n.woken n' e.0 e.1)
        (λ n' e. rest-Moved output (flushing x) n.woken n' e.0 e.1) (λ n. refl)

  shut-Moved :
      (s : NodeState S) (before : List Phase) (x : Result Polled × Node I R O D S)
      → Steps s before x
      → Moved output s before (shut r o x).1
  unfolding shut
  shut-Moved s before (ok p, n) h = h
  shut-Moved s before (err e, n) h = (input ∷ work ∷ [], rw h.0, h.1)

  pub emit-Moved : (n : Node I R O D S) → Moved output n.state n.woken (emit r o n).1
  unfolding emit
  emit-Moved n = shut-Moved n.state n.woken _ (step_in-Steps n.state n refl)
