-- ===== src/Poll/Node/Emit/Account.antt =====
-- What an Output phase sends: the routine's output in order, and the signal behind all of it.
use areamy.Common.{
  ℕ, zero, suc, Option, none, some, List, [], ◌∷◌, ◌++◌, ◌≡◌, refl, append-nil, append_assoc,
}
use areamy.Error.{closed, Result, ok, err, and_then, Op, pure, fail}
use areamy.Message.{Message, data', flush, marker}
use areamy.Edge.Fanout.{Rotation, complete, at}
use areamy.Poll.Node.{
  NodeState, running, flushing, flush_ready, marker_ready, forwarding, close_ready, is_shut, Polled,
  pending, LineRoutine, Rotate, Node, wake, become,
}
use areamy.Poll.Node.Emit.{
  Drained, all_out, parked, yielded, settled, start, after_rotation, after_next, drain_loop, drain,
  run_again, after_signal, after_data, after_last, step_in, shut, emit,
}

module _ {ℓ} {Out S : Type ℓ} where
  -- The signal that Output is to send, behind the data.
  abbrev pub signal_out : NodeState S → List (Message Out S)
  signal_out running = []
  signal_out (flushing x) = []
  signal_out (flush_ready x) = flush x ∷ []
  signal_out (marker_ready x) = marker x ∷ []
  signal_out forwarding = []
  signal_out close_ready = []
  signal_out is_shut = []

  -- The output's log after a rotation and a retry, and the routine's queue after it was asked.
  abbrev pub Sends :
      {O : Type ℓ}
      → (O → List (Message Out S))
      → O
      → List (Message Out S)
      → Result Rotation × O
      → Type ℓ
  Sends sent o ms (ok x, o') = sent o' ≡ sent o ++ ms
  Sends sent o ms (err e, o') = sent o ≡ sent o

  abbrev pub Yields :
      {R : Type ℓ} → (R → List (Message Out S)) → R → Result (Option Out) × R → Type ℓ
  Yields queued x (ok none, x') = (queued x ≡ []) × (queued x' ≡ [])
  Yields queued x (ok (some m), x') = queued x ≡ data' m ∷ queued x'
  Yields queued x (err e, x') = queued x ≡ queued x

module _ {ℓ} {I R O D Out S : Type ℓ} (r : LineRoutine R D Out) (o : Rotate O (Message Out S))
    (sent : O → List (Message Out S)) (queued : R → List (Message Out S)) where
  -- Everything that the node has sent and is to send, in order.
  abbrev pub account : Node I R O D S → List (Message Out S)
  account n = sent n.outlet ++ (queued n.routine ++ signal_out n.state)

  -- What `drain` leaves in the state `s`, by what had been sent and queued.
  abbrev Drains : NodeState S → List (Message Out S) → Result Drained × Node I R O D S → Type ℓ
  Drains s all (ok all_out, n) = (n.state ≡ s) × (queued n.routine ≡ []) × (account n ≡ all)
  Drains s all (ok parked, n) = account n ≡ all
  Drains s all (ok yielded, n) = account n ≡ all
  Drains s all (err e, n) = all ≡ all

  abbrev pub Accounted : List (Message Out S) → Result Polled × Node I R O D S → Type ℓ
  Accounted all (ok p, n) = account n ≡ all
  Accounted all (err e, n) = all ≡ all

  rotated-Drains :
      (s : NodeState S) (all ms : List (Message Out S)) (n : Node I R O D S)
      (onward : Op (Node I R O D S) Drained) (x : Result Rotation × O)
      → Sends sent n.outlet ms x
      → n.state ≡ s
      → all ≡ sent n.outlet ++ (ms ++ (queued n.routine ++ signal_out s))
      → ((n : Node I R O D S) → n.state ≡ s → account n ≡ all → Drains s all (onward n))
      → Drains s all (and_then (x.0, record n { outlet = x.1 }) (after_rotation r o onward))
  unfolding after_rotation
  rotated-Drains s all ms n onward (ok complete, y) h e a on =
      on (record n { outlet = y }) e
        (rw (e, h, a, append_assoc (sent n.outlet) ms (queued n.routine ++ signal_out s)))
  rotated-Drains s all ms n onward (ok (at k), y) h e a on =
      rw (e, h, a, append_assoc (sent n.outlet) ms (queued n.routine ++ signal_out s))
  rotated-Drains s all ms n onward (err x, y) h e a on = refl

  module _ (retries : (x : O) → Sends sent x [] (o.retry x))
      (rotates : (x : O) (m : Message Out S) → Sends sent x (m ∷ []) (o.rotate x m))
      (yields : (x : R) → Yields queued x (r.next x)) where
    next-Drains :
        (s : NodeState S) (all : List (Message Out S)) (n : Node I R O D S)
        (onward : Op (Node I R O D S) Drained) (x : Result (Option Out) × R)
        → Yields queued n.routine x
        → n.state ≡ s
        → account n ≡ all
        → ((n : Node I R O D S) → n.state ≡ s → account n ≡ all → Drains s all (onward n))
        → Drains s all (and_then (x.0, record n { routine = x.1 }) (after_next r o onward))
    unfolding after_next start
    next-Drains s all n onward (ok none, x) y e a on = (e, y.1, rw (← a, y.0, y.1))
    next-Drains s all n onward (ok (some m), x) y e a on =
        rotated-Drains s all (data' m ∷ []) (record n { routine = x }) onward _
          (rotates n.outlet (data' m)) e (rw (← a, y, e)) on
    next-Drains s all n onward (err x, _) y e a on = refl

    drain_loop-Drains :
        (s : NodeState S) (all : List (Message Out S)) (budget : ℕ) (n : Node I R O D S)
        → n.state ≡ s
        → account n ≡ all
        → Drains s all (drain_loop r o budget n)
    unfolding drain_loop wake
    drain_loop-Drains s all zero n e a = a
    drain_loop-Drains s all (suc budget) n e a =
        next-Drains s all n _ _ (yields n.routine) e a (drain_loop-Drains s all budget)

    drain-Drains :
        (s : NodeState S) (n : Node I R O D S) → n.state ≡ s → Drains s (account n) (drain r o n)
    unfolding drain settled
    drain-Drains s n e =
        rotated-Drains s (account n) [] n _ _ (retries n.outlet) e (rw e)
          (drain_loop-Drains s (account n) n.budget_output)

    signal-Accounted :
        (all ms : List (Message Out S)) (n : Node I R O D S) (x : Result Rotation × O)
        → Sends sent n.outlet ms x
        → n.state ≡ forwarding
        → all ≡ sent n.outlet ++ (ms ++ queued n.routine)
        → Accounted all (and_then (x.0, record n { outlet = x.1 }) (after_signal r o))
    unfolding after_signal run_again become wake
    signal-Accounted all ms n (ok complete, x) h e a =
        rw (h, a, append-nil (queued n.routine), append_assoc (sent n.outlet) ms (queued n.routine))
    signal-Accounted all ms n (ok (at k), x) h e a =
        rw (
          h,
          e,
          a,
          append-nil (queued n.routine),
          append_assoc (sent n.outlet) ms (queued n.routine),
        )
    signal-Accounted all ms n (err x, _) h e a = refl

    data-Accounted :
        (s : NodeState S) (all : List (Message Out S)) (signal : Message Out S)
        (x : Result Drained × Node I R O D S)
        → signal_out s ≡ signal ∷ []
        → Drains s all x
        → Accounted all (and_then x (after_data r o signal))
    unfolding after_data become start
    data-Accounted s all signal (ok all_out, n) m (e, q, a) =
        signal-Accounted all (signal ∷ []) (record n { state = forwarding }) _
          (rotates n.outlet signal) refl (rw (← a, q, e, m))
    data-Accounted s all signal (ok parked, n) m h = h
    data-Accounted s all signal (ok yielded, n) m h = h
    data-Accounted s all signal (err x, n) m h = refl

    drained-Accounted :
        (s : NodeState S) (all : List (Message Out S)) (x : Result Drained × Node I R O D S)
        → Drains s all x
        → Accounted all (and_then x (λ _. pure pending))
    drained-Accounted s all (ok all_out, n) h = h.2
    drained-Accounted s all (ok parked, n) h = h
    drained-Accounted s all (ok yielded, n) h = h
    drained-Accounted s all (err x, n) h = refl

    closed-Accounted :
        (all : List (Message Out S)) (x : Result (Unit {0}) × Node I R O D S)
        → Accounted all (and_then x (λ _. fail closed))
    closed-Accounted all (ok a, n) = refl
    closed-Accounted all (err e, n) = refl

    last-Accounted :
        (s : NodeState S) (all : List (Message Out S)) (x : Result Drained × Node I R O D S)
        → Drains s all x
        → Accounted all (and_then x (after_last r o))
    unfolding after_last
    last-Accounted s all (ok all_out, n) h = closed-Accounted all _
    last-Accounted s all (ok parked, n) h = closed-Accounted all _
    last-Accounted s all (ok yielded, n) h = h
    last-Accounted s all (err x, n) h = refl

    step_in-Accounted :
        (s : NodeState S) (n : Node I R O D S)
        → n.state ≡ s
        → Accounted (account n) (step_in r o s n)
    unfolding step_in settled
    step_in-Accounted is_shut n e = refl
    step_in-Accounted (flush_ready x) n e =
        data-Accounted (flush_ready x) _ _ _ refl (drain-Drains _ n e)
    step_in-Accounted (marker_ready x) n e =
        data-Accounted (marker_ready x) _ _ _ refl (drain-Drains _ n e)
    step_in-Accounted forwarding n e =
        signal-Accounted _ [] n _ (retries n.outlet) e (rw (e, append-nil (queued n.routine)))
    step_in-Accounted close_ready n e = last-Accounted close_ready _ _ (drain-Drains _ n e)
    step_in-Accounted running n e = drained-Accounted running _ _ (drain-Drains _ n e)
    step_in-Accounted (flushing x) n e = drained-Accounted (flushing x) _ _ (drain-Drains _ n e)

    shut-Accounted :
        (all : List (Message Out S)) (x : Result Polled × Node I R O D S)
        → Accounted all x
        → Accounted all (shut r o x)
    unfolding shut
    shut-Accounted all (ok p, n) h = h
    shut-Accounted all (err x, n) h = refl

    -- An Output phase that ends without an error sends the routine's output in order and a signal
    -- behind all of it: what was sent, then what is queued and the signal to be sent, make up the
    -- same list before and after. The output logs what it was given to rotate, and the routine gives
    -- out its queue in order.
    pub emit-Accounted : (n : Node I R O D S) → Accounted (account n) (emit r o n)
    unfolding emit
    emit-Accounted n = shut-Accounted _ _ (step_in-Accounted n.state n refl)
