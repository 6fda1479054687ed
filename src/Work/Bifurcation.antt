-- ===== src/Work/Bifurcation.antt =====
-- node/bifurcation/work/node.rs: a work node with one input and two outputs.
pub mod Sides
pub mod Found
pub mod Runs
pub mod Turns
pub mod Rounds
mod Tests
use areamy.Common.{
  ℕ, zero, suc, Bool, true, false, ◌||◌, if◌then◌else◌, Option, none, some, List, [], ◌∷◌,
}
use areamy.Error.{Error, fatal, any, closed, Result, ok, err, Op, ◌>>=◌, pure}
use areamy.Message.{Message, data', flush, marker}
use areamy.Graph.{TryPushable, Pushable, Closeable}
use areamy.Edge.Fanout.{Fanout, Rotation}
use areamy.Edge.Fanout
use areamy.Work.Node.{Incoming, message, input_closed, Inlet, starved, instead}

-- `BifurcationRoutine`: one `Next` for each side.
pub record BifurcationRoutine {ℓ} (R D L Q : Type ℓ) : Type ℓ where
  pub send : R → D → Result (Unit {0}) × R
  pub flush : R → Result (Unit {0}) × R
  pub next_left : R → Result (Option L) × R
  pub next_right : R → Result (Option Q) × R

-- What `side_round` sees of the node.
pub record Half {ℓ} (R E M : Type ℓ) : Type ℓ where
  pub routine : R
  pub outputs : Fanout E M
  pub pending : Option M

-- The parents and the world, in which the input stands.
pub record Parents {ℓ} (W X : Type ℓ) : Type ℓ where
  pub workers : List W
  pub world : X

-- `Bifurcation`
pub record Bifurcation {ℓ} (R W X E F M N : Type ℓ) : Type ℓ where
  pub routine : R
  pub parents : Parents W X
  pub left_outputs : Fanout E M
  pub right_outputs : Fanout F N
  pub left_pending : Option M
  pub right_pending : Option N

module _ {ℓ} {R Out S E : Type ℓ} (next : R → Result (Option Out) × R)
    (clone : Message Out S → Message Out S) (t : TryPushable E (Message Out S))
    (p : Pushable E (Message Out S)) where
  -- The side is busy, whether its push completed or not.
  busy :
      Half R E (Message Out S)
      → Result Rotation × Fanout E (Message Out S)
      → Result Bool × Half R E (Message Out S)
  busy h (a, f) = (instead true a, record h { outputs = f })

  push_out : Message Out S → Op (Half R E (Message Out S)) Bool
  unfolding busy
  push_out m h = busy h (Fanout.rotate_from clone t h.outputs 0 m)

  -- `.or_else(|| pending.take())`
  push_pending : Option (Message Out S) → Op (Half R E (Message Out S)) Bool
  unfolding push_out
  push_pending (some m) h = push_out m (record h { pending = none })
  push_pending none h = (ok false, h)

  push_next : Result (Option Out) → Op (Half R E (Message Out S)) Bool
  unfolding push_pending
  push_next (ok (some o)) h = push_out (data' o) h
  push_next (ok none) h = push_pending h.pending h
  push_next (err e) h = (err e, h)

  pub side_round : Op (Half R E (Message Out S)) Bool
  unfolding busy push_next
  side_round h = elim h.outputs.suspended [
    | some held ↦ busy h (Fanout.resume clone t p h.outputs)
    | none ↦ let (a, x) = next h.routine in push_next a (record h { routine = x })
  ]

module _ {ℓ} {W X M : Type ℓ} (i : Inlet X M) (work : W → Op X (Unit {0})) where
  replenished : Result Bool → Parents W X → Result (Option (Incoming M)) × Parents W X
  replenished (ok true) s = (ok (some input_closed), s)
  replenished (ok false) s = (ok none, s)
  replenished (err e) s = (err e, s)

  -- One turn of the loop of `next_input`; `none` goes round again.
  looked : Result (Option M) → Op (Parents W X) (Option (Incoming M))
  unfolding replenished
  looked (ok (some m)) s = (ok (some (message m)), s)
  looked (ok none) s =
      let (a, ws, x) = starved work i.wait_front s.workers s.world in
      replenished a (record { workers = ws; world = x })
  looked (err closed) s = (ok (some input_closed), s)
  looked (err (fatal m)) s = (err (fatal m), s)
  looked (err (any e)) s = (err (any e), s)

  look : Op (Parents W X) (Option (Incoming M))
  unfolding looked
  look s = let (a, x) = i.poll s.world in looked a (record s { world = x })

  look_again :
      (Parents W X → Option (Result (Incoming M)) × Parents W X)
      → Result (Option (Incoming M)) × Parents W X
      → Option (Result (Incoming M)) × Parents W X
  look_again onward (ok none, s) = onward s
  look_again onward (ok (some m), s) = (some (ok m), s)
  look_again onward (err e, s) = (some (err e), s)

  -- The loop for some turns; `none` where it goes on.
  pub next_input : ℕ → Parents W X → Option (Result (Incoming M)) × Parents W X
  unfolding look look_again
  next_input zero s = (none, s)
  next_input (suc turns) s = look_again (next_input turns) (look s)

module _ {ℓ} {R W D L Q S X E F : Type ℓ} (r : BifurcationRoutine R D L Q) (copy : S → S) where
  owe_flush :
      S
      → Result (Unit {0})
      → Bifurcation R W X E F (Message L S) (Message Q S)
      → Result (Unit {0}) × Bifurcation R W X E F (Message L S) (Message Q S)
  owe_flush o (ok u) n =
      (ok tt, record n { left_pending = some (flush (copy o)); right_pending = some (flush o) })
  owe_flush o (err e) n = (err e, n)

  -- A signal is cloned, by the client's `copy`, for the left, and moves to the right.
  pub accept : Message D S → Op (Bifurcation R W X E F (Message L S) (Message Q S)) (Unit {0})
  unfolding owe_flush
  accept (data' d) n = let (a, x) = r.send n.routine d in (a, record n { routine = x })
  accept (flush o) n = let (a, x) = r.flush n.routine in owe_flush o a (record n { routine = x })
  accept (marker o) n =
      (ok tt, record n { left_pending = some (marker (copy o)); right_pending = some (marker o) })

-- What a turn of the loop of `work` ends with.
pub data Turn : Type 0 where
  done goes_on : Turn

module _ {ℓ} {R W L Q S X E F : Type ℓ} where
  abbrev pub left_half : Bifurcation R W X E F (Message L S) (Message Q S) → Half R E (Message L S)
  left_half n = record { routine = n.routine; outputs = n.left_outputs; pending = n.left_pending }

  abbrev pub right_half : Bifurcation R W X E F (Message L S) (Message Q S) → Half R F (Message Q S)
  right_half n = record {
    routine = n.routine;
    outputs = n.right_outputs;
    pending = n.right_pending;
  }

  abbrev pub of_left :
      Bifurcation R W X E F (Message L S) (Message Q S)
      → Half R E (Message L S)
      → Bifurcation R W X E F (Message L S) (Message Q S)
  of_left n h = record n { routine = h.routine; left_outputs = h.outputs; left_pending = h.pending }

  abbrev pub of_right :
      Bifurcation R W X E F (Message L S) (Message Q S)
      → Half R F (Message Q S)
      → Bifurcation R W X E F (Message L S) (Message Q S)
  of_right n h = record n {
    routine = h.routine;
    right_outputs = h.outputs;
    right_pending = h.pending;
  }

module _ {ℓ} {R W D L Q S X E F : Type ℓ} (r : BifurcationRoutine R D L Q)
    (i : Inlet X (Message D S)) (work_parent : W → Op X (Unit {0})) (copy : S → S)
    (clone_left : Message L S → Message L S) (clone_right : Message Q S → Message Q S)
    (t : TryPushable E (Message L S)) (p : Pushable E (Message L S)) (c : Closeable E)
    (u : TryPushable F (Message Q S)) (q : Pushable F (Message Q S)) (d : Closeable F) where
  left_round : Op (Bifurcation R W X E F (Message L S) (Message Q S)) Bool
  unfolding side_round
  left_round n =
      let (a, h) = side_round r.next_left clone_left t p (left_half n) in (a, of_left n h)

  right_round : Op (Bifurcation R W X E F (Message L S) (Message Q S)) Bool
  unfolding side_round
  right_round n =
      let (a, h) = side_round r.next_right clone_right u q (right_half n) in (a, of_right n h)

  side_rounds : Op (Bifurcation R W X E F (Message L S) (Message Q S)) Bool
  unfolding left_round right_round
  side_rounds = do left' ← left_round; right' ← right_round; pure (left' || right')

  take_input :
      Option (Result (Incoming (Message D S)))
      → Bifurcation R W X E F (Message L S) (Message Q S)
      → Option (Result Turn) × Bifurcation R W X E F (Message L S) (Message Q S)
  unfolding accept
  take_input none n = (none, n)
  take_input (some (ok (message m))) n =
      let (a, n') = accept r copy m n in (some (instead goes_on a), n')
  take_input (some (ok input_closed)) n = (
    some (err closed),
    record n {
      left_outputs = (Fanout.close c n.left_outputs).1;
      right_outputs = (Fanout.close d n.right_outputs).1;
    },
  )
  take_input (some (err e)) n = (some (err e), n)

  after_sides :
      ℕ
      → Result Bool
      → Bifurcation R W X E F (Message L S) (Message Q S)
      → Option (Result Turn) × Bifurcation R W X E F (Message L S) (Message Q S)
  unfolding take_input
  after_sides turns (ok true) n = (some (ok done), n)
  after_sides turns (ok false) n =
      let (a, s) = next_input i work_parent turns n.parents in
      take_input a (record n { parents = s })
  after_sides turns (err e) n = (some (err e), n)

  work_on :
      (Bifurcation R W X E F (Message L S) (Message Q S)
        → Option (Result (Unit {0})) × Bifurcation R W X E F (Message L S) (Message Q S))
      → Option (Result Turn) × Bifurcation R W X E F (Message L S) (Message Q S)
      → Option (Result (Unit {0})) × Bifurcation R W X E F (Message L S) (Message Q S)
  work_on onward (some (ok goes_on), n) = onward n
  work_on onward (some (ok done), n) = (some (ok tt), n)
  work_on onward (some (err e), n) = (some (err e), n)
  work_on onward (none, n) = (none, n)

  -- `Workable::work`: one round, of which each turn takes an input and has `turns` turns to find it;
  -- `none` where it goes on.
  pub work :
      ℕ
      → ℕ
      → Bifurcation R W X E F (Message L S) (Message Q S)
      → Option (Result (Unit {0})) × Bifurcation R W X E F (Message L S) (Message Q S)
  unfolding side_rounds after_sides work_on
  work turns zero n = (none, n)
  work turns (suc more) n =
      let (a, n') = side_rounds n in work_on (work turns more) (after_sides turns a n')
