-- ===== src/Work/Biunion.antt =====
-- node/biunion/work/node.rs: a work node with two inputs and one output.
--
-- Both input edges are in the world, with all that parents and other threads change. Waiting for any
-- of the two (Work.Multiedge) is one call, which returns when its wait is over. The round itself is
-- the one that all work nodes share (Work.Node.Round).
pub mod Merge
pub mod Turns
pub mod Rounds
pub mod Ends
mod Tests
use areamy.Common.{ℕ, Bool, true, false, Option, none, some, List, [], ◌∷◌}
use areamy.Error.{Error, fatal, any, closed, Result, ok, err, Op}
use areamy.Message.{Message, data', flush, marker}
use areamy.Graph.{TryPushable, Pushable, Closeable}
use areamy.Work.Each.{work_each}
use areamy.Work.Node.{Incoming, message, input_closed, instead}
use areamy.Work.Node.Round.{WorkNode, search_loop, work_with}

-- node/biunion/routine.rs: `Send` for each side, `Flush` and `Next`.
pub record BiunionRoutine {ℓ} (R D E Out : Type ℓ) : Type ℓ where
  pub send_left : R → D → Result (Unit {0}) × R
  pub send_right : R → E → Result (Unit {0}) × R
  pub flush : R → Result (Unit {0}) × R
  pub next : R → Result (Option Out) × R

-- `Receiver::poll` of both sides, and `Input::wait_any`.
pub record Inlets {ℓ} (X M N : Type ℓ) : Type ℓ where
  pub poll_left : X → Result (Option M) × X
  pub poll_right : X → Result (Option N) × X
  pub wait_any : X → Result (Unit {0}) × X

-- The arguments of `next_message`, with the world in which the inputs stand.
pub record Search {ℓ} (R W M X : Type ℓ) : Type ℓ where
  pub routine : R
  pub left_workers : List W
  pub right_workers : List W
  pub pending : Option M
  pub world : X

module _ {ℓ} {R W Out S X : Type ℓ} where
  owe_flush : S → Result (Unit {0}) → Op (Search R W (Message Out S) X) (Unit {0})
  owe_flush o (ok u) s = (ok tt, record s { pending = some (flush o) })
  owe_flush o (err e) s = (err e, s)

  taken_in :
      Result (Unit {0}) × Search R W (Message Out S) X
      → Result (Option Bool) × Search R W (Message Out S) X
  taken_in (a, s) = (instead none a, s)

module _ {ℓ} {R W D Out S X : Type ℓ} where
  -- With the routine's `send` for the side that the message came from.
  accept :
      (R → D → Result (Unit {0}) × R)
      → (R → Result (Unit {0}) × R)
      → Message D S
      → Op (Search R W (Message Out S) X) (Unit {0})
  unfolding owe_flush
  accept send flush_it (data' d) s = let (a, x) = send s.routine d in (a, record s { routine = x })
  accept send flush_it (flush o) s =
      let (a, x) = flush_it s.routine in owe_flush o a (record s { routine = x })
  accept send flush_it (marker o) s = (ok tt, record s { pending = some (marker o) })

  -- `match input.left.poll()`, or `right`: `none` goes round again, and else whether it is closed.
  side_polled :
      (R → D → Result (Unit {0}) × R)
      → (R → Result (Unit {0}) × R)
      → Result (Option (Message D S))
      → Op (Search R W (Message Out S) X) (Option Bool)
  unfolding taken_in accept
  side_polled send flush_it (ok (some m)) s = taken_in (accept send flush_it m s)
  side_polled send flush_it (ok none) s = (ok (some false), s)
  side_polled send flush_it (err closed) s = (ok (some true), s)
  side_polled send flush_it (err (fatal m)) s = (err (fatal m), s)
  side_polled send flush_it (err (any e)) s = (err (any e), s)

module _ {ℓ} {R W M X : Type ℓ} (work : W → Op X (Unit {0})) where
  worked_right : Result (Unit {0}) → Op (Search R W M X) (Option (Incoming M))
  worked_right (ok u) s =
      let (a, ws, x) = work_each work s.right_workers s.world in
      (instead none a, record s { right_workers = ws; world = x })
  worked_right (err e) s = (err e, s)

  -- Each side's parents once.
  work_sides : Op (Search R W M X) (Option (Incoming M))
  unfolding worked_right
  work_sides s =
      let (a, ws, x) = work_each work s.left_workers s.world in
      worked_right a (record s { left_workers = ws; world = x })

  waited : Result (Unit {0}) → Op (Search R W M X) (Option (Incoming M))
  unfolding work_sides
  waited (ok u) s = work_sides s
  waited (err closed) s = (ok (some input_closed), s)
  waited (err (fatal m)) s = (err (fatal m), s)
  waited (err (any e)) s = (err (any e), s)

  -- No message on either side: block if no parents are left, then work them.
  starved :
      (X → Result (Unit {0}) × X) → List W → List W → Op (Search R W M X) (Option (Incoming M))
  unfolding waited work_sides
  starved wait_any [] [] s = let (a, x) = wait_any s.world in waited a (record s { world = x })
  starved wait_any (w ∷ ws) vs s = work_sides s
  starved wait_any [] (v ∷ vs) s = work_sides s

module _ {ℓ} {R W D E Out S X : Type ℓ} (r : BiunionRoutine R D E Out)
    (i : Inlets X (Message D S) (Message E S)) (work : W → Op X (Unit {0})) where
  abbrev pub Searching : Type ℓ
  Searching = Search R W (Message Out S) X

  both_polled : Bool → Bool → Op Searching (Option (Incoming (Message Out S)))
  unfolding starved
  both_polled true true s = (ok (some input_closed), s)
  both_polled false right_closed s = starved work i.wait_any s.left_workers s.right_workers s
  both_polled true false s = starved work i.wait_any s.left_workers s.right_workers s

  after_right :
      Bool
      → Result (Option Bool) × Searching
      → Result (Option (Incoming (Message Out S))) × Searching
  unfolding both_polled
  after_right left_closed (ok none, s) = (ok none, s)
  after_right left_closed (ok (some right_closed), s) = both_polled left_closed right_closed s
  after_right left_closed (err e, s) = (err e, s)

  after_left :
      Result (Option Bool) × Searching → Result (Option (Incoming (Message Out S))) × Searching
  unfolding after_right side_polled
  after_left (ok none, s) = (ok none, s)
  after_left (ok (some left_closed), s) =
      let (a, x) = i.poll_right s.world in
      after_right left_closed (side_polled r.send_right r.flush a (record s { world = x }))
  after_left (err e, s) = (err e, s)

  owed_signal : Option (Message Out S) → Op Searching (Option (Incoming (Message Out S)))
  unfolding after_left side_polled
  owed_signal (some m) s = (ok (some (message m)), record s { pending = none })
  owed_signal none s =
      let (a, x) = i.poll_left s.world in
      after_left (side_polled r.send_left r.flush a (record s { world = x }))

  after_next : Result (Option Out) → Op Searching (Option (Incoming (Message Out S)))
  unfolding owed_signal
  after_next (ok (some o)) s = (ok (some (message (data' o))), s)
  after_next (ok none) s = owed_signal s.pending s
  after_next (err e) s = (err e, s)

  -- One turn of the loop of `next_message`.
  pub turn : Op Searching (Option (Incoming (Message Out S)))
  unfolding after_next
  turn s = let (a, x) = r.next s.routine in after_next a (record s { routine = x })

  -- The loop for some turns; `none` where it goes on.
  pub next_message : ℕ → Searching → Option (Result (Incoming (Message Out S))) × Searching
  next_message = search_loop turn

-- `Biunion`: what it searches, and its outputs.
module _ {ℓ} {R W D E Out S X F : Type ℓ} (r : BiunionRoutine R D E Out)
    (i : Inlets X (Message D S) (Message E S)) (work_parent : W → Op X (Unit {0}))
    (clone : Message Out S → Message Out S) (t : TryPushable F (Message Out S))
    (p : Pushable F (Message Out S)) (c : Closeable F) where
  -- `Workable::work`: one round.
  pub work :
      ℕ
      → WorkNode (Search R W (Message Out S) X) F (Message Out S)
      → Option (Result (Unit {0})) × WorkNode (Search R W (Message Out S) X) F (Message Out S)
  work turns n = work_with (next_message r i work_parent turns) clone t p c n
