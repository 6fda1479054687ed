-- ===== src/Work/Line.antt =====
-- node/line/work/node.rs: a work node with one input and one output.
pub mod Account
pub mod Leaves
pub mod Rounds
pub mod Ends
mod Tests
use areamy.Common.{ℕ, zero, suc, Bool, true, false, Option, none, some, List, [], ◌∷◌}
use areamy.Error.{Error, fatal, any, closed, Result, ok, err, Op}
use areamy.Message.{Message, data', flush, marker}
use areamy.Graph.{TryPushable, Pushable, Closeable}
use areamy.Work.Node.{Incoming, message, input_closed, Routine, Inlet, starved, instead}
use areamy.Work.Node.Round.{WorkNode, search_loop, work_with}

-- The arguments of `next_message`, with the world in which the input stands.
pub record Search {ℓ} (R W M X : Type ℓ) : Type ℓ where
  pub routine : R  -- `worker`
  pub workers : List W
  pub pending : Option M
  pub world : X

-- `Line`: what it searches, and its outputs.
abbrev pub Line {ℓ} : (R W M X E : Type ℓ) → Type ℓ
Line R W M X E = WorkNode (Search R W M X) E M

module _ {ℓ} {R W D Out S X : Type ℓ} (r : Routine R D Out) (i : Inlet X (Message D S))
    (work : W → Op X (Unit {0})) where
  abbrev Searching : Type ℓ
  Searching = Search R W (Message Out S) X

  -- What a turn of the loop finds; `none` goes round again.
  abbrev Found : Type ℓ
  Found = Option (Incoming (Message Out S))

  owe_flush : S → Result (Unit {0}) → Searching → Result Found × Searching
  owe_flush o (ok u) s = (ok none, record s { pending = some (flush o) })
  owe_flush o (err e) s = (err e, s)

  -- The arms on a message of the input.
  accept : Message D S → Op Searching Found
  unfolding owe_flush
  accept (data' d) s = let (a, x) = r.send s.routine d in (instead none a, record s { routine = x })
  accept (flush o) s = let (a, x) = r.flush s.routine in owe_flush o a (record s { routine = x })
  accept (marker o) s = (ok none, record s { pending = some (marker o) })

  refilled : Result Bool → Searching → Result Found × Searching
  refilled (ok true) s = (ok (some input_closed), s)
  refilled (ok false) s = (ok none, s)
  refilled (err e) s = (err e, s)

  -- `match input.poll()`
  polled : Result (Option (Message D S)) → Searching → Result Found × Searching
  unfolding accept refilled
  polled (ok (some m)) s = accept m s
  polled (ok none) s =
      let (a, ws, x) = starved work i.wait_front s.workers s.world in
      refilled a (record s { workers = ws; world = x })
  polled (err closed) s = (ok (some input_closed), s)
  polled (err (fatal m)) s = (err (fatal m), s)
  polled (err (any e)) s = (err (any e), s)

  owed : Option (Message Out S) → Searching → Result Found × Searching
  unfolding polled
  owed (some m) s = (ok (some (message m)), record s { pending = none })
  owed none s = let (a, x) = i.poll s.world in polled a (record s { world = x })

  after_next : Result (Option Out) → Searching → Result Found × Searching
  unfolding owed
  after_next (ok (some o)) s = (ok (some (message (data' o))), s)
  after_next (ok none) s = owed s.pending s
  after_next (err e) s = (err e, s)

  -- One turn of the loop of `next_message`.
  pub turn : Op Searching Found
  unfolding after_next
  turn s = let (a, x) = r.next s.routine in after_next a (record s { routine = x })

  -- The loop for some turns; `none` where it goes on.
  pub next_message : ℕ → Searching → Option (Result (Incoming (Message Out S))) × Searching
  next_message = search_loop turn

module _ {ℓ} {R W D Out S X E : Type ℓ} (r : Routine R D Out) (i : Inlet X (Message D S))
    (work_parent : W → Op X (Unit {0})) (clone : Message Out S → Message Out S)
    (t : TryPushable E (Message Out S)) (p : Pushable E (Message Out S)) (c : Closeable E) where
  -- `Workable::work`: one round.
  pub work :
      ℕ → Line R W (Message Out S) X E → Option (Result (Unit {0})) × Line R W (Message Out S) X E
  work turns n = work_with (next_message r i work_parent turns) clone t p c n
