-- ===== src/Poll/Future/Input.antt =====
-- poll/future/input/ (shared.rs, sender.rs, receiver.rs): the queue from a node's Input phase to
-- its future. Receiving with a timeout and reentrant borrows are left out. `renew` swaps in a queue
-- as `new` makes it, or resets the old one to that when no receiver is left on it; to the sender
-- and the new receiver both are one.
pub mod Trace
use areamy.Common.{
  ℕ, Bool, true, false, Option, none, some, List, [], ◌∷◌, ◌++◌, leb, length, if◌then◌else◌, ◌≡◌,
  ◌∙◌, sym, ap, refl, ◌⊎◌, inl, inr, is_empty, is_empty-append, Bool-cases, append-nil,
  append_assoc, arith,
}
use areamy.Error.{fatal, closed, Result, ok, err}
use areamy.Poll.Node.{Accept, accepted, full}
use areamy.Wake.{Waker}
use areamy.Poll.Future.{
  Waiters, Woken, phase, nobody, park, awake, parks, woken_in, phase_in, awake-woken,
  woken_in-append, phase_in-append, parks-park,
}

-- `Input`
pub data Item {ℓ} (T : Type ℓ) : Type ℓ where
  data' : T → Item T
  flush : Item T

pub record Queue {ℓ} (T : Type ℓ) : Type ℓ where
  pub buffer : List (Item T)
  pub bound : Option ℕ
  pub is_closed : Bool
  pub refused : Bool
  pub waiters : Waiters

-- How a poll of a receiving future ends.
pub data Taken {ℓ} (T : Type ℓ) : Type ℓ where
  resolved : Result (Item T) → Taken T
  parked : Taken T

abbrev is_flush {ℓ} : {T : Type ℓ} → Item T → Bool
is_flush (data' d) = false
is_flush flush = true

module _ {ℓ} {T : Type ℓ} where
  unfoldable pub new_input : Option ℕ → Queue T
  new_input bound = record {
    buffer = [];
    bound = bound;
    is_closed = false;
    refused = false;
    waiters = nobody;
  }

  abbrev pub at_bound : Queue T → Bool
  at_bound q = elim q.bound [ none ↦ false | some b ↦ leb b (length q.buffer) ]

  -- `Sender::try_send`
  pub try_send : Queue T → T → Accept T × Queue T × List Woken
  try_send q item = if at_bound q then (full item, record q { refused = true }, []) else (
    accepted,
    record q { buffer = q.buffer ++ data' item ∷ []; waiters = nobody },
    awake q.waiters,
  )

  -- `Sender::flush`
  pub send_flush : Queue T → Queue T × List Woken
  send_flush q = (record q { buffer = q.buffer ++ flush ∷ []; waiters = nobody }, awake q.waiters)

  -- `Sender::ended`
  pub ended : Queue T → Result (Unit {0})
  ended q =
      if is_empty q.buffer
      then (if q.is_closed
          then ok tt
          else err (
              fatal
                "input queue not closed at segment end — future returned without receiving Flush"))
      else err (
          fatal
            "input queue still has items at segment end — future returned without draining input")

  -- `Sender::renew`
  unfoldable pub renew : Queue T → Result (Queue T)
  unfolding ended new_input
  renew q = elim (ended q) [ ok u ↦ ok (new_input q.bound) | err e ↦ err e ]

  -- `Receiver::poll_take`
  pub poll_take : Queue T → Waker → Waker → Taken T × Queue T × List Woken
  poll_take q waker home = if q.is_closed then (resolved (err closed), q, []) else elim q.buffer [
    | [] ↦ (parked, record q { waiters = park q.waiters waker home }, [])
    | item ∷ rest ↦ (
      resolved (ok item),
      record q { buffer = rest; is_closed = is_flush item; refused = false },
      if q.refused then phase ∷ [] else [],
    )
  ]
