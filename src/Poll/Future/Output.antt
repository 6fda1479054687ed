-- ===== src/Poll/Future/Output.antt =====
-- poll/future/output/ (shared.rs, sender.rs, receiver.rs): the queue from a node's future to its
-- Output phase. Sending with a timeout and reentrant borrows are left out.
pub mod Trace
use areamy.Common.{
  ℕ, Bool, true, false, Option, none, some, List, [], ◌∷◌, ◌++◌, leb, length, if◌then◌else◌, ◌≡◌,
  ◌∙◌, sym, ap, refl, ◌⊎◌, inl, inr, is_empty, is_empty-append, append-nil, append_assoc, arith,
}
use areamy.Error.{fatal, Result, ok, err}
use areamy.Poll.Node.{Accept, accepted, full}
use areamy.Wake.{Waker}
use areamy.Poll.Future.{
  Waiters, Woken, phase, nobody, park, awake, parks, woken_in, phase_in, awake-woken,
  woken_in-append, phase_in-append, parks-park,
}

pub record Queue {ℓ} (T : Type ℓ) : Type ℓ where
  pub buffer : List T
  pub bound : Option ℕ
  pub armed : Bool
  pub waiters : Waiters

-- How a poll of a sending future ends.
pub data Sent {ℓ} (T : Type ℓ) : Type ℓ where
  resolved : Result (Unit {0}) → Sent T
  parked : T → Sent T

module _ {ℓ} {T : Type ℓ} where
  pub new_output : Option ℕ → Queue T
  new_output bound = record { buffer = []; bound = bound; armed = true; waiters = nobody }

  abbrev pub at_bound : Queue T → Bool
  at_bound q = elim q.bound [ none ↦ false | some b ↦ leb b (length q.buffer) ]

  -- `Sender::try_send`
  pub try_send : Queue T → T → Accept T × Queue T × List Woken
  try_send q item = if at_bound q then (full item, q, []) else (
    accepted,
    record q { buffer = q.buffer ++ item ∷ []; armed = false },
    if q.armed then phase ∷ [] else [],
  )

  -- `Sender::poll_send`, on the item that the future still holds.
  sent : Waker → Waker → Accept T × Queue T × List Woken → Sent T × Queue T × List Woken
  sent waker home (accepted, q, ws) = (resolved (ok tt), q, ws)
  sent waker home (full item, q, ws) =
      (parked item, record q { waiters = park q.waiters waker home }, ws)

  pub poll_send : Queue T → Waker → Waker → Option T → Sent T × Queue T × List Woken
  unfolding try_send sent
  poll_send q waker home none = (resolved (err (fatal "send polled after it resolved")), q, [])
  poll_send q waker home (some item) = sent waker home (try_send q item)

  -- `Receiver::pop`
  pub pop : Queue T → Option T × Queue T × List Woken
  pop q = elim q.buffer [
    | [] ↦ (none, record q { armed = true }, [])
    | item ∷ rest ↦ (some item, record q { buffer = rest; waiters = nobody }, awake q.waiters)
  ]
