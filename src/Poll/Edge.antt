-- ===== src/Poll/Edge.antt =====
-- poll/edge/poll.rs and poll/edge/poll/ (sender.rs, receiver.rs): an edge with both ends on one
-- thread.
--
-- Wakes leave a call behind, in order, so they are the last component of a result. A reentrant
-- borrow of the buffer is left out: no borrow spans a wake.
pub mod Trace
use areamy.Common.{
  ℕ, Bool, true, false, Option, none, some, List, [], ◌∷◌, ◌++◌, if◌then◌else◌, leb, length,
}
use areamy.Wake.{Waker}
use areamy.Graph.{TryPush, pushed, full, stuck}
use areamy.Error.{closed, Result, ok, err}

pub record Shared {ℓ} (M : Type ℓ) : Type ℓ where
  pub buffer : List M
  pub bound : Option ℕ
  pub is_closed : Bool
  pub refused : Bool
  pub producer : Option Waker

-- Whom a call wakes: the consumer, or the producer by the waker that it scheduled.
pub data Woken : Type 0 where
  consumer : Woken
  producer_by : Waker → Woken

module _ {ℓ} {M : Type ℓ} where
  -- `channel`
  unfoldable pub channel : Option ℕ → Shared M
  channel bound = record {
    buffer = [];
    bound = bound;
    is_closed = false;
    refused = false;
    producer = none;
  }

  abbrev pub is_full : Shared M → Bool
  is_full s = elim s.bound [ none ↦ false | some b ↦ leb b (length s.buffer) ]

  -- `wake_producer`, which leaves it scheduled.
  abbrev pub wake_producer : Shared M → List Woken
  wake_producer s = elim s.producer [ none ↦ [] | some w ↦ producer_by w ∷ [] ]

  -- `close_and_wake`: `close` and `Drop` of the sender.
  pub sender_close : Shared M → Shared M × List Woken
  sender_close s = (record s { is_closed = true }, if s.is_closed then [] else consumer ∷ [])

  pub try_push : Shared M → M → Result (TryPush M) × Shared M × List Woken
  try_push s m =
      if s.is_closed
      then (err closed, s, [])
      else if is_full s
      then (if s.refused
          then (ok (stuck m), s, [])
          else (ok (full m), record s { refused = true }, []))
      else (ok pushed, record s { buffer = s.buffer ++ m ∷ [] }, consumer ∷ [])

  pub schedule : Shared M → Waker → Shared M
  schedule s w = record s { producer = some w }

  -- `Receiver::close`, and its `Drop`.
  pub receiver_close : Shared M → Shared M × List Woken
  receiver_close s =
      (record s { is_closed = true; refused = false }, if s.refused then wake_producer s else [])

  pub try_recv : Shared M → Result (Option M) × Shared M × List Woken
  try_recv s = elim s.buffer [
    | [] ↦ (if s.is_closed then err closed else ok none, s, [])
    | m ∷ rest ↦ (
      ok (some m),
      record s { buffer = rest; refused = false },
      if s.refused then wake_producer s else [],
    )
  ]
