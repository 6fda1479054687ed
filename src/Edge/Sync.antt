-- ===== src/Edge/Sync.antt =====
-- edge/sync: a queue behind a lock, with any number of senders and one receiver.
--
-- Each function is one critical section. Notifications and wakes leave the lock behind, so they
-- are the last component of a result, in order. A call that waits on a condition variable ends in
-- `parked`, and the thread goes on by the function's `_woken` part once it is woken. The edge
-- never looks into a message, so all is generic in the type of messages. Left out: a poisoned
-- lock, which needs a panic inside a critical section, and the spare vector `scratch`, which is
-- always empty and only saves an allocation.
pub mod Trace
pub mod Threads
pub mod States
use areamy.Common.{
  ℕ, ◌+◌, ◌-◌, ◌%◌, ◌^◌, Bool, true, false, not, ◌&&◌, ◌||◌, Option, none, some, List, [], ◌∷◌,
  ◌++◌, map, if◌then◌else◌, leb, ltb, ◌==◌, length,
}
use areamy.Wake.{Waker}
use areamy.Graph.{TryPush, pushed, full, stuck}
use areamy.Error.{Error, closed, Result, ok, err}

pub data Freed : Type 0 where
  one all : Freed

pub data State : Type 0 where
  ready idle exhausted : State

pub record Inner {ℓ} (M : Type ℓ) : Type ℓ where
  pub buffer : List M
  pub is_closed : Bool
  pub consumer_waiting : Bool
  pub bound : Option ℕ
  pub producers_waiting : ℕ
  pub progress : ℕ
  pub refused : List Waker

pub record Shared {ℓ} (M : Type ℓ) : Type ℓ where
  pub inner : Inner M
  pub open inner use *
  pub producer_count : ℕ

-- A sender's own fields.
pub record Sender : Type 0 where
  pub refused_at : Option ℕ
  pub waker : Option Waker
  pub released : Bool

-- What happens after the lock is released: a condition variable is notified, a waker woken.
pub data Notice : Type 0 where
  not_empty_one not_empty_all not_full_one not_full_all : Notice
  wake : Waker → Notice

abbrev pub u64 : ℕ → ℕ
u64 n = n % 2 ^ 64

pub schedule : Sender → Waker → Sender
schedule h w =
    if elim h.waker [ none ↦ false | some v ↦ v == w ]
    then h
    else record h { waker = some w; refused_at = none }

abbrev freed_notice : Freed → Notice
freed_notice one = not_full_one
freed_notice all = not_full_all

module _ {ℓ} {M : Type ℓ} where
  abbrev pub is_full : Inner M → Bool
  is_full s = elim s.bound [ none ↦ false | some b ↦ leb b (length s.buffer) ]

  pub with_bound : Option ℕ → Shared M
  with_bound bound = record {
    inner = record {
      buffer = [];
      is_closed = false;
      consumer_waiting = false;
      bound = bound;
      producers_waiting = 0;
      progress = 0;
      refused = [];
    };
    producer_count = 0;
  }

  -- `close` and `close_infallible`.
  pub close : Shared M → Shared M × List Notice
  close s = (
    record s { inner = record s.inner { is_closed = true; refused = [] } },
    not_empty_all ∷ not_full_all ∷ map wake s.refused,
  )

  pub sender : Shared M → Shared M × Sender
  sender s = (
    record s { producer_count = s.producer_count + 1 },
    record { refused_at = none; waker = none; released = false },
  )

  pub clone : Shared M → Sender → Shared M × Sender
  clone s h = (
    if h.released then s else record s { producer_count = s.producer_count + 1 },
    record { refused_at = none; waker = none; released = h.released },
  )

  -- `release`: true when this was the last producer. `close` and `Drop` of a sender.
  release : Shared M → Sender → Shared M × Sender × Bool
  release s h = if h.released then (s, h, false) else (
    record s { producer_count = s.producer_count - 1 },
    record h { released = true },
    s.producer_count == 1,
  )

  pub sender_close : Shared M → Sender → Shared M × Sender × List Notice
  unfolding release close
  sender_close s h =
      let (s', h', last) = release s h in
      if last then (let (s'', ns) = close s' in (s'', h', ns)) else (s', h', [])

  -- `wake_consumer`.
  unfoldable pub wake_consumer : Shared M → Shared M × List Notice
  wake_consumer s = (
    record s { inner = record s.inner { consumer_waiting = false } },
    if s.consumer_waiting then not_empty_one ∷ [] else [],
  )

  -- `push_back` on the buffer, then `wake_consumer`.
  unfoldable pub enqueue : Shared M → M → Shared M × List Notice
  unfolding wake_consumer
  enqueue s m = wake_consumer (record s { inner = record s.inner { buffer = s.buffer ++ m ∷ [] } })

  pub try_push_back : Shared M → Sender → M → Result (TryPush M) × Shared M × Sender × List Notice
  unfolding enqueue
  try_push_back s h m =
      if h.released
      then (err closed, s, h, [])
      else if s.is_closed
      then (err closed, s, h, [])
      else if is_full s.inner
      then (if elim h.refused_at [ none ↦ false | some p ↦ p == s.progress ]
          then (ok (stuck m), s, h, [])
          else (
            ok (full m),
            record s {
              inner = record s.inner {
                refused = elim h.waker [ none ↦ s.refused | some w ↦ s.refused ++ w ∷ [] ];
              };
            },
            record h { refused_at = some s.progress },
            [],
          ))
      else (let (s', ns) = enqueue s m in (ok pushed, s', h, ns))

-- A call that may wait on a condition variable.
pub data Blocking {ℓ κ} (A : Type ℓ) (M : Type κ) : Type (ℓ ⊔ κ) where
  done : A → Shared M → List Notice → Blocking A M
  parked : Shared M → Blocking A M

module _ {ℓ} {M : Type ℓ} where
  abbrev must_wait : Shared M → Bool
  must_wait s = is_full s.inner && not s.is_closed

  unfoldable pub push_open : Shared M → M → Blocking (Result (Unit {0})) M
  unfolding enqueue
  push_open s m =
      if s.is_closed
      then done (err closed) s []
      else (let (s', ns) = enqueue s m in done (ok tt) s' ns)

  -- `push_back` up to its wait, and the rest of it, run when `not_full` wakes the thread.
  unfoldable pub push_back : Shared M → Sender → M → Blocking (Result (Unit {0})) M
  unfolding push_open
  push_back s h m =
      if h.released
      then done (err closed) s []
      else if must_wait s
      then parked
          (record s { inner = record s.inner { producers_waiting = s.producers_waiting + 1 } })
      else push_open s m

  pub push_back_woken : Shared M → M → Blocking (Result (Unit {0})) M
  unfolding push_open
  push_back_woken s m =
      if must_wait s
      then parked s
      else push_open
          (record s { inner = record s.inner { producers_waiting = s.producers_waiting - 1 } }) m

  abbrev pub no_producer : Shared M → Bool
  no_producer s = s.is_closed || s.producer_count == 0

  unfoldable pub state : Shared M → State
  state s = elim s.buffer [ [] ↦ if no_producer s then exhausted else idle | m ∷ ms ↦ ready ]

  -- `drained`, `drained_refused` and `notify_producers`.
  drained : Shared M → Freed → Shared M × List Notice
  drained s freed = (
    record s { inner = record s.inner { progress = u64 (s.progress + 1); refused = [] } },
    (if ltb 0 s.producers_waiting then freed_notice freed ∷ [] else []) ++ map wake s.refused,
  )

  abbrev pub pop_front : Shared M → List M → Shared M
  pop_front s rest = record s { inner = record s.inner { buffer = rest } }

  -- `wait_nonempty` on an empty buffer; a wakeup runs the reading call again.
  wait_empty {κ} : {A : Type κ} → Shared M → Blocking (Result A) M
  wait_empty s =
      if no_producer s
      then done (err closed) s []
      else parked (record s { inner = record s.inner { consumer_waiting = true } })

  pub read_front : Shared M → Blocking (Result M) M
  unfolding wait_empty drained
  read_front s = elim s.buffer [
    | [] ↦ wait_empty s
    | m ∷ rest ↦ let (s', ns) = drained (pop_front s rest) one in done (ok m) s' ns
  ]

  pub read_all : Shared M → Blocking (Result (List M)) M
  unfolding wait_empty drained
  read_all s = elim s.buffer [
    | [] ↦ wait_empty s
    | m ∷ rest ↦ let (s', ns) = drained (pop_front s []) all in done (ok (m ∷ rest)) s' ns
  ]

  pub wait_front : Shared M → Blocking (Result (Unit {0})) M
  unfolding wait_empty
  wait_front s = elim s.buffer [ [] ↦ wait_empty s | m ∷ rest ↦ done (ok tt) s [] ]

  pub poll : Shared M → Result (Option M) × Shared M × List Notice
  unfolding drained
  poll s = elim s.buffer [
    | [] ↦ (if s.is_closed then err closed else ok none, s, [])
    | m ∷ rest ↦ let (s', ns) = drained (pop_front s rest) one in (ok (some m), s', ns)
  ]

  pub try_pop : Shared M → Result (Option M) × Shared M × List Notice
  unfolding drained
  try_pop s = elim s.buffer [
    | [] ↦ (if no_producer s then err closed else ok none, s, [])
    | m ∷ rest ↦ let (s', ns) = drained (pop_front s rest) one in (ok (some m), s', ns)
  ]
