-- ===== src/Poll/Edge/Trace.antt =====
-- The calls at the two ends of an edge, one after another, with what each moved and whom it woke.
mod Tests
use mathlib.Core.List.{mem-append_left, mem-append_right}
use areamy.Common.{
  ℕ, ◌≤◌, ◌≡◌, ◌∙◌, refl, sym, ap, ◌⊎◌, inl, inr, Bool, true, false, Option, none, some, List, [],
  ◌∷◌, ◌++◌, Mem, arith, length, length-append, is_empty, is_empty-append, append-nil, append_assoc,
  if◌then◌else◌, is_some, All,
}
use areamy.Error.{Result, ok, err}
use areamy.Graph.{TryPush, pushed, full, stuck}
use areamy.Wake.{Waker}
use areamy.Poll.Edge.{
  Shared, Woken, consumer, producer_by, channel, sender_close, try_push, schedule, receiver_close,
  try_recv, is_full,
}

pub data Call {ℓ} (M : Type ℓ) : Type ℓ where
  pushes : M → Call M
  schedules : Waker → Call M
  receives sender_closes receiver_closes : Call M

pub record Effect {ℓ} (M : Type ℓ) : Type ℓ where
  pub shared : Shared M
  pub accepted : List M
  pub taken : List M
  pub woken : List Woken

-- Whether a list wakes the producer, and the consumer.
abbrev pub for_producer : List Woken → Bool
for_producer [] = false
for_producer (consumer ∷ ws) = for_producer ws
for_producer (producer_by w ∷ ws) = true

abbrev pub for_consumer : List Woken → Bool
for_consumer [] = false
for_consumer (consumer ∷ ws) = true
for_consumer (producer_by w ∷ ws) = for_consumer ws

for_producer-append :
    (us vs : List Woken)
    → for_producer (us ++ vs) ≡ (if for_producer us then true else for_producer vs)
for_producer-append [] vs = refl
for_producer-append (consumer ∷ us) vs = for_producer-append us vs
for_producer-append (producer_by w ∷ us) vs = refl

for_consumer-append :
    (us vs : List Woken)
    → for_consumer (us ++ vs) ≡ (if for_consumer us then true else for_consumer vs)
for_consumer-append [] vs = refl
for_consumer-append (consumer ∷ us) vs = refl
for_consumer-append (producer_by w ∷ us) vs = for_consumer-append us vs

module _ {ℓ} {M : Type ℓ} where
  abbrev landed : Result (TryPush M) → M → List M
  landed (ok pushed) m = m ∷ []
  landed (ok (full r)) m = []
  landed (ok (stuck r)) m = []
  landed (err e) m = []

  abbrev popped : Result (Option M) → List M
  popped (ok none) = []
  popped (ok (some m)) = m ∷ []
  popped (err e) = []

  pub call : Shared M → Call M → Effect M
  unfolding try_push sender_close schedule receiver_close try_recv
  call s (pushes m) =
      let (r, s', ws) = try_push s m in
      record { shared = s'; accepted = landed r m; taken = []; woken = ws }
  call s (schedules w) = record { shared = schedule s w; accepted = []; taken = []; woken = [] }
  call s receives =
      let (r, s', ws) = try_recv s in
      record { shared = s'; accepted = []; taken = popped r; woken = ws }
  call s sender_closes =
      let (s', ws) = sender_close s in record { shared = s'; accepted = []; taken = []; woken = ws }
  call s receiver_closes =
      let (s', ws) = receiver_close s in
      record { shared = s'; accepted = []; taken = []; woken = ws }

  pub run : Shared M → List (Call M) → Effect M
  unfolding call
  run s [] = record { shared = s; accepted = []; taken = []; woken = [] }
  run s (c ∷ cs) =
      let first = call s c in
      let rest = run first.shared cs in
      record {
        shared = rest.shared;
        accepted = first.accepted ++ rest.accepted;
        taken = first.taken ++ rest.taken;
        woken = first.woken ++ rest.woken;
      }

  -- The buffer is within the bound, if there is one.
  abbrev Fits : Shared M → Type 0
  Fits s = (b : ℕ) → s.bound ≡ some b → length s.buffer ≤ b

  call-fifo :
      (s : Shared M) (c : Call M)
      → s.buffer ++ (call s c).accepted ≡ (call s c).taken ++ (call s c).shared.buffer
  unfolding call
  call-fifo s c = ground (arith, append-nil s.buffer)

  call-Fits : (s : Shared M) (c : Call M) → Fits s → Fits (call s c).shared
  unfolding call
  call-Fits s (pushes m) f b e = ground (arith, f b, length-append s.buffer (m ∷ []))
  call-Fits s c f b e = ground (arith, f b)

  call-bound : (s : Shared M) (c : Call M) → (call s c).shared.bound ≡ s.bound
  unfolding call
  call-bound s c = ground arith

  run-fifo :
      (s : Shared M) (cs : List (Call M))
      → s.buffer ++ (run s cs).accepted ≡ (run s cs).taken ++ (run s cs).shared.buffer
  unfolding run
  run-fifo s [] = append-nil s.buffer
  run-fifo s (c ∷ cs) =
      let first = call s c in
      let rest = run first.shared cs in
      sym (append_assoc s.buffer first.accepted rest.accepted)
      ∙ ap (λ b. b ++ rest.accepted) (call-fifo s c)
      ∙ append_assoc first.taken first.shared.buffer rest.accepted
      ∙ ap (λ b. first.taken ++ b) (run-fifo first.shared cs)
      ∙ sym (append_assoc first.taken rest.taken rest.shared.buffer)

  run-Fits : (s : Shared M) (cs : List (Call M)) → Fits s → Fits (run s cs).shared
  unfolding run
  run-Fits s [] f = f
  run-Fits s (c ∷ cs) f = run-Fits (call s c).shared cs (call-Fits s c f)

  run-bound : (s : Shared M) (cs : List (Call M)) → (run s cs).shared.bound ≡ s.bound
  unfolding run
  run-bound s [] = refl
  run-bound s (c ∷ cs) = run-bound (call s c).shared cs ∙ call-bound s c

  -- An edge made with a bound, over any calls: what was accepted is what was taken, followed by what
  -- is queued, and no more is queued than the bound.
  pub channel-run :
      (b : ℕ) (cs : List (Call M))
      → ((run (channel (some b)) cs).accepted
          ≡ (run (channel (some b)) cs).taken ++ (run (channel (some b)) cs).shared.buffer)
        × (length (run (channel (some b)) cs).shared.buffer ≤ b)
  unfolding channel
  channel-run b cs = (run-fifo _ cs, run-Fits _ cs (λ c e. omega arith) b (run-bound _ cs))

  -- A producer that is owed a wake: it was refused, and a waker of its is scheduled.
  abbrev pub Owed : Shared M → Type 0
  Owed s = (s.refused ≡ true) × (is_some s.producer ≡ true)

  call-Owed :
      (s : Shared M) (c : Call M)
      → Owed s
      → (Owed (call s c).shared × (is_empty (call s c).taken ≡ true))
        ⊎ (for_producer (call s c).woken ≡ true)
  unfolding call
  call-Owed s c (r, p) = ground arith

  -- A producer that was refused with a waker scheduled, over any calls: it is woken, or it is still
  -- owed that wake and nothing was taken from the edge.
  pub run-Owed :
      (s : Shared M) (cs : List (Call M))
      → Owed s
      → (Owed (run s cs).shared × (is_empty (run s cs).taken ≡ true))
        ⊎ (for_producer (run s cs).woken ≡ true)
  unfolding run
  run-Owed s [] o = inl (o, refl)
  run-Owed s (c ∷ cs) o = elim (call-Owed s c o) [
    | inr w ↦ inr (for_producer-append (call s c).woken (run (call s c).shared cs).woken ∙ rw w)
    | inl (o', e) ↦ elim (run-Owed (call s c).shared cs o') [
      | inr w ↦ inr (
          for_producer-append (call s c).woken (run (call s c).shared cs).woken ∙ ground (arith, w))
      | inl (o'', e') ↦ inl (o'', is_empty-append _ _ e e')
    ]
  ]

  -- The calls that the producer makes.
  abbrev pub Produces : Call M → Type 0
  Produces (pushes m) = Unit
  Produces (schedules w) = Unit
  Produces sender_closes = Unit
  Produces receives = ⊥
  Produces receiver_closes = ⊥

  abbrev pub Quiet : Shared M → Type 0
  Quiet s = (is_empty s.buffer ≡ true) × (s.is_closed ≡ false)

  call-Quiet :
      (s : Shared M) (c : Call M)
      → Produces c
      → Quiet s
      → Quiet (call s c).shared ⊎ (for_consumer (call s c).woken ≡ true)
  unfolding call
  call-Quiet s (pushes m) p (e, o) = ground arith
  call-Quiet s (schedules w) p q = inl q
  call-Quiet s receives p q = elim p [ ]
  call-Quiet s receiver_closes p q = elim p [ ]
  call-Quiet s sender_closes p (e, o) = ground arith

  -- A consumer that found the edge open and empty, over any calls of the producer: it is woken, or
  -- the edge is still open and empty.
  run-Quiet :
      (s : Shared M) (cs : List (Call M))
      → All Produces cs
      → Quiet s
      → Quiet (run s cs).shared ⊎ (for_consumer (run s cs).woken ≡ true)
  unfolding run
  run-Quiet s [] p q = inl q
  run-Quiet s (c ∷ cs) (p, ps) q = elim (call-Quiet s c p q) [
    | inr w ↦ inr (for_consumer-append (call s c).woken (run (call s c).shared cs).woken ∙ rw w)
    | inl q' ↦ elim (run-Quiet (call s c).shared cs ps q') [
      | inr w ↦ inr (
          for_consumer-append (call s c).woken (run (call s c).shared cs).woken ∙ ground (arith, w))
      | inl q'' ↦ inl q''
    ]
  ]
