-- ===== src/Poll/Future/Output/Trace.antt =====
-- The calls at both ends of the queue, one after another, with what each moved and whom it woke.
use areamy.Common.{
  true, Option, none, some, List, [], ◌∷◌, ◌++◌, ◌≡◌, ◌∙◌, sym, ap, refl, ◌⊎◌, inl, inr, is_empty,
  is_empty-append, append-nil, append_assoc, arith,
}
use areamy.Error.{ok}
use areamy.Poll.Node.{Accept, accepted, full}
use areamy.Wake.{Waker}
use areamy.Poll.Future.{
  Woken, parks, woken_in, phase_in, awake-woken, woken_in-append, phase_in-append, parks-park,
}
use areamy.Poll.Future.Output.{Queue, Sent, resolved, try_send, poll_send, pop}

pub data Call {ℓ} (T : Type ℓ) : Type ℓ where
  sends : T → Call T
  polls : Waker → Option T → Call T
  pops : Call T

pub record Effect {ℓ} (T : Type ℓ) : Type ℓ where
  pub queue : Queue T
  pub queued : List T
  pub taken : List T
  pub woken : List Woken

module _ {ℓ} {T : Type ℓ} (home : Waker) where
  abbrev landed : Accept T → T → List T
  landed accepted item = item ∷ []
  landed (full r) item = []

  abbrev landed_poll : Sent T → Option T → List T
  landed_poll (resolved (ok u)) (some item) = item ∷ []
  landed_poll s item = []

  abbrev popped : Option T → List T
  popped none = []
  popped (some item) = item ∷ []

  pub call : Queue T → Call T → Effect T
  unfolding try_send poll_send pop
  call q (sends item) =
      let (r, q', ws) = try_send q item in
      record { queue = q'; queued = landed r item; taken = []; woken = ws }
  call q (polls waker item) =
      let (r, q', ws) = poll_send q waker home item in
      record { queue = q'; queued = landed_poll r item; taken = []; woken = ws }
  call q pops =
      let (r, q', ws) = pop q in record { queue = q'; queued = []; taken = popped r; woken = ws }

  pub run : Queue T → List (Call T) → Effect T
  unfolding call
  run q [] = record { queue = q; queued = []; taken = []; woken = [] }
  run q (c ∷ cs) =
      let first = call q c in
      let rest = run first.queue cs in
      record {
        queue = rest.queue;
        queued = first.queued ++ rest.queued;
        taken = first.taken ++ rest.taken;
        woken = first.woken ++ rest.woken;
      }

  call-fifo :
      (q : Queue T) (c : Call T)
      → q.buffer ++ (call q c).queued ≡ (call q c).taken ++ (call q c).queue.buffer
  unfolding call
  call-fifo q (sends item) = ground (arith, append-nil q.buffer)
  call-fifo q (polls waker none) = append-nil q.buffer
  call-fifo q (polls waker (some item)) = ground (arith, append-nil q.buffer)
  call-fifo q pops = ground (arith, append-nil q.buffer)

  call-armed :
      (q : Queue T) (c : Call T)
      → q.armed ≡ true
      → (((call q c).queue.armed ≡ true) × (is_empty (call q c).queued ≡ true))
        ⊎ (phase_in (call q c).woken ≡ true)
  unfolding call
  call-armed q (sends item) a = ground (arith, a)
  call-armed q (polls waker none) a = inl (a, refl)
  call-armed q (polls waker (some item)) a = ground (arith, a)
  call-armed q pops a = ground (arith, a)

  call-parks :
      (q : Queue T) (c : Call T) (w : Waker)
      → parks home q.waiters w ≡ true
      → ((parks home (call q c).queue.waiters w ≡ true) × (is_empty (call q c).taken ≡ true))
        ⊎ (woken_in home w (call q c).woken ≡ true)
  unfolding call
  call-parks q (sends item) w p = ground (arith, p)
  call-parks q (polls waker none) w p = inl (p, refl)
  call-parks q (polls waker (some item)) w p =
      ground (arith, p, parks-park home q.waiters waker w p)
  call-parks q pops w p = ground (arith, p, awake-woken home q.waiters w p)

  -- Over any calls at both ends of an output queue, what was queued before and since is what was
  -- taken and what is queued still, in order.
  pub output-fifo :
      (q : Queue T) (cs : List (Call T))
      → q.buffer ++ (run q cs).queued ≡ (run q cs).taken ++ (run q cs).queue.buffer
  unfolding run
  output-fifo q [] = append-nil q.buffer
  output-fifo q (c ∷ cs) =
      let first = call q c in
      let rest = run first.queue cs in
      sym (append_assoc q.buffer first.queued rest.queued)
      ∙ ap (λ b. b ++ rest.queued) (call-fifo q c)
      ∙ append_assoc first.taken first.queue.buffer rest.queued
      ∙ ap (λ b. first.taken ++ b) (output-fifo first.queue cs)
      ∙ sym (append_assoc first.taken rest.taken rest.queue.buffer)

  -- Once a pop found the queue empty, over any calls: Output is woken, or nothing was queued and the
  -- next item that is will wake it.
  output-armed :
      (q : Queue T) (cs : List (Call T))
      → q.armed ≡ true
      → (((run q cs).queue.armed ≡ true) × (is_empty (run q cs).queued ≡ true))
        ⊎ (phase_in (run q cs).woken ≡ true)
  unfolding run
  output-armed q [] a = inl (a, refl)
  output-armed q (c ∷ cs) a = elim (call-armed q c a) [
    | inr w ↦ inr (phase_in-append (call q c).woken (run (call q c).queue cs).woken ∙ rw w)
    | inl (a', e) ↦ elim (output-armed (call q c).queue cs a') [
      | inr w ↦
          inr (phase_in-append (call q c).woken (run (call q c).queue cs).woken ∙ ground (arith, w))
      | inl (a'', e') ↦ inl (a'', is_empty-append _ _ e e')
    ]
  ]

  -- A future that is parked on a full queue, over any calls: it is woken, or it is parked still and
  -- nothing was taken from the queue.
  pub output-parks :
      (q : Queue T) (cs : List (Call T)) (w : Waker)
      → parks home q.waiters w ≡ true
      → ((parks home (run q cs).queue.waiters w ≡ true) × (is_empty (run q cs).taken ≡ true))
        ⊎ (woken_in home w (run q cs).woken ≡ true)
  unfolding run
  output-parks q [] w p = inl (p, refl)
  output-parks q (c ∷ cs) w p = elim (call-parks q c w p) [
    | inr k ↦ inr (woken_in-append home w (call q c).woken (run (call q c).queue cs).woken ∙ rw k)
    | inl (p', e) ↦ elim (output-parks (call q c).queue cs w p') [
      | inr k ↦ inr (
          woken_in-append home w (call q c).woken (run (call q c).queue cs).woken
          ∙ ground (arith, k))
      | inl (p'', e') ↦ inl (p'', is_empty-append _ _ e e')
    ]
  ]
