-- ===== src/Poll/Future/Input/Trace.antt =====
-- The calls at both ends of the queue, one after another, with what each moved and whom it woke.
use areamy.Common.{
  ℕ, true, Option, List, [], ◌∷◌, ◌++◌, ◌≡◌, ◌∙◌, sym, ap, refl, ◌⊎◌, inl, inr, is_empty,
  is_empty-append, Bool-cases, append-nil, append_assoc, arith,
}
use areamy.Error.{Result, ok, err}
use areamy.Poll.Node.{Accept, accepted, full}
use areamy.Wake.{Waker}
use areamy.Poll.Future.{
  Woken, parks, woken_in, phase_in, awake-woken, woken_in-append, phase_in-append, parks-park,
}
use areamy.Poll.Future.Input.{
  Item, data', flush, Queue, Taken, resolved, parked, new_input, try_send, send_flush, ended, renew,
  poll_take,
}

pub data Call {ℓ} (T : Type ℓ) : Type ℓ where
  sends : T → Call T
  flushes : Call T
  takes : Waker → Call T

pub record Effect {ℓ} (T : Type ℓ) : Type ℓ where
  pub queue : Queue T
  pub queued : List (Item T)
  pub taken : List (Item T)
  pub woken : List Woken

module _ {ℓ} {T : Type ℓ} (home : Waker) where
  abbrev landed : Accept T → T → List (Item T)
  landed accepted item = data' item ∷ []
  landed (full r) item = []

  abbrev given : Taken T → List (Item T)
  given (resolved (ok item)) = item ∷ []
  given (resolved (err e)) = []
  given parked = []

  pub call : Queue T → Call T → Effect T
  unfolding try_send send_flush poll_take
  call q (sends item) =
      let (r, q', ws) = try_send q item in
      record { queue = q'; queued = landed r item; taken = []; woken = ws }
  call q flushes =
      let (q', ws) = send_flush q in
      record { queue = q'; queued = flush ∷ []; taken = []; woken = ws }
  call q (takes waker) =
      let (r, q', ws) = poll_take q waker home in
      record { queue = q'; queued = []; taken = given r; woken = ws }

  unfoldable pub run : Queue T → List (Call T) → Effect T
  unfolding call
  run q [] = record { queue = q; queued = []; taken = []; woken = [] }
  run q (c ∷ cs) =
      let first = call q c in
      let rest = run first.queue cs in
      record {
        queue = rest.queue;
        queued = first.queued ++ rest.queued;
        taken = first.taken ++ rest.taken;
        woken = first.woken ++ rest.woken;
      }

  call-fifo :
      (q : Queue T) (c : Call T)
      → q.buffer ++ (call q c).queued ≡ (call q c).taken ++ (call q c).queue.buffer
  unfolding call
  call-fifo q (sends item) = ground (arith, append-nil q.buffer)
  call-fifo q flushes = refl
  call-fifo q (takes waker) = ground (arith, append-nil q.buffer)

  call-refused :
      (q : Queue T) (c : Call T)
      → q.refused ≡ true
      → (((call q c).queue.refused ≡ true) × (is_empty (call q c).taken ≡ true))
        ⊎ (phase_in (call q c).woken ≡ true)
  unfolding call
  call-refused q (sends item) a = ground (arith, a)
  call-refused q flushes a = inl (a, refl)
  call-refused q (takes waker) a = ground (arith, a)

  call-parks :
      (q : Queue T) (c : Call T) (w : Waker)
      → parks home q.waiters w ≡ true
      → ((parks home (call q c).queue.waiters w ≡ true) × (is_empty (call q c).queued ≡ true))
        ⊎ (woken_in home w (call q c).woken ≡ true)
  unfolding call
  call-parks q (sends item) w p = ground (arith, p, awake-woken home q.waiters w p)
  call-parks q flushes w p = inr (awake-woken home q.waiters w p)
  call-parks q (takes waker) w p = ground (arith, p, parks-park home q.waiters waker w p)

  -- Over any calls at both ends of an input queue, what was queued before and since is what was
  -- taken and what is queued still, in order.
  pub input-fifo :
      (q : Queue T) (cs : List (Call T))
      → q.buffer ++ (run q cs).queued ≡ (run q cs).taken ++ (run q cs).queue.buffer
  unfolding run
  input-fifo q [] = append-nil q.buffer
  input-fifo q (c ∷ cs) =
      let first = call q c in
      let rest = run first.queue cs in
      sym (append_assoc q.buffer first.queued rest.queued)
      ∙ ap (λ b. b ++ rest.queued) (call-fifo q c)
      ∙ append_assoc first.taken first.queue.buffer rest.queued
      ∙ ap (λ b. first.taken ++ b) (input-fifo first.queue cs)
      ∙ sym (append_assoc first.taken rest.taken rest.queue.buffer)

  -- Once an item was refused, over any calls: Input is woken, or it is owed that wake still and
  -- nothing was taken from the queue.
  input-refused :
      (q : Queue T) (cs : List (Call T))
      → q.refused ≡ true
      → (((run q cs).queue.refused ≡ true) × (is_empty (run q cs).taken ≡ true))
        ⊎ (phase_in (run q cs).woken ≡ true)
  unfolding run
  input-refused q [] a = inl (a, refl)
  input-refused q (c ∷ cs) a = elim (call-refused q c a) [
    | inr w ↦ inr (phase_in-append (call q c).woken (run (call q c).queue cs).woken ∙ rw w)
    | inl (a', e) ↦ elim (input-refused (call q c).queue cs a') [
      | inr w ↦
          inr (phase_in-append (call q c).woken (run (call q c).queue cs).woken ∙ ground (arith, w))
      | inl (a'', e') ↦ inl (a'', is_empty-append _ _ e e')
    ]
  ]

  -- A future that is parked on an empty queue, over any calls: it is woken, or it is parked still and
  -- nothing was queued.
  input-parks :
      (q : Queue T) (cs : List (Call T)) (w : Waker)
      → parks home q.waiters w ≡ true
      → ((parks home (run q cs).queue.waiters w ≡ true) × (is_empty (run q cs).queued ≡ true))
        ⊎ (woken_in home w (run q cs).woken ≡ true)
  unfolding run
  input-parks q [] w p = inl (p, refl)
  input-parks q (c ∷ cs) w p = elim (call-parks q c w p) [
    | inr k ↦ inr (woken_in-append home w (call q c).woken (run (call q c).queue cs).woken ∙ rw k)
    | inl (p', e) ↦ elim (input-parks (call q c).queue cs w p') [
      | inr k ↦ inr (
          woken_in-append home w (call q c).woken (run (call q c).queue cs).woken
          ∙ ground (arith, k))
      | inl (p'', e') ↦ inl (p'', is_empty-append _ _ e e')
    ]
  ]

  call-bound : (q : Queue T) (c : Call T) → (call q c).queue.bound ≡ q.bound
  unfolding call
  call-bound q (sends item) = ground arith
  call-bound q flushes = refl
  call-bound q (takes waker) = ground arith

  run-bound : (q : Queue T) (cs : List (Call T)) → (run q cs).queue.bound ≡ q.bound
  unfolding run
  run-bound q [] = refl
  run-bound q (c ∷ cs) = run-bound (call q c).queue cs ∙ call-bound q c

  is_empty-nil : (xs : List (Item T)) → is_empty xs ≡ true → xs ≡ []
  is_empty-nil [] e = refl
  is_empty-nil (x ∷ xs) e = cc

  ended-empty : (q : Queue T) (u : Unit {0}) → ended q ≡ ok u → q.buffer ≡ []
  unfolding ended
  ended-empty q u e = elim (Bool-cases (is_empty q.buffer)) [
    | inl h ↦ is_empty-nil q.buffer h
    | inr h ↦ ground (arith, e, h)
  ]

  renew-ended :
      (q q' : Queue T) (r : Result (Unit {0}))
      → ended q ≡ r
      → elim r as (λ x. Result (Queue T)) [ ok u ↦ ok (new_input q.bound) | err e ↦ err e ] ≡ ok q'
      → (q.buffer ≡ []) × (q' ≡ new_input q.bound)
  renew-ended q q' (ok u) e h = (ended-empty q u e, ground (arith, h))
  renew-ended q q' (err x) e h = ground (arith, h)

  -- A segment: a new queue, then any calls. If it can be renewed, the future took everything that was
  -- sent, in order, and the next segment's queue is a new one of the same bound.
  pub input-renew :
      (bound : Option ℕ) (cs : List (Call T)) (q : Queue T)
      → renew (run (new_input bound) cs).queue ≡ ok q
      → ((run (new_input bound) cs).queued ≡ (run (new_input bound) cs).taken)
        × (q ≡ new_input bound)
  unfolding renew new_input
  input-renew bound cs q e =
      let (empty, same) = renew-ended (run (new_input bound) cs).queue q _ refl e in
      (
        input-fifo (new_input bound) cs
            ∙ ap (λ b. (run (new_input bound) cs).taken ++ b) empty
            ∙ append-nil _,
        same ∙ ap new_input (run-bound (new_input bound) cs),
      )
