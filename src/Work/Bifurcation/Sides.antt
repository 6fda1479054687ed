-- ===== src/Work/Bifurcation/Sides.antt =====
-- A side's part of a round delivers what it was to put out, in order.
use areamy.Common.{
  Bool, true, false, Option, none, some, List, [], ◌∷◌, ◌++◌, ◌≡◌, refl, sym, ◌∙◌, ap, subst,
  append-nil, append_assoc, ◌⊎◌, inl, inr, map,
}
use areamy.Error.{Error, Result, ok, err}
use areamy.Message.{Message, data'}
use areamy.Graph.{TryPushable, Pushable}
use areamy.Edge.Fanout.{Fanout, Rotation, rotate_from, resume}
use areamy.Edge.Fanout.Delivery.{Answers, Takes}
use areamy.Edge.Fanout.Delivery.Carries.{gives, Carries, rotate_from-Carries, resume-Carries}
use areamy.Work.Node.Stream.{NextOf, owed, leaving}
use areamy.Work.Bifurcation.{Half, busy, push_out, push_pending, push_next, side_round}

module _ {ℓ} {R Out S E : Type ℓ} (owes : R → List Out) where
  -- Nothing is held, owed or pending.
  pub record IsIdle (h : Half R E (Message Out S)) : Type ℓ where
    pub nothing_held : h.outputs.suspended ≡ none
    pub drained : owes h.routine ≡ []
    pub no_signal : h.pending ≡ none

module _ {ℓ} {R Out S E : Type ℓ} (owes : R → List Out) (clone : Message Out S → Message Out S)
    (log : E → List (Message Out S)) (base : List (List (Message Out S))) where
  -- The outputs took a `sent`, and the side's stream is `all`; if the side was idle, so it is now.
  abbrev pub Delivers : List (Message Out S) → Result Bool × Half R E (Message Out S) → Type ℓ
  Delivers all (ok true, h) =
      (sent : List (Message Out S)) × Carries clone log base sent h.outputs
      × (leaving owes sent h.routine h.pending ≡ all)
  Delivers all (ok false, h) =
      (sent : List (Message Out S)) × Carries clone log base sent h.outputs
      × (leaving owes sent h.routine h.pending ≡ all)
      × IsIdle owes h
  Delivers all (err e, h) = Unit

  module _ (next : R → Result (Option Out) × R) (t : TryPushable E (Message Out S))
      (p : Pushable E (Message Out S)) (next_law : (x : R) → NextOf owes x (next x))
      (law : (e : E) (m : Message Out S) → Answers log e m (t.try_push e m))
      (p_law : (e : E) (m : Message Out S) → Takes log e m (p.push e m)) where
    busy-Delivers :
        (all sent : List (Message Out S)) (h : Half R E (Message Out S))
        (x : Result Rotation × Fanout E (Message Out S))
        → ((e : Error) × (x.0 ≡ err e)) ⊎ Carries clone log base sent x.1
        → leaving owes sent h.routine h.pending ≡ all
        → Delivers all (busy next clone t p h x)
    unfolding busy
    busy-Delivers all sent h (ok a, f) (inl (e, x)) k = cc
    busy-Delivers all sent h (ok a, f) (inr c) k = (sent, c, k)
    busy-Delivers all sent h (err e, f) c k = tt

    push_out-Delivers :
        (all sent : List (Message Out S)) (m : Message Out S) (h : Half R E (Message Out S))
        → h.outputs.suspended ≡ none
        → map log h.outputs.edges ≡ gives clone sent base
        → leaving owes (sent ++ m ∷ []) h.routine h.pending ≡ all
        → Delivers all (push_out next clone t p m h)
    unfolding push_out
    push_out-Delivers all sent m h e g k =
        busy-Delivers all (sent ++ m ∷ []) h (rotate_from clone t h.outputs 0 m)
          (rotate_from-Carries clone log base t p law p_law sent h.outputs m e g) k

    push_pending-Delivers :
        (sent : List (Message Out S)) (o : Option (Message Out S)) (h : Half R E (Message Out S))
        → h.pending ≡ o
        → owes h.routine ≡ []
        → h.outputs.suspended ≡ none
        → map log h.outputs.edges ≡ gives clone sent base
        → Delivers (leaving owes sent h.routine h.pending) (push_pending next clone t p o h)
    unfolding push_pending
    push_pending-Delivers sent (some m) h x d e g =
        push_out-Delivers _ sent m (record h { pending = none }) e g
          (rw (x, d, append-nil (sent ++ m ∷ [])))
    push_pending-Delivers sent none h x d e g =
        (sent, inl (e, g), refl, record { nothing_held = e; drained = d; no_signal = x })

    push_next-Delivers :
        (sent : List (Message Out S)) (h : Half R E (Message Out S)) (a : Result (Option Out) × R)
        → NextOf owes h.routine a
        → h.outputs.suspended ≡ none
        → map log h.outputs.edges ≡ gives clone sent base
        → Delivers
            (leaving owes sent h.routine h.pending)
            (push_next next clone t p a.0 (record h { routine = a.1 }))
    unfolding push_next
    push_next-Delivers sent h (ok (some o), x) n e g =
        push_out-Delivers _ sent (data' o) (record h { routine = x }) e g
          (rw (n, append_assoc sent (data' o ∷ []) (map data' (owes x) ++ owed h.pending)))
    push_next-Delivers sent h (ok none, x) n e g =
        subst (λ l. Delivers l (push_pending next clone t p h.pending (record h { routine = x })))
          (ap (λ l. sent ++ (map data' l ++ owed h.pending)) (n.1 ∙ sym n.0))
          (push_pending-Delivers sent h.pending (record h { routine = x }) refl n.1 e g)
    push_next-Delivers sent h (err y, x) n e g = tt

    -- Whatever it finds.
    pub side_round-Delivers :
        (sent : List (Message Out S)) (h : Half R E (Message Out S))
        → Carries clone log base sent h.outputs
        → Delivers (leaving owes sent h.routine h.pending) (side_round next clone t p h)
    unfolding side_round
    side_round-Delivers sent h (inl (e, g)) =
        rw (e, side_round) (push_next-Delivers sent h (next h.routine) (next_law h.routine) e g)
    side_round-Delivers sent h (inr (ms, m, k, s, (held, e, at_k, holds, d))) =
        rw (e, side_round)
          (busy-Delivers _ sent h (resume clone t p h.outputs)
            (resume-Carries clone log base t p law p_law sent h.outputs
              (inr (ms, m, k, s, (held, e, at_k, holds, d))))
            refl)
