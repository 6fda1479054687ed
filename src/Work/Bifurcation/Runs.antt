-- ===== src/Work/Bifurcation/Runs.antt =====
-- One side of a node with two outputs, since some time: what went out and what is to go out.
use areamy.Common.{
  Option, none, some, List, [], ◌∷◌, ◌++◌, ◌≡◌, refl, ◌∙◌, subst, append-nil, append_assoc, inl,
  inr, map, Option-cases,
}
use areamy.Error.{Result, ok, err}
use areamy.Message.{Message, data'}
use areamy.Graph.{TryPushable, Pushable}
use areamy.Edge.Fanout.{Fanout}
use areamy.Edge.Fanout.Delivery.Carries.{Carries}
use areamy.Work.Node.Stream.{
  Extends, by_news, Extends-trans, Extends-behind, Extends-signals, signals, signals-append,
  signals_out, signals_out-leaving, owed, leaving, Grows,
}
use areamy.Work.Bifurcation.{Half, push_pending, push_next, side_round}

module _ {ℓ} {R D Out S X E : Type ℓ} (owes : R → List Out) (clone : Message Out S → Message Out S)
    (log : E → List (Message Out S)) (waiting : X → List (Message D S))
    (base : List (List (Message Out S))) where
  -- A side since its outputs had taken `base`: they took `sent`, all of them, but that some may still
  -- hold the last. What was to leave, `out`, leaves in order, and so do the signals `all`, which were
  -- to leave or waited on the input.
  pub record Runs (out : List (Message Out S)) (all : List (Message D S)) (x : R)
      (f : Fanout E (Message Out S)) (pending : Option (Message Out S)) (w : X) : Type ℓ where
    pub sent : List (Message Out S)
    pub carried : Carries clone log base sent f
    pub leaves : Extends out (leaving owes sent x pending)
    pub signalled : Extends all (signals_out (leaving owes sent x pending) ++ signals (waiting w))

  module _ (out : List (Message Out S)) (all : List (Message D S)) where
    -- Another side's `next` keeps what this side owes.
    pub Runs-owes :
        (x x' : R) (f : Fanout E (Message Out S)) (p : Option (Message Out S)) (w : X)
        → owes x' ≡ owes x
        → Runs out all x f p w
        → Runs out all x' f p w
    Runs-owes x x' f p w e h = record {
      sent = h.sent;
      carried = h.carried;
      leaves = rw e h.leaves;
      signalled = rw e h.signalled;
    }

    pub Runs-Grows :
        (x : R) (f : Fanout E (Message Out S)) (p : Option (Message Out S)) (w w' : X)
        → Grows waiting w w'
        → Runs out all x f p w
        → Runs out all x f p w'
    Runs-Grows x f p w w' g h = record {
      sent = h.sent;
      carried = h.carried;
      leaves = h.leaves;
      signalled =
          Extends-trans h.signalled
            (Extends-behind (signals_out (leaving owes h.sent x p)) (Extends-signals g));
    }

    -- An idle side takes its part of a message that the node read.
    reads_now :
        (x x' : R) (f : Fanout E (Message Out S)) (p : Option (Message Out S)) (w w' : X)
        (m : Message D S)
        → owes x ≡ []
        → signals_out (owed p) ≡ signals (m ∷ [])
        → Extends (waiting w) (m ∷ waiting w')
        → Runs out all x f none w
        → Runs out all x' f p w'
    reads_now x x' f p w w' m e s g h = record {
      sent = h.sent;
      carried = h.carried;
      leaves =
          Extends-trans h.leaves
            (by_news (map data' (owes x') ++ owed p) (rw (e, append-nil h.sent)));
      signalled = Extends-trans h.signalled (
          rw
            (
              signals_out-leaving {D = D} owes h.sent x none,
              signals_out-leaving {D = D} owes h.sent x' p,
              s,
              append-nil (signals_out {D = D} h.sent),
              append_assoc (signals_out h.sent) (signals (m ∷ [])) (signals (waiting w')),
            )
            (Extends-behind (signals_out h.sent)
              (rw (signals-append (m ∷ []) (waiting w')) at (Extends-signals g))));
    }

    pub Runs-reads :
        (x x' : R) (f : Fanout E (Message Out S)) (p p' : Option (Message Out S)) (w w' : X)
        (m : Message D S)
        → owes x ≡ []
        → p ≡ none
        → signals_out (owed p') ≡ signals (m ∷ [])
        → Extends (waiting w) (m ∷ waiting w')
        → Runs out all x f p w
        → Runs out all x' f p' w'
    Runs-reads x x' f p p' w w' m e q s g h =
        reads_now x x' f p' w w' m e s g (subst (λ y. Runs out all x f y w) q h)

    -- A side that delivered runs on.
    pub Runs-delivered :
        (x x' : R) (f f' : Fanout E (Message Out S)) (p p' : Option (Message Out S)) (w : X)
        (h : Runs out all x f p w) (sent : List (Message Out S))
        → Carries clone log base sent f'
        → leaving owes sent x' p' ≡ leaving owes h.sent x p
        → Runs out all x' f' p' w
    Runs-delivered x x' f f' p p' w h sent carried same = record {
      sent = sent;
      carried = carried;
      leaves = rw same h.leaves;
      signalled = rw same h.signalled;
    }

-- What one side's part of a round does to any view of the routine that its `next` keeps.
module _ {ℓ} {R Out S E A : Type ℓ} (view : R → A) (next : R → Result (Option Out) × R)
    (keeps : (x : R) → view (next x).1 ≡ view x) (clone : Message Out S → Message Out S)
    (t : TryPushable E (Message Out S)) (p : Pushable E (Message Out S)) where
  push_pending-keeps :
      (o : Option (Message Out S)) (h : Half R E (Message Out S))
      → view (push_pending next clone t p o h).1.routine ≡ view h.routine
  unfolding push_pending
  push_pending-keeps (some m) h = refl
  push_pending-keeps none h = refl

  push_next-keeps :
      (a : Result (Option Out)) (h : Half R E (Message Out S))
      → view (push_next next clone t p a h).1.routine ≡ view h.routine
  unfolding push_next
  push_next-keeps (ok (some o)) h = refl
  push_next-keeps (ok none) h = push_pending-keeps h.pending h
  push_next-keeps (err e) h = refl

  pub side_round-keeps :
      (h : Half R E (Message Out S)) → view (side_round next clone t p h).1.routine ≡ view h.routine
  unfolding side_round
  side_round-keeps h = elim (Option-cases h.outputs.suspended) [
    | inl e ↦ rw (e, side_round) (push_next-keeps (next h.routine).0 _ ∙ keeps h.routine)
    | inr (s, e) ↦ rw (e, side_round)
  ]
