-- ===== src/Work/Line/Leaves.antt =====
-- What a node with one input puts out leaves it in order.
use areamy.Common.{
  Bool, true, false, Option, none, some, List, [], ◌∷◌, ◌++◌, ◌≡◌, refl, subst, append-nil,
  append_assoc, map,
}
use areamy.Error.{fatal, any, closed, Result, ok, err, Op}
use areamy.Message.{Message, data', flush, marker}
use areamy.Work.Node.{Routine, Inlet, instead, starved}
use areamy.Work.Node.Stream.{Extends, by_news, Extends-trans, owed, leaving, Gives, RoutineLaws}
use areamy.Work.Node.Round.Keeps.{Turned}
use areamy.Work.Line.{Search, owe_flush, accept, refilled, polled, after_next, turn}
use areamy.Work.Line

module _ {ℓ} {R Out S : Type ℓ} (owes : R → List Out) (out : List (Message Out S)) where
  -- With nothing left to put out, whatever comes now comes behind.
  idle-Leaves :
      (sent : List (Message Out S)) (x x' : R) (p' : Option (Message Out S))
      → owes x ≡ []
      → Extends out (leaving owes sent x none)
      → Extends out (leaving owes sent x' p')
  idle-Leaves sent x x' p' e h =
      Extends-trans h (by_news (map data' (owes x') ++ owed p') (rw (e, append-nil sent)))

module _ {ℓ} {R W D Out S X : Type ℓ} (taken : R → List D) (owes : R → List Out)
    (out : List (Message Out S)) where
  -- What went out, what the routine is to put out and the pending signal go on from `out`.
  abbrev pub Leaves : List (Message Out S) → Search R W (Message Out S) X → Type ℓ
  Leaves sent s = Extends out (leaving owes sent s.routine s.pending)

  module _ (r : Routine R D Out) (i : Inlet X (Message D S)) (work : W → Op X (Unit {0}))
      (laws : RoutineLaws taken owes r) where
    sent-Turned :
        (sent : List (Message Out S)) (a : Result (Unit {0})) (s : Search R W (Message Out S) X)
        → Leaves sent s
        → Turned Leaves sent (instead none a, s)
    sent-Turned sent (ok u) s h = h
    sent-Turned sent (err e) s h = tt

    flushed-Turned :
        (sent : List (Message Out S)) (o : S) (a : Result (Unit {0})) (x : R)
        (s : Search R W (Message Out S) X)
        → owes x ≡ []
        → Extends out (leaving owes sent x none)
        → Turned Leaves sent (owe_flush r i work o a s)
    unfolding owe_flush
    flushed-Turned sent o (ok u) x s e h =
        idle-Leaves owes out sent x s.routine (some (flush o)) e h
    flushed-Turned sent o (err y) x s e h = tt

    accept-Turned :
        (sent : List (Message Out S)) (m : Message D S) (s : Search R W (Message Out S) X)
        → owes s.routine ≡ []
        → s.pending ≡ none
        → Extends out (leaving owes sent s.routine none)
        → Turned Leaves sent (accept r i work m s)
    unfolding accept
    accept-Turned sent (data' d) s e p h =
        sent-Turned sent (r.send s.routine d).0 _
          (idle-Leaves owes out sent s.routine (r.send s.routine d).1 s.pending e h)
    accept-Turned sent (flush o) s e p h =
        flushed-Turned sent o (r.flush s.routine).0 s.routine _ e h
    accept-Turned sent (marker o) s e p h =
        idle-Leaves owes out sent s.routine s.routine (some (marker o)) e h

    refilled-Turned :
        (sent : List (Message Out S)) (a : Result Bool) (s : Search R W (Message Out S) X)
        → Leaves sent s
        → Turned Leaves sent (refilled r i work a s)
    unfolding refilled
    refilled-Turned sent (ok true) s h = h
    refilled-Turned sent (ok false) s h = h
    refilled-Turned sent (err e) s h = tt

    polled-Turned :
        (sent : List (Message Out S)) (a : Result (Option (Message D S)))
        (s : Search R W (Message Out S) X)
        → owes s.routine ≡ []
        → s.pending ≡ none
        → Leaves sent s
        → Turned Leaves sent (polled r i work a s)
    unfolding polled
    polled-Turned sent (ok (some m)) s e p h =
        accept-Turned sent m s e p (subst (λ q. Extends out (leaving owes sent s.routine q)) p h)
    polled-Turned sent (ok none) s e p h =
        refilled-Turned sent (starved work i.wait_front s.workers s.world).0 _ h
    polled-Turned sent (err closed) s e p h = h
    polled-Turned sent (err (fatal m)) s e p h = tt
    polled-Turned sent (err (any y)) s e p h = tt

    owed-Turned :
        (sent : List (Message Out S)) (o : Option (Message Out S))
        (s : Search R W (Message Out S) X)
        → s.pending ≡ o
        → owes s.routine ≡ []
        → Leaves sent s
        → Turned Leaves sent (Line.owed r i work o s)
    unfolding Line.owed
    owed-Turned sent (some m) s p e h = rw (e, append-nil (sent ++ m ∷ [])) (rw (p, e) at h)
    owed-Turned sent none s p e h = polled-Turned sent (i.poll s.world).0 _ e p h

    after_next-Turned :
        (sent : List (Message Out S)) (s : Search R W (Message Out S) X)
        (a : Result (Option Out) × R)
        → Gives taken owes s.routine a
        → Leaves sent s
        → Turned Leaves sent (after_next r i work a.0 (record s { routine = a.1 }))
    unfolding after_next
    after_next-Turned sent s (ok (some o), x) (t, e) h =
        rw (append_assoc sent (data' o ∷ []) (map data' (owes x) ++ owed s.pending)) (rw e at h)
    after_next-Turned sent s (ok none, x) (t, e, e') h =
        owed-Turned sent s.pending (record s { routine = x }) refl e' (rw e' (rw e at h))
    after_next-Turned sent s (err y, x) g h = tt

    pub turn-Leaves :
        (sent : List (Message Out S)) (s : Search R W (Message Out S) X)
        → Leaves sent s
        → Turned Leaves sent (turn r i work s)
    unfolding turn
    turn-Leaves sent s h = after_next-Turned sent s (r.next s.routine) (laws.on_next s.routine) h
