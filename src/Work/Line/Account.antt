-- ===== src/Work/Line/Account.antt =====
-- What the node reads is accounted for: taken by the routine, given out, pending, or on the edge.
use areamy.Common.{
  ℕ, Bool, true, false, Option, none, some, List, [], ◌∷◌, ◌++◌, ◌≡◌, refl, ap, subst, append_assoc,
  map,
}
use mathlib.Core.List.{map-append}
use areamy.Error.{fatal, any, closed, Result, ok, err, Op}
use areamy.Message.{Message, data', flush, marker}
use areamy.Work.Node.{Routine, Inlet, Incoming, message, input_closed, instead}
use areamy.Work.Node.Stream.{
  Extends, Extends-eq, Extends-refl, Extends-trans, Extends-behind, signal_in, gave, Sent, Kept,
  Gives, RoutineLaws, Grows, Reads, InletLaws, starved-Grows,
}
use areamy.Work.Node.Round.Keeps.{Turn, search_loop-Search}
use areamy.Work.Node.Round.Keeps
use areamy.Work.Line.{
  Search, owe_flush, accept, refilled, polled, owed, after_next, turn, next_message,
}

module _ {ℓ} {R W D Out S X : Type ℓ} (taken : R → List D) (owes : R → List Out)
    (waiting : X → List (Message D S)) where
  -- Everything that came to the node, in order, where `given` are the signals that went out last.
  abbrev pub account : List (Message D S) → Search R W (Message Out S) X → List (Message D S)
  account given s =
      map data' (taken s.routine) ++ (given ++ (signal_in s.pending ++ waiting s.world))

  -- A signal goes out, and the input is closed, only with nothing left behind it in the node.
  abbrev pub Drained : Search R W (Message Out S) X → Type ℓ
  Drained s = (owes s.routine ≡ []) × (s.pending ≡ none)

  abbrev pub Behind : Incoming (Message Out S) → Search R W (Message Out S) X → Type ℓ
  Behind (message (data' o)) s = Unit
  Behind (message (flush o)) s = Drained s
  Behind (message (marker o)) s = Drained s
  Behind input_closed s = Drained s

  -- All is accounted for while the search goes on, and with what it finds.
  abbrev pub Whole : List (Message D S) → Search R W (Message Out S) X → Type ℓ
  Whole all s = Extends all (account [] s)

  abbrev pub Given :
      List (Message D S) → Incoming (Message Out S) → Search R W (Message Out S) X → Type ℓ
  Given all m s = Extends all (account (gave m) s) × Behind m s

  abbrev pub Finds :
      List (Message D S)
      → Result (Option (Incoming (Message Out S))) × Search R W (Message Out S) X
      → Type ℓ
  Finds all = Turn (Whole all) (Given all)

  abbrev pub Accounted :
      List (Message D S)
      → Option (Result (Incoming (Message Out S))) × Search R W (Message Out S) X
      → Type ℓ
  Accounted all = Keeps.Search (Whole all) (Given all)

  Finds-Extends :
      (a b : List (Message D S))
      (f : Result (Option (Incoming (Message Out S))) × Search R W (Message Out S) X)
      → Extends a b
      → Finds b f
      → Finds a f
  Finds-Extends a b (ok none, s) x h = Extends-trans x h
  Finds-Extends a b (ok (some m), s) x (h, d) = (Extends-trans x h, d)
  Finds-Extends a b (err e, s) x h = tt

  module _ (r : Routine R D Out) (i : Inlet X (Message D S)) (work : W → Op X (Unit {0}))
      (routine_laws : RoutineLaws taken owes r) (inlet_laws : InletLaws waiting i)
      (grows : (w : W) (x : X) → Grows waiting x (work w x).1) where
    sent-Finds :
        (d : D) (s : Search R W (Message Out S) X) (x : Result (Unit {0}) × R)
        → Sent taken owes s.routine d x
        → s.pending ≡ none
        → Finds
            (map data' (taken s.routine) ++ data' d ∷ waiting s.world)
            (instead none x.0, record s { routine = x.1 })
    sent-Finds d s (ok u, x) h p = Extends-eq (
        rw (
          p,
          h,
          map-append {B = Message D S} data' (taken s.routine) (d ∷ []),
          append_assoc (map data' (taken s.routine)) (data' d ∷ []) (waiting s.world),
        ))
    sent-Finds d s (err e, x) h p = tt

    flushed-Finds :
        (o : S) (s : Search R W (Message Out S) X) (x : Result (Unit {0}) × R)
        → Kept taken owes s.routine x
        → Finds
            (map data' (taken s.routine) ++ flush o ∷ waiting s.world)
            (owe_flush r i work o x.0 (record s { routine = x.1 }))
    unfolding owe_flush
    flushed-Finds o s (ok u, x) h =
        Extends-eq (ap (λ l. map data' l ++ flush o ∷ waiting s.world) h)
    flushed-Finds o s (err e, x) h = tt

    accept-Finds :
        (m : Message D S) (s : Search R W (Message Out S) X)
        → s.pending ≡ none
        → Finds (map data' (taken s.routine) ++ m ∷ waiting s.world) (accept r i work m s)
    unfolding accept
    accept-Finds (data' d) s p =
        sent-Finds d s (r.send s.routine d) (routine_laws.on_send s.routine d) p
    accept-Finds (flush o) s p =
        flushed-Finds o s (r.flush s.routine) (routine_laws.on_flush s.routine)
    accept-Finds (marker o) s p = Extends-refl _

    refilled-Finds :
        (all : List (Message D S)) (a : Result Bool) (s : Search R W (Message Out S) X)
        → Extends all (account [] s)
        → Drained s
        → Finds all (refilled r i work a s)
    unfolding refilled
    refilled-Finds all (ok true) s x d = (x, d)
    refilled-Finds all (ok false) s x d = x
    refilled-Finds all (err e) s x d = tt

    polled-Finds :
        (s : Search R W (Message Out S) X) (a : Result (Option (Message D S)) × X)
        → Reads waiting s.world a
        → Drained s
        → Finds
            (map data' (taken s.routine) ++ waiting s.world)
            (polled r i work a.0 (record s { world = a.1 }))
    unfolding polled
    polled-Finds s (ok (some m), x) h d =
        Finds-Extends _ (map data' (taken s.routine) ++ m ∷ waiting x) _
          (Extends-behind (map data' (taken s.routine)) h)
          (accept-Finds m (record s { world = x }) (d.1))
    polled-Finds s (ok none, x) h d =
        refilled-Finds _ _ _
          (rw (d.1) (
            Extends-behind (map data' (taken s.routine)) (
              Extends-trans h
                (starved-Grows waiting work grows i.wait_front inlet_laws.on_wait s.workers x))))
          d
    polled-Finds s (err closed, x) h d =
        (rw (d.1) (Extends-behind (map data' (taken s.routine)) h), d)
    polled-Finds s (err (fatal m), x) h d = tt
    polled-Finds s (err (any e), x) h d = tt

    owed-Finds :
        (o : Option (Message Out S)) (s : Search R W (Message Out S) X)
        → s.pending ≡ o
        → owes s.routine ≡ []
        → Finds (account [] s) (owed r i work o s)
    unfolding owed
    owed-Finds (some (data' o)) s p d = (Extends-eq (rw p), tt)
    owed-Finds (some (flush o)) s p d = (Extends-eq (rw p), (d, refl))
    owed-Finds (some (marker o)) s p d = (Extends-eq (rw p), (d, refl))
    owed-Finds none s p d =
        subst
          (λ l.
            Finds l (polled r i work (i.poll s.world).0 (record s { world = (i.poll s.world).1 })))
          (rw p) (polled-Finds s (i.poll s.world) (inlet_laws.on_poll s.world) (d, p))

    after_next-Finds :
        (s : Search R W (Message Out S) X) (a : Result (Option Out) × R)
        → Gives taken owes s.routine a
        → Finds (account [] s) (after_next r i work a.0 (record s { routine = a.1 }))
    unfolding after_next
    after_next-Finds s (ok (some o), x) (same, h) = (Extends-eq (rw same), tt)
    after_next-Finds s (ok none, x) (same, was, h) =
        rw (← same) (owed-Finds s.pending (record s { routine = x }) refl h)
    after_next-Finds s (err e, x) h = tt

    turn-Finds : (s : Search R W (Message Out S) X) → Finds (account [] s) (turn r i work s)
    unfolding turn
    turn-Finds s = after_next-Finds s (r.next s.routine) (routine_laws.on_next s.routine)

    -- Whatever the number of turns, and whatever parents and other threads push meanwhile, a search
    -- that does not fail loses, repeats and reorders nothing: the data that the routine took, the
    -- signal that is given out, the pending one and what waits on the edge are what they were before,
    -- and behind it what came meanwhile. A signal is given out, and closed is answered, only when the
    -- routine has nothing left to put out and no signal is pending.
    pub next_message-Accounted :
        (turns : ℕ) (s : Search R W (Message Out S) X)
        → Accounted (account [] s) (next_message r i work turns s)
    unfolding next_message
    next_message-Accounted turns s =
        search_loop-Search (Whole (account [] s)) (Given (account [] s)) (turn r i work)
          (λ s' x.
            Finds-Extends (account [] s) (account [] s') (turn r i work s') x (turn-Finds s'))
          turns s (Extends-refl (account [] s))
