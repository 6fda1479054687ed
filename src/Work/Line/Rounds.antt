-- ===== src/Work/Line/Rounds.antt =====
-- Rounds of a work node: what leaves it on every output.
use areamy.Common.{
  ℕ, Option, none, some, List, [], ◌∷◌, ◌++◌, ◌≡◌, append-nil, refl, append_assoc, inl, map,
}
use areamy.Error.{Result, ok, err, Op}
use areamy.Message.{Message}
use areamy.Graph.{TryPushable, Pushable, Closeable}
use areamy.Edge.Fanout.Delivery.{Answers, Takes}
use areamy.Work.Node.{Routine, Inlet, Incoming, message, input_closed}
use areamy.Work.Node.Stream.{
  Extends, Extends-refl, Extends-trans, Extends-behind, signal, signal_in, signals, signals-data,
  signals-append, signals_out, signals_out-append, signals-signal, signals-signal_in,
  Extends-signals, leaving, RoutineLaws, Grows, InletLaws,
}
use areamy.Work.Node.Round.{rounds_of}
use areamy.Work.Node.Round.Keeps.{Rounded, rounds_of-Rounded, Searched, search_loop-Search}
use areamy.Work.Line.{Search, Line, turn, next_message, work}
use areamy.Work.Line.Account.{account, Accounted, next_message-Accounted}
use areamy.Work.Line.Leaves.{Leaves, turn-Leaves}

module _ {ℓ} {R W D Out S X : Type ℓ} (waiting : X → List (Message D S)) where
  -- The signals that went out, and behind them those that are still in the node or on its edge.
  abbrev pub passing : List (Message Out S) → Search R W (Message Out S) X → List (Message D S)
  passing sent s = signals_out sent ++ (signal_in s.pending ++ signals (waiting s.world))

module _ {ℓ} {R W D Out S X : Type ℓ} (owes : R → List Out) (waiting : X → List (Message D S))
    (out : List (Message Out S)) (all : List (Message D S)) where
  -- `sent` went out: what was to leave leaves in order, and the signals that were to pass are
  -- passing still, in order.
  abbrev pub Passes : List (Message Out S) → Search R W (Message Out S) X → Type ℓ
  Passes sent s =
      Extends out (leaving owes sent s.routine s.pending) × Extends all (passing waiting sent s)

module _ {ℓ} {R W D Out S X : Type ℓ} (r : Routine R D Out) (i : Inlet X (Message D S))
    (work_parent : W → Op X (Unit {0})) (taken : R → List D) (owes : R → List Out)
    (waiting : X → List (Message D S)) (routine_laws : RoutineLaws taken owes r)
    (inlet_laws : InletLaws waiting i)
    (grows : (w : W) (x : X) → Grows waiting x (work_parent w x).1) where
  -- What a search accounts for, by the signals alone.
  account-signals :
      (given : List (Message D S)) (s : Search R W (Message Out S) X)
      → signals (account taken owes waiting given s)
        ≡ signals given ++ (signal_in s.pending ++ signals (waiting s.world))
  account-signals given s = simp (signals-append, signals-data, signals-signal_in)

  searched :
      (sent : List (Message Out S)) (given : List (Message D S))
      (s s' : Search R W (Message Out S) X)
      → Extends (account taken owes waiting [] s) (account taken owes waiting given s')
      → Extends (passing waiting sent s) (
          signals_out sent
          ++ (signals given ++ (signal_in s'.pending ++ signals (waiting s'.world))))
  searched sent given s s' x =
      Extends-behind (signals_out sent)
        (rw (account-signals [] s, account-signals given s') at (Extends-signals x))

  -- Both: the order in which a search leaves, and that it passes its signals.
  both-Searched :
      (out : List (Message Out S)) (all : List (Message D S)) (sent : List (Message Out S))
      (s : Search R W (Message Out S) X)
      (x : Option (Result (Incoming (Message Out S))) × Search R W (Message Out S) X)
      → Extends all (passing waiting sent s)
      → Searched (Leaves taken owes out) sent x
      → Accounted taken owes waiting (account taken owes waiting [] s) x
      → Searched (Passes owes waiting out all) sent x
  both-Searched out all sent s (none, s') x l a = (l, Extends-trans x (searched sent [] s s' a))
  both-Searched out all sent s (some (err e), s') x l a = tt
  both-Searched out all sent s (some (ok (message m)), s') x l (a, b) = (
    l,
    Extends-trans x (
        rw
          (
            signals_out-append {D = D} sent (m ∷ []),
            append-nil (signal {D = D} m),
            append_assoc (signals_out sent) (signal m)
                (signal_in s'.pending ++ signals (waiting s'.world)),
          )
          (rw (signals-signal {D = D} m) at (searched sent (signal m) s s' a))),
  )
  both-Searched out all sent s (some (ok input_closed), s') x l (a, b) =
      (l, Extends-trans x (searched sent [] s s' a))

  next_message-Passes :
      (out : List (Message Out S)) (all : List (Message D S)) (turns : ℕ)
      (sent : List (Message Out S)) (s : Search R W (Message Out S) X)
      → Passes owes waiting out all sent s
      → Searched (Passes owes waiting out all) sent (next_message r i work_parent turns s)
  unfolding next_message
  next_message-Passes out all turns sent s (l, x) =
      both-Searched out all sent s (next_message r i work_parent turns s) x
        (search_loop-Search (Leaves taken owes out sent) _ (turn r i work_parent)
          (turn-Leaves taken owes out r i work_parent routine_laws sent) turns s l)
        (next_message-Accounted taken owes waiting r i work_parent routine_laws inlet_laws grows
          turns s)

  module _ {E : Type ℓ} (clone : Message Out S → Message Out S) (t : TryPushable E (Message Out S))
      (p : Pushable E (Message Out S)) (c : Closeable E) (log : E → List (Message Out S))
      (law : (e : E) (m : Message Out S) → Answers log e m (t.try_push e m))
      (p_law : (e : E) (m : Message Out S) → Takes log e m (p.push e m)) where
    -- A node with nothing held on its outputs, after any rounds of `work` that do not fail: every
    -- output took the same messages, in order, but that the last may be held for some of them; what
    -- went out, what the routine is to put out and the pending signal are in this order what they were
    -- before, and behind it what came since; and the signals among those that went out, the pending one
    -- and those on the input edge are the ones that were pending or on the edge before, in order, and
    -- behind them those that came meanwhile.
    pub rounds-Worked :
        (turns : List ℕ) (n : Line R W (Message Out S) X E)
        → n.outputs.suspended ≡ none
        → Rounded
            (Passes owes waiting
              (leaving owes [] n.search.routine n.search.pending)
              (passing waiting [] n.search))
            clone
            log
            (map log n.outputs.edges)
            (rounds_of (work r i work_parent clone t p c) turns n)
    unfolding work
    rounds-Worked turns n e =
        rounds_of-Rounded _ clone log _ t p c law p_law (next_message r i work_parent)
          (next_message-Passes _ _) turns n
          (record { sent = []; carried = inl (e, refl); holds = (Extends-refl _, Extends-refl _) })
