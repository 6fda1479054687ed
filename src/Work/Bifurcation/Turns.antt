-- ===== src/Work/Bifurcation/Turns.antt =====
-- A round of a node with two outputs.
use areamy.Common.{
  ℕ, zero, suc, Bool, true, false, ◌||◌, Option, none, some, List, [], ◌∷◌, ◌++◌, ◌≡◌, refl, ◌∙◌,
  map, inl,
}
use areamy.Error.{Result, ok, err, Op, and_then, ◌>>=◌, pure}
use areamy.Message.{Message, data', flush, marker}
use areamy.Graph.{TryPushable, Pushable, Closeable}
use areamy.Edge.Fanout.Delivery.Carries.{Carries}
use areamy.Edge.Fanout.Delivery.{Answers, Takes}
use areamy.Work.Node.{Inlet, Incoming, message, input_closed, instead}
use areamy.Work.Node.Stream.{
  Extends, Extends-refl, signals, signals_out, owed, NextOf, leaving, Grows, InletLaws,
}
use areamy.Work.Bifurcation.{
  BifurcationRoutine, Half, Parents, Bifurcation, next_input, owe_flush, accept, Turn, done,
  goes_on, left_half, right_half, of_left, of_right, left_round, right_round, side_rounds,
  take_input, after_sides, work_on, work,
}
use areamy.Work.Bifurcation.Sides.{IsIdle, Delivers, side_round-Delivers}
use areamy.Work.Bifurcation.Found.{Found, next_input-Found}
use areamy.Work.Bifurcation.Runs.{
  Runs, Runs-owes, Runs-delivered, Runs-Grows, Runs-reads, side_round-keeps,
}

-- A routine: what it owes on the left and on the right.
pub record BifurcationLaws {ℓ} {R D L Q : Type ℓ} (left_owes : R → List L) (right_owes : R → List Q)
    (r : BifurcationRoutine R D L Q) : Type ℓ where
  pub on_left : (x : R) → NextOf left_owes x (r.next_left x)
  pub on_right : (x : R) → NextOf right_owes x (r.next_right x)
  pub left_keeps : (x : R) → right_owes (r.next_left x).1 ≡ right_owes x
  pub right_keeps : (x : R) → left_owes (r.next_right x).1 ≡ left_owes x

module _ {ℓ} {R W D L Q S X E F : Type ℓ} (left_owes : R → List L) (right_owes : R → List Q)
    (clone_left : Message L S → Message L S) (clone_right : Message Q S → Message Q S)
    (left_log : E → List (Message L S)) (right_log : F → List (Message Q S))
    (waiting : X → List (Message D S)) where
  -- A node whose sides run from where `n` stands.
  pub record BothRun (n n' : Bifurcation R W X E F (Message L S) (Message Q S)) : Type ℓ where
    pub left_runs :
        Runs left_owes clone_left left_log waiting
          (map left_log n.left_outputs.edges)
          (leaving left_owes [] n.routine n.left_pending)
          (signals_out (leaving left_owes [] n.routine n.left_pending)
            ++ signals (waiting n.parents.world))
          n'.routine
          n'.left_outputs
          n'.left_pending
          n'.parents.world
    pub right_runs :
        Runs right_owes clone_right right_log waiting
          (map right_log n.right_outputs.edges)
          (leaving right_owes [] n.routine n.right_pending)
          (signals_out (leaving right_owes [] n.routine n.right_pending)
            ++ signals (waiting n.parents.world))
          n'.routine
          n'.right_outputs
          n'.right_pending
          n'.parents.world

  record BothIdle (n : Bifurcation R W X E F (Message L S) (Message Q S)) : Type ℓ where
    left_idle : IsIdle left_owes (left_half n)
    right_idle : IsIdle right_owes (right_half n)

  pub BothRun-start :
      (n : Bifurcation R W X E F (Message L S) (Message Q S))
      → n.left_outputs.suspended ≡ none
      → n.right_outputs.suspended ≡ none
      → BothRun n n
  BothRun-start n e f = record {
    left_runs = record {
      sent = [];
      carried = inl (e, refl);
      leaves = Extends-refl _;
      signalled = Extends-refl _;
    };
    right_runs = record {
      sent = [];
      carried = inl (f, refl);
      leaves = Extends-refl _;
      signalled = Extends-refl _;
    };
  }

  module _ (n : Bifurcation R W X E F (Message L S) (Message Q S)) where
    -- After the sides' parts of a turn: both run on, and if none was busy both are idle.
    abbrev LeftRan : Result Bool × Bifurcation R W X E F (Message L S) (Message Q S) → Type ℓ
    LeftRan (ok true, n') = BothRun n n'
    LeftRan (ok false, n') = BothRun n n' × IsIdle left_owes (left_half n')
    LeftRan (err e, n') = Unit

    abbrev SidesRan : Result Bool × Bifurcation R W X E F (Message L S) (Message Q S) → Type ℓ
    SidesRan (ok true, n') = BothRun n n'
    SidesRan (ok false, n') = BothRun n n' × BothIdle n'
    SidesRan (err e, n') = Unit

    abbrev TurnRan :
        Option (Result Turn) × Bifurcation R W X E F (Message L S) (Message Q S) → Type ℓ
    TurnRan (none, n') = BothRun n n'
    TurnRan (some (ok a), n') = BothRun n n'
    TurnRan (some (err e), n') = Unit

    abbrev pub Ran :
        Option (Result (Unit {0})) × Bifurcation R W X E F (Message L S) (Message Q S) → Type ℓ
    Ran (none, n') = BothRun n n'
    Ran (some (ok a), n') = BothRun n n'
    Ran (some (err e), n') = Unit

    abbrev AcceptRan :
        Result (Unit {0}) × Bifurcation R W X E F (Message L S) (Message Q S) → Type ℓ
    AcceptRan (ok a, n') = BothRun n n'
    AcceptRan (err e, n') = Unit

  module _ (r : BifurcationRoutine R D L Q) (i : Inlet X (Message D S))
      (work_parent : W → Op X (Unit {0})) (copy : S → S) (t : TryPushable E (Message L S))
      (p : Pushable E (Message L S)) (c : Closeable E) (u : TryPushable F (Message Q S))
      (q : Pushable F (Message Q S)) (d : Closeable F)
      (laws : BifurcationLaws left_owes right_owes r) (inlet_laws : InletLaws waiting i)
      (grows : (w : W) (x : X) → Grows waiting x (work_parent w x).1)
      (copies : (o : S) → copy o ≡ o)
      (law : (e : E) (m : Message L S) → Answers left_log e m (t.try_push e m))
      (p_law : (e : E) (m : Message L S) → Takes left_log e m (p.push e m))
      (u_law : (f : F) (m : Message Q S) → Answers right_log f m (u.try_push f m))
      (q_law : (f : F) (m : Message Q S) → Takes right_log f m (q.push f m))
      (n : Bifurcation R W X E F (Message L S) (Message Q S)) where
    left-LeftRan :
        (n' : Bifurcation R W X E F (Message L S) (Message Q S))
        (x : Result Bool × Half R E (Message L S)) (b : BothRun n n')
        → Delivers left_owes clone_left left_log
            (map left_log n.left_outputs.edges)
            (leaving left_owes b.left_runs.sent n'.routine n'.left_pending)
            x
        → right_owes x.1.routine ≡ right_owes n'.routine
        → LeftRan n (x.0, of_left n' x.1)
    left-LeftRan n' (ok true, h) b (sent, carried, same) e = record {
      left_runs =
          Runs-delivered left_owes clone_left left_log waiting _ _ _ _ _ _ _ _ _ _ b.left_runs sent
            carried same;
      right_runs =
          Runs-owes right_owes clone_right right_log waiting _ _ _ _ _ _ _ _ e b.right_runs;
    }
    left-LeftRan n' (ok false, h) b (sent, carried, same, idle) e = (
      record {
        left_runs =
            Runs-delivered left_owes clone_left left_log waiting _ _ _ _ _ _ _ _ _ _ b.left_runs
              sent carried same;
        right_runs =
            Runs-owes right_owes clone_right right_log waiting _ _ _ _ _ _ _ _ e b.right_runs;
      },
      idle,
    )
    left-LeftRan n' (err y, h) b k e = tt

    right-BothRun :
        (n' : Bifurcation R W X E F (Message L S) (Message Q S)) (h : Half R F (Message Q S))
        (b : BothRun n n') (sent : List (Message Q S))
        → Carries clone_right right_log (map right_log n.right_outputs.edges) sent h.outputs
        → leaving right_owes sent h.routine h.pending
          ≡ leaving right_owes b.right_runs.sent n'.routine n'.right_pending
        → left_owes h.routine ≡ left_owes n'.routine
        → BothRun n (of_right n' h)
    right-BothRun n' h b sent carried same e = record {
      left_runs = Runs-owes left_owes clone_left left_log waiting _ _ _ _ _ _ _ _ e b.left_runs;
      right_runs =
          Runs-delivered right_owes clone_right right_log waiting _ _ _ _ _ _ _ _ _ _ b.right_runs
            sent carried same;
    }

    -- `l` is whether the left was busy.
    right-SidesRan :
        (l : Bool) (n' : Bifurcation R W X E F (Message L S) (Message Q S))
        (x : Result Bool × Half R F (Message Q S)) (b : BothRun n n')
        → (l ≡ false → IsIdle left_owes (left_half n'))
        → Delivers right_owes clone_right right_log
            (map right_log n.right_outputs.edges)
            (leaving right_owes b.right_runs.sent n'.routine n'.right_pending)
            x
        → left_owes x.1.routine ≡ left_owes n'.routine
        → SidesRan n (and_then (x.0, of_right n' x.1) (λ y. pure (l || y)))
    right-SidesRan true n' (ok true, h) b f (sent, carried, same) e =
        right-BothRun n' h b sent carried same e
    right-SidesRan true n' (ok false, h) b f (sent, carried, same, idle) e =
        right-BothRun n' h b sent carried same e
    right-SidesRan false n' (ok true, h) b f (sent, carried, same) e =
        right-BothRun n' h b sent carried same e
    right-SidesRan false n' (ok false, h) b f (sent, carried, same, idle) e = (
      right-BothRun n' h b sent carried same e,
      record {
        left_idle = record {
          nothing_held = (f refl).nothing_held;
          drained = e ∙ (f refl).drained;
          no_signal = (f refl).no_signal;
        };
        right_idle = idle;
      },
    )
    right-SidesRan l n' (err y, h) b f k e = tt

    after_left :
        (x : Result Bool × Bifurcation R W X E F (Message L S) (Message Q S))
        → LeftRan n x
        → SidesRan n (
            and_then x (λ l.
              right_round r i work_parent copy clone_left clone_right t p c u q d >>= λ y.
              pure (l || y)))
    unfolding right_round
    after_left (ok true, n') b =
        right-SidesRan true n' _ b (λ e. cc)
          (side_round-Delivers right_owes clone_right right_log _ r.next_right u q laws.on_right
            u_law q_law _ (right_half n') b.right_runs.carried)
          (side_round-keeps left_owes r.next_right laws.right_keeps clone_right u q (right_half n'))
    after_left (ok false, n') (b, idle) =
        right-SidesRan false n' _ b (λ e. idle)
          (side_round-Delivers right_owes clone_right right_log _ r.next_right u q laws.on_right
            u_law q_law _ (right_half n') b.right_runs.carried)
          (side_round-keeps left_owes r.next_right laws.right_keeps clone_right u q (right_half n'))
    after_left (err e, n') b = tt

    side_rounds-SidesRan :
        (n' : Bifurcation R W X E F (Message L S) (Message Q S))
        → BothRun n n'
        → SidesRan n (side_rounds r i work_parent copy clone_left clone_right t p c u q d n')
    unfolding side_rounds left_round
    side_rounds-SidesRan n' b = after_left _ (
        left-LeftRan n' _ b
          (side_round-Delivers left_owes clone_left left_log _ r.next_left t p laws.on_left law
            p_law _ (left_half n') b.left_runs.carried)
          (side_round-keeps right_owes r.next_left laws.left_keeps clone_left t p (left_half n')))

    reads-BothRun :
        (n' : Bifurcation R W X E F (Message L S) (Message Q S)) (x : R)
        (left_signal : Option (Message L S)) (right_signal : Option (Message Q S)) (s : Parents W X)
        (m : Message D S)
        → BothRun n n'
        → BothIdle n'
        → Extends (waiting n'.parents.world) (m ∷ waiting s.world)
        → signals_out (owed left_signal) ≡ signals (m ∷ [])
        → signals_out (owed right_signal) ≡ signals (m ∷ [])
        → BothRun n (record n' {
          routine = x;
          left_pending = left_signal;
          right_pending = right_signal;
          parents = s;
        })
    reads-BothRun n' x left_signal right_signal s m b idle g on_left on_right = record {
      left_runs =
          Runs-reads left_owes clone_left left_log waiting _ _ _ _ _ _ _ left_signal _ _ m
            idle.left_idle.drained idle.left_idle.no_signal on_left g b.left_runs;
      right_runs =
          Runs-reads right_owes clone_right right_log waiting _ _ _ _ _ _ _ right_signal _ _ m
            idle.right_idle.drained idle.right_idle.no_signal on_right g b.right_runs;
    }

    sent-AcceptRan :
        (a : Result (Unit {0})) (n' : Bifurcation R W X E F (Message L S) (Message Q S))
        → BothRun n n'
        → AcceptRan n (a, n')
    sent-AcceptRan (ok a) n' b = b
    sent-AcceptRan (err e) n' b = tt

    flushed-AcceptRan :
        (n' : Bifurcation R W X E F (Message L S) (Message Q S)) (s : Parents W X) (o : S)
        (a : Result (Unit {0}) × R)
        → BothRun n n'
        → BothIdle n'
        → Extends (waiting n'.parents.world) (flush o ∷ waiting s.world)
        → AcceptRan n (owe_flush r copy o a.0 (record n' { routine = a.1; parents = s }))
    unfolding owe_flush
    flushed-AcceptRan n' s o (ok a, x) b idle g =
        reads-BothRun n' x (some (flush (copy o))) (some (flush o)) s (flush o) b idle g
          (rw (copies o)) refl
    flushed-AcceptRan n' s o (err e, x) b idle g = tt

    accept-AcceptRan :
        (n' : Bifurcation R W X E F (Message L S) (Message Q S)) (s : Parents W X) (m : Message D S)
        → BothRun n n'
        → BothIdle n'
        → Extends (waiting n'.parents.world) (m ∷ waiting s.world)
        → AcceptRan n (accept r copy m (record n' { parents = s }))
    unfolding accept
    accept-AcceptRan n' s (data' y) b idle g = sent-AcceptRan (r.send n'.routine y).0 _ (
        reads-BothRun n' (r.send n'.routine y).1 n'.left_pending n'.right_pending s (data' y) b idle
          g (rw idle.left_idle.no_signal) (rw idle.right_idle.no_signal))
    accept-AcceptRan n' s (flush o) b idle g =
        flushed-AcceptRan n' s o (r.flush n'.routine) b idle g
    accept-AcceptRan n' s (marker o) b idle g =
        reads-BothRun n' n'.routine (some (marker (copy o))) (some (marker o)) s (marker o) b idle g
          (rw (copies o)) refl

    accepted-TurnRan :
        (x : Result (Unit {0}) × Bifurcation R W X E F (Message L S) (Message Q S))
        → AcceptRan n x
        → TurnRan n (some (instead goes_on x.0), x.1)
    accepted-TurnRan (ok a, n') b = b
    accepted-TurnRan (err e, n') b = tt

    input-TurnRan :
        (n' : Bifurcation R W X E F (Message L S) (Message Q S))
        (x : Option (Result (Incoming (Message D S))) × Parents W X)
        → BothRun n n'
        → BothIdle n'
        → Found waiting n'.parents.world x
        → TurnRan n (
            take_input r i work_parent copy clone_left clone_right t p c u q d x.0
              (record n' { parents = x.1 }))
    unfolding take_input
    input-TurnRan n' (none, s) b idle g = record {
      left_runs = Runs-Grows left_owes clone_left left_log waiting _ _ _ _ _ _ _ _ g b.left_runs;
      right_runs =
          Runs-Grows right_owes clone_right right_log waiting _ _ _ _ _ _ _ _ g b.right_runs;
    }
    input-TurnRan n' (some (ok (message m)), s) b idle g =
        accepted-TurnRan _ (accept-AcceptRan n' s m b idle g)
    input-TurnRan n' (some (ok input_closed), s) b idle g = tt
    input-TurnRan n' (some (err e), s) b idle g = tt

    after_sides-TurnRan :
        (turns : ℕ) (x : Result Bool × Bifurcation R W X E F (Message L S) (Message Q S))
        → SidesRan n x
        → TurnRan n
            (after_sides r i work_parent copy clone_left clone_right t p c u q d turns x.0 x.1)
    unfolding after_sides
    after_sides-TurnRan turns (ok true, n') b = b
    after_sides-TurnRan turns (ok false, n') (b, idle) =
        input-TurnRan n' (next_input i work_parent turns n'.parents) b idle (
          next_input-Found waiting i work_parent inlet_laws grows turns n'.parents.world n'.parents
            (Extends-refl _))
    after_sides-TurnRan turns (err e, n') b = tt

    work_on-Ran :
        (onward : Bifurcation R W X E F (Message L S) (Message Q S)
          → Option (Result (Unit {0})) × Bifurcation R W X E F (Message L S) (Message Q S))
        (x : Option (Result Turn) × Bifurcation R W X E F (Message L S) (Message Q S))
        → TurnRan n x
        → ((n' : Bifurcation R W X E F (Message L S) (Message Q S))
            → BothRun n n'
            → Ran n (onward n'))
        → Ran n (work_on r i work_parent copy clone_left clone_right t p c u q d onward x)
    unfolding work_on
    work_on-Ran onward (some (ok goes_on), n') b on = on n' b
    work_on-Ran onward (some (ok done), n') b on = b
    work_on-Ran onward (some (err e), n') b on = tt
    work_on-Ran onward (none, n') b on = b

    -- One round.
    pub work-Ran :
        (turns more : ℕ) (n' : Bifurcation R W X E F (Message L S) (Message Q S))
        → BothRun n n'
        → Ran n (work r i work_parent copy clone_left clone_right t p c u q d turns more n')
    unfolding work
    work-Ran turns zero n' b = b
    work-Ran turns (suc more) n' b =
        work_on-Ran _ _ (after_sides-TurnRan turns _ (side_rounds-SidesRan n' b))
          (work-Ran turns more)
