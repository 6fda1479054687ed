-- ===== src/Work/Bifurcation/Found.antt =====
-- The search of a node with two outputs for an input loses and reorders nothing.
use areamy.Common.{ℕ, zero, suc, Bool, true, false, Option, none, some, List, ◌∷◌}
use areamy.Error.{fatal, any, closed, Result, ok, err, Op}
use areamy.Message.{Message}
use areamy.Work.Node.{Inlet, Incoming, message, input_closed}
use areamy.Work.Node.Stream.{Extends, Extends-trans, Grows, Reads, InletLaws, starved-Grows}
use areamy.Work.Bifurcation.{Parents, replenished, looked, look, look_again, next_input}

-- The search for an input.
module _ {ℓ} {W X D S : Type ℓ} (waiting : X → List (Message D S)) where
  -- What it read, and behind it what waits.
  abbrev Looks : X → Result (Option (Incoming (Message D S))) × Parents W X → Type ℓ
  Looks x (ok none, s) = Grows waiting x s.world
  Looks x (ok (some (message m)), s) = Extends (waiting x) (m ∷ waiting s.world)
  Looks x (ok (some input_closed), s) = Unit
  Looks x (err e, s) = Unit

  abbrev pub Found : X → Option (Result (Incoming (Message D S))) × Parents W X → Type ℓ
  Found x (none, s) = Grows waiting x s.world
  Found x (some (ok (message m)), s) = Extends (waiting x) (m ∷ waiting s.world)
  Found x (some (ok input_closed), s) = Unit
  Found x (some (err e), s) = Unit

  module _ (i : Inlet X (Message D S)) (work : W → Op X (Unit {0}))
      (inlet_laws : InletLaws waiting i)
      (grows : (w : W) (x : X) → Grows waiting x (work w x).1) where
    replenished-Looks :
        (x : X) (a : Result Bool) (s : Parents W X)
        → Grows waiting x s.world
        → Looks x (replenished i work a s)
    unfolding replenished
    replenished-Looks x (ok true) s g = tt
    replenished-Looks x (ok false) s g = g
    replenished-Looks x (err e) s g = tt

    looked-Looks :
        (x : X) (ws : List W) (a : Result (Option (Message D S)) × X)
        → Reads waiting x a
        → Looks x (looked i work a.0 (record { workers = ws; world = a.1 }))
    unfolding looked
    looked-Looks x ws (ok (some m), y) h = h
    looked-Looks x ws (ok none, y) h =
        replenished-Looks x _ _
          (Extends-trans h (starved-Grows waiting work grows i.wait_front inlet_laws.on_wait ws y))
    looked-Looks x ws (err closed, y) h = tt
    looked-Looks x ws (err (fatal m), y) h = tt
    looked-Looks x ws (err (any e), y) h = tt

    look_again-Found :
        (x : X) (onward : Parents W X → Option (Result (Incoming (Message D S))) × Parents W X)
        (f : Result (Option (Incoming (Message D S))) × Parents W X)
        → Looks x f
        → ((s : Parents W X) → Grows waiting x s.world → Found x (onward s))
        → Found x (look_again i work onward f)
    unfolding look_again
    look_again-Found x onward (ok none, s) h on = on s h
    look_again-Found x onward (ok (some (message m)), s) h on = h
    look_again-Found x onward (ok (some input_closed), s) h on = tt
    look_again-Found x onward (err e, s) h on = tt

    Looks-Grows :
        (x y : X) (f : Result (Option (Incoming (Message D S))) × Parents W X)
        → Grows waiting x y
        → Looks y f
        → Looks x f
    Looks-Grows x y (ok none, s) g h = Extends-trans g h
    Looks-Grows x y (ok (some (message m)), s) g h = Extends-trans g h
    Looks-Grows x y (ok (some input_closed), s) g h = tt
    Looks-Grows x y (err e, s) g h = tt

    pub next_input-Found :
        (turns : ℕ) (x : X) (s : Parents W X)
        → Grows waiting x s.world
        → Found x (next_input i work turns s)
    unfolding next_input look
    next_input-Found zero x s g = g
    next_input-Found (suc turns) x s g =
        look_again-Found x (next_input i work turns) _
          (Looks-Grows x s.world _ g
            (looked-Looks s.world s.workers (i.poll s.world) (inlet_laws.on_poll s.world)))
          (next_input-Found turns x)
