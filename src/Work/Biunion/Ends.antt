-- ===== src/Work/Biunion/Ends.antt =====
-- The search of a node whose two inputs have no producer left ends.
use areamy.Common.{ℕ, ◌<◌, ◌≤◌, ◌≡◌, ◌≢◌, refl, Bool, true, false, Option, none, some, arith}
use areamy.Error.{fatal, any, closed, Result, ok, err, Op}
use areamy.Message.{Message, data', flush, marker}
use areamy.Work.Node.{Incoming}
use areamy.Work.Node.Round.Keeps.{Less, search_loop-some}
use areamy.Work.Biunion.{
  BiunionRoutine, Inlets, Search, owe_flush, accept, taken_in, side_polled, both_polled,
  after_right, after_left, owed_signal, after_next, turn, next_message,
}

module _ {ℓ} {S X : Type ℓ} (waiting : X → ℕ) where
  -- A poll that gives out a message leaves less to wait; all on the two edges is counted.
  abbrev pub Drains : {A : Type ℓ} → ℕ → Result (Option (Message A S)) × X → Type 0
  Drains n (ok (some m), x) = waiting x < n
  Drains n (ok none, x) = waiting x ≤ n
  Drains n (err e, x) = waiting x ≤ n

module _ {ℓ} {R W D E Out S X : Type ℓ} (r : BiunionRoutine R D E Out)
    (i : Inlets X (Message D S) (Message E S)) (work : W → Op X (Unit {0})) (waiting : X → ℕ) where
  abbrev left : Search R W (Message Out S) X → ℕ
  left s = waiting s.world

  -- A side that goes round took a message; one that was looked at in vain is closed.
  abbrev Sided : ℕ → Result (Option Bool) × Search R W (Message Out S) X → Type 0
  Sided n (ok none, s) = waiting s.world < n
  Sided n (ok (some true), s) = waiting s.world ≤ n
  Sided n (ok (some false), s) = n < n
  Sided n (err e, s) = Unit

  module _ {A : Type ℓ} (send : R → A → Result (Unit {0}) × R) where
    taken_in-Sided :
        (n : ℕ) (a : Result (Unit {0}) × Search R W (Message Out S) X)
        → waiting a.1.world < n
        → Sided n (taken_in a)
    unfolding taken_in
    taken_in-Sided n (ok u, s) h = h
    taken_in-Sided n (err e, s) h = tt

    owe_flush-world :
        (o : S) (a : Result (Unit {0})) (s : Search R W (Message Out S) X)
        → (owe_flush o a s).1.world ≡ s.world
    unfolding owe_flush
    owe_flush-world o (ok u) s = refl
    owe_flush-world o (err e) s = refl

    accept-world :
        (m : Message A S) (s : Search R W (Message Out S) X)
        → (accept send r.flush m s).1.world ≡ s.world
    unfolding accept
    accept-world (data' d) s = refl
    accept-world (flush o) s = owe_flush-world o (r.flush s.routine).0 _
    accept-world (marker o) s = refl

    side_polled-Sided :
        (n : ℕ) (s : Search R W (Message Out S) X) (a : Result (Option (Message A S)) × X)
        → Drains waiting n a
        → a.0 ≢ ok none
        → Sided n (side_polled send r.flush a.0 (record s { world = a.1 }))
    unfolding side_polled
    side_polled-Sided n s (ok (some m), x) h ne =
        taken_in-Sided n _ (rw (accept-world m (record s { world = x })) h)
    side_polled-Sided n s (ok none, x) h ne = absurd (ne refl)
    side_polled-Sided n s (err closed, x) h ne = h
    side_polled-Sided n s (err (fatal m), x) h ne = tt
    side_polled-Sided n s (err (any e), x) h ne = tt

  module _ (left_drains : (x : X) → Drains waiting (waiting x) (i.poll_left x))
      (right_drains : (x : X) → Drains waiting (waiting x) (i.poll_right x))
      (left_by_all : (x : X) → (i.poll_left x).0 ≢ ok none)
      (right_by_all : (x : X) → (i.poll_right x).0 ≢ ok none) where
    after_right-Less :
        (n : ℕ) (a : Result (Option Bool) × Search R W (Message Out S) X)
        → Sided n a
        → Less left n (after_right r i work true a)
    unfolding after_right both_polled
    after_right-Less n (ok none, s) h = h
    after_right-Less n (ok (some true), s) h = tt
    after_right-Less n (ok (some false), s) h = absurd (omega arith)
    after_right-Less n (err e, s) h = tt

    Less-le :
        (n k : ℕ) (x : Result (Option (Incoming (Message Out S))) × Search R W (Message Out S) X)
        → n ≤ k
        → Less left n x
        → Less left k x
    Less-le n k (ok none, s) l h = omega arith
    Less-le n k (ok (some m), s) l h = tt
    Less-le n k (err e, s) l h = tt

    after_left-Less :
        (n : ℕ) (a : Result (Option Bool) × Search R W (Message Out S) X)
        → Sided n a
        → Less left n (after_left r i work a)
    unfolding after_left
    after_left-Less n (ok none, s) h = h
    after_left-Less n (ok (some true), s) h = Less-le (waiting s.world) n _ h (
        after_right-Less (waiting s.world) _ (
          side_polled-Sided r.send_right (waiting s.world) s (i.poll_right s.world)
            (right_drains s.world) (right_by_all s.world)))
    after_left-Less n (ok (some false), s) h = absurd (omega arith)
    after_left-Less n (err e, s) h = tt

    owed_signal-Less :
        (o : Option (Message Out S)) (s : Search R W (Message Out S) X)
        → Less left (waiting s.world) (owed_signal r i work o s)
    unfolding owed_signal
    owed_signal-Less (some m) s = tt
    owed_signal-Less none s = after_left-Less (waiting s.world) _ (
        side_polled-Sided r.send_left (waiting s.world) s (i.poll_left s.world)
          (left_drains s.world) (left_by_all s.world))

    after_next-Less :
        (a : Result (Option Out)) (s : Search R W (Message Out S) X)
        → Less left (waiting s.world) (after_next r i work a s)
    unfolding after_next
    after_next-Less (ok (some o)) s = tt
    after_next-Less (ok none) s = owed_signal-Less s.pending s
    after_next-Less (err e) s = tt

    -- On two edges that no producer is left at, so that polling one never finds it empty,
    -- `next_message` ends, with a message, closed or an error, in as many turns as messages wait on
    -- both and one more, whatever the routine answers.
    pub next_message-ends :
        (turns : ℕ) (s : Search R W (Message Out S) X)
        → waiting s.world < turns
        → (found : Result (Incoming (Message Out S))) × ((next_message r i work turns s).0
            ≡ some found)
    unfolding next_message turn
    next_message-ends =
        search_loop-some left (turn r i work) (λ s. after_next-Less (r.next s.routine).0 _)
