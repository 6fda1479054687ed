-- ===== src/Work/Biunion/Turns.antt =====
-- Each turn of the search of a node with two inputs keeps the merge.
use areamy.Common.{
  Bool, true, false, Option, none, some, List, [], ◌∷◌, ◌++◌, ◌≡◌, refl, sym, ◌∙◌, subst, ◌⊎◌, inl,
  inr, append-nil,
}
use areamy.Error.{fatal, any, closed, Result, ok, err, Op}
use areamy.Message.{Message, data', flush, marker}
use areamy.Work.Each.{work_each}
use areamy.Work.Node.{instead}
use areamy.Work.Node.Stream.{Extends, signal, work_each-Grows}
use areamy.Work.Node.Round.Keeps.{Turned}
use areamy.Work.Biunion.{
  BiunionRoutine, Inlets, Search, owe_flush, accept, taken_in, side_polled, worked_right,
  work_sides, waited, starved, both_polled, after_right, after_left, owed_signal, after_next, turn,
}
use areamy.Work.Biunion.Merge.{
  Read, from_left, from_right, on_left, on_right, data_of, signal_of, BothGrow, Took, Kept, Gives,
  Polls, Polls-left, Polls-right, BiunionLaws, InletsLaws, Merged, Merged-grow, Merged-reads,
  Merged-next, Merged-idle, Merged-owed,
}

module _ {ℓ} {R W D E Out S X : Type ℓ} (taken : R → List (D ⊎ E)) (owes : R → List Out)
    (left_waiting : X → List (Message D S)) (right_waiting : X → List (Message E S)) (x₀ : R)
    (p₀ : Option (Message Out S)) (w₀ : X) where
  abbrev pub Holds : List (Message Out S) → Search R W (Message Out S) X → Type ℓ
  Holds sent s =
      Merged taken owes left_waiting right_waiting x₀ p₀ w₀ sent s.routine s.pending s.world

  -- Nothing is to be put out.
  abbrev Idle : Search R W (Message Out S) X → Type ℓ
  Idle s = (owes s.routine ≡ []) × (s.pending ≡ none)

  abbrev Accepts : List (Message Out S) → Result (Unit {0}) × Search R W (Message Out S) X → Type ℓ
  Accepts sent (ok u, s) = Holds sent s
  Accepts sent (err e, s) = Unit

  abbrev Sided : List (Message Out S) → Result (Option Bool) × Search R W (Message Out S) X → Type ℓ
  Sided sent (ok none, s) = Holds sent s
  Sided sent (ok (some closed_side), s) = Holds sent s × Idle s
  Sided sent (err e, s) = Unit

  -- One of the sides: its data is `tag`ged for the routine, and its messages are read `from` it.
  module _ {A : Type ℓ} (tag : A → D ⊎ E) (from : Message A S → Read D E S)
      (of_data : (d : A) → data_of (from (data' d)) ≡ tag d ∷ [])
      (of_flush : (o : S) → data_of (from (flush o)) ≡ [])
      (of_marker : (o : S) → data_of (from (marker o)) ≡ [])
      (of_signal : (m : Message A S) → signal {D = Out} m ≡ signal_of (from m))
      (send : R → A → Result (Unit {0}) × R) (flush_it : R → Result (Unit {0}) × R)
      (on_send : (x : R) (d : A) → Took taken tag x d (send x d))
      (on_flush : (x : R) → Kept taken x (flush_it x)) where
    sent-Accepts :
        (sent : List (Message Out S)) (d : A) (s : Search R W (Message Out S) X) (w : X)
        (a : Result (Unit {0}) × R)
        → Took taken tag s.routine d a
        → Idle s
        → Extends (left_waiting w) (on_left (from (data' d)) ++ left_waiting s.world)
        → Extends (right_waiting w) (on_right (from (data' d)) ++ right_waiting s.world)
        → Merged taken owes left_waiting right_waiting x₀ p₀ w₀ sent s.routine none w
        → Accepts sent (a.0, record s { routine = a.1 })
    sent-Accepts sent d s w (ok u, x) t (e, p) l r h =
        subst (λ q. Merged taken owes left_waiting right_waiting x₀ p₀ w₀ sent x q s.world) (sym p)
          (Merged-reads taken owes left_waiting right_waiting x₀ p₀ w₀ sent s.routine x none w
            s.world (from (data' d)) e (rw (of_data d) t) (of_signal (data' d)) l r h)
    sent-Accepts sent d s w (err y, x) t i l r h = tt

    flushed-Accepts :
        (sent : List (Message Out S)) (o : S) (s : Search R W (Message Out S) X) (w : X)
        (a : Result (Unit {0}) × R)
        → Kept taken s.routine a
        → Idle s
        → Extends (left_waiting w) (on_left (from (flush o)) ++ left_waiting s.world)
        → Extends (right_waiting w) (on_right (from (flush o)) ++ right_waiting s.world)
        → Merged taken owes left_waiting right_waiting x₀ p₀ w₀ sent s.routine none w
        → Accepts sent (owe_flush o a.0 (record s { routine = a.1 }))
    unfolding owe_flush
    flushed-Accepts sent o s w (ok u, x) t (e, p) l r h =
        Merged-reads taken owes left_waiting right_waiting x₀ p₀ w₀ sent s.routine x
          (some (flush o)) w s.world (from (flush o)) e
          (rw (of_flush o) (t ∙ sym (append-nil (taken s.routine)))) (of_signal (flush o)) l r h
    flushed-Accepts sent o s w (err y, x) t i l r h = tt

    accept-Accepts :
        (sent : List (Message Out S)) (m : Message A S) (s : Search R W (Message Out S) X) (w : X)
        → Idle s
        → Extends (left_waiting w) (on_left (from m) ++ left_waiting s.world)
        → Extends (right_waiting w) (on_right (from m) ++ right_waiting s.world)
        → Merged taken owes left_waiting right_waiting x₀ p₀ w₀ sent s.routine none w
        → Accepts sent (accept send flush_it m s)
    unfolding accept
    accept-Accepts sent (data' d) s w i l r h =
        sent-Accepts sent d s w (send s.routine d) (on_send s.routine d) i l r h
    accept-Accepts sent (flush o) s w i l r h =
        flushed-Accepts sent o s w (flush_it s.routine) (on_flush s.routine) i l r h
    accept-Accepts sent (marker o) s w (e, p) l r h =
        Merged-reads taken owes left_waiting right_waiting x₀ p₀ w₀ sent s.routine s.routine
          (some (marker o)) w s.world (from (marker o)) e
          (rw (of_marker o) (sym (append-nil (taken s.routine)))) (of_signal (marker o)) l r h

    taken_in-Sided :
        (sent : List (Message Out S)) (a : Result (Unit {0}) × Search R W (Message Out S) X)
        → Accepts sent a
        → Sided sent (taken_in a)
    unfolding taken_in
    taken_in-Sided sent (ok u, s) h = h
    taken_in-Sided sent (err e, s) h = tt

    side_polled-Sided :
        (sent : List (Message Out S)) (s : Search R W (Message Out S) X)
        (a : Result (Option (Message A S)) × X)
        → Polls left_waiting right_waiting from s.world a
        → Idle s
        → Holds sent s
        → Sided sent (side_polled send flush_it a.0 (record s { world = a.1 }))
    unfolding side_polled
    side_polled-Sided sent s (ok (some m), w) (l, r) i h = taken_in-Sided sent _ (
        accept-Accepts sent m (record s { world = w }) s.world i l r
          (subst
            (λ q. Merged taken owes left_waiting right_waiting x₀ p₀ w₀ sent s.routine q s.world)
            (i.1) h))
    side_polled-Sided sent s (ok none, w) g i h = (
      Merged-grow taken owes left_waiting right_waiting x₀ p₀ w₀ sent s.routine s.pending s.world w
          g h,
      i,
    )
    side_polled-Sided sent s (err closed, w) g i h = (
      Merged-grow taken owes left_waiting right_waiting x₀ p₀ w₀ sent s.routine s.pending s.world w
          g h,
      i,
    )
    side_polled-Sided sent s (err (fatal m), w) g i h = tt
    side_polled-Sided sent s (err (any e), w) g i h = tt

  -- Parents, and the rest of a turn.
  module _ (r : BiunionRoutine R D E Out) (i : Inlets X (Message D S) (Message E S))
      (work : W → Op X (Unit {0})) (laws : BiunionLaws taken owes r)
      (inlets_laws : InletsLaws left_waiting right_waiting i)
      (grows : (w : W) (x : X) → BothGrow left_waiting right_waiting x (work w x).1) where
    Holds-grow :
        (sent : List (Message Out S)) (s : Search R W (Message Out S) X) (w : X)
        → BothGrow left_waiting right_waiting s.world w
        → Holds sent s
        → Merged taken owes left_waiting right_waiting x₀ p₀ w₀ sent s.routine s.pending w
    Holds-grow sent s w =
        Merged-grow taken owes left_waiting right_waiting x₀ p₀ w₀ sent s.routine s.pending s.world
          w

    round-Grow :
        (ws : List W) (x : X) → BothGrow left_waiting right_waiting x (work_each work ws x).2
    round-Grow ws x = (
      work_each-Grows left_waiting work (λ w y. (grows w y).0) ws x,
      work_each-Grows right_waiting work (λ w y. (grows w y).1) ws x,
    )

    instead-Turned :
        (sent : List (Message Out S)) (a : Result (Unit {0})) (s : Search R W (Message Out S) X)
        → Holds sent s
        → Turned Holds sent (instead none a, s)
    instead-Turned sent (ok u) s h = h
    instead-Turned sent (err e) s h = tt

    worked_right-Turned :
        (sent : List (Message Out S)) (a : Result (Unit {0})) (s : Search R W (Message Out S) X)
        → Holds sent s
        → Turned Holds sent (worked_right work a s)
    unfolding worked_right
    worked_right-Turned sent (ok u) s h =
        instead-Turned sent (work_each work s.right_workers s.world).0 _
          (Holds-grow sent s _ (round-Grow s.right_workers s.world) h)
    worked_right-Turned sent (err e) s h = tt

    work_sides-Turned :
        (sent : List (Message Out S)) (s : Search R W (Message Out S) X)
        → Holds sent s
        → Turned Holds sent (work_sides work s)
    unfolding work_sides
    work_sides-Turned sent s h =
        worked_right-Turned sent (work_each work s.left_workers s.world).0 _
          (Holds-grow sent s _ (round-Grow s.left_workers s.world) h)

    waited-Turned :
        (sent : List (Message Out S)) (a : Result (Unit {0})) (s : Search R W (Message Out S) X)
        → Holds sent s
        → Turned Holds sent (waited work a s)
    unfolding waited
    waited-Turned sent (ok u) s h = work_sides-Turned sent s h
    waited-Turned sent (err closed) s h = h
    waited-Turned sent (err (fatal m)) s h = tt
    waited-Turned sent (err (any e)) s h = tt

    starved-Turned :
        (sent : List (Message Out S)) (ws vs : List W) (s : Search R W (Message Out S) X)
        → Holds sent s
        → Turned Holds sent (starved work i.wait_any ws vs s)
    unfolding starved
    starved-Turned sent [] [] s h =
        waited-Turned sent (i.wait_any s.world).0 _
          (Holds-grow sent s _ (inlets_laws.on_wait s.world) h)
    starved-Turned sent (w ∷ ws) vs s h = work_sides-Turned sent s h
    starved-Turned sent [] (v ∷ vs) s h = work_sides-Turned sent s h

    both_polled-Turned :
        (sent : List (Message Out S)) (b c : Bool) (s : Search R W (Message Out S) X)
        → Holds sent s
        → Turned Holds sent (both_polled r i work b c s)
    unfolding both_polled
    both_polled-Turned sent true true s h = h
    both_polled-Turned sent true false s h = starved-Turned sent s.left_workers s.right_workers s h
    both_polled-Turned sent false c s h = starved-Turned sent s.left_workers s.right_workers s h

    after_right-Turned :
        (sent : List (Message Out S)) (b : Bool)
        (a : Result (Option Bool) × Search R W (Message Out S) X)
        → Sided sent a
        → Turned Holds sent (after_right r i work b a)
    unfolding after_right
    after_right-Turned sent b (ok none, s) h = h
    after_right-Turned sent b (ok (some c), s) (h, idle) = both_polled-Turned sent b c s h
    after_right-Turned sent b (err e, s) h = tt

    left-Polls : (w : X) → Polls left_waiting right_waiting from_left w (i.poll_left w)
    left-Polls w =
        Polls-left left_waiting right_waiting w (i.poll_left w) (inlets_laws.left_reads w)
          (inlets_laws.left_grows w)

    right-Polls : (w : X) → Polls left_waiting right_waiting from_right w (i.poll_right w)
    right-Polls w =
        Polls-right left_waiting right_waiting w (i.poll_right w) (inlets_laws.right_reads w)
          (inlets_laws.right_grows w)

    after_left-Turned :
        (sent : List (Message Out S)) (a : Result (Option Bool) × Search R W (Message Out S) X)
        → Sided sent a
        → Turned Holds sent (after_left r i work a)
    unfolding after_left
    after_left-Turned sent (ok none, s) h = h
    after_left-Turned sent (ok (some b), s) (h, idle) = after_right-Turned sent b _ (
        side_polled-Sided inr from_right (λ e. refl) (λ o. refl) (λ o. refl) (λ m. refl)
          r.send_right r.flush laws.on_send_right laws.on_flush sent s (i.poll_right s.world)
          (right-Polls s.world) idle h)
    after_left-Turned sent (err e, s) h = tt

    owed-Turned :
        (sent : List (Message Out S)) (o : Option (Message Out S))
        (s : Search R W (Message Out S) X)
        → s.pending ≡ o
        → owes s.routine ≡ []
        → Holds sent s
        → Turned Holds sent (owed_signal r i work o s)
    unfolding owed_signal
    owed-Turned sent (some m) s p e h =
        Merged-owed taken owes left_waiting right_waiting x₀ p₀ w₀ sent s.routine m s.world e (
          subst
            (λ q. Merged taken owes left_waiting right_waiting x₀ p₀ w₀ sent s.routine q s.world) p
            h)
    owed-Turned sent none s p e h = after_left-Turned sent _ (
        side_polled-Sided inl from_left (λ d. refl) (λ o. refl) (λ o. refl) (λ m. refl) r.send_left
          r.flush laws.on_send_left laws.on_flush sent s (i.poll_left s.world) (left-Polls s.world)
          (e, p) h)

    after_next-Turned :
        (sent : List (Message Out S)) (s : Search R W (Message Out S) X)
        (a : Result (Option Out) × R)
        → Gives taken owes s.routine a
        → Holds sent s
        → Turned Holds sent (after_next r i work a.0 (record s { routine = a.1 }))
    unfolding after_next
    after_next-Turned sent s (ok (some o), x) (t, e) h =
        Merged-next taken owes left_waiting right_waiting x₀ p₀ w₀ sent s.routine x o s.pending
          s.world t e h
    after_next-Turned sent s (ok none, x) (t, e, e') h =
        owed-Turned sent s.pending (record s { routine = x }) refl e'
          (Merged-idle taken owes left_waiting right_waiting x₀ p₀ w₀ sent s.routine x s.pending
            s.world t e e' h)
    after_next-Turned sent s (err e, x) g h = tt

    pub turn-Turned :
        (sent : List (Message Out S)) (s : Search R W (Message Out S) X)
        → Holds sent s
        → Turned Holds sent (turn r i work s)
    unfolding turn
    turn-Turned sent s h = after_next-Turned sent s (r.next s.routine) (laws.on_next s.routine) h
