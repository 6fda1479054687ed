-- ===== src/Work/Line/Ends.antt =====
-- The search of a work node whose input has no producer left ends.
use areamy.Common.{ℕ, ◌<◌, ◌≡◌, ◌≢◌, refl, ap, Option, none, some, List, ◌∷◌, length, arith}
use areamy.Error.{fatal, any, closed, Result, ok, err, Op}
use areamy.Message.{Message, data', flush, marker}
use areamy.Work.Node.{Routine, Inlet, Incoming, instead}
use areamy.Work.Node.Round.Keeps.{Less, search_loop-some}
use areamy.Work.Line.{Search, owe_flush, accept, polled, owed, after_next, turn, next_message}

module _ {ℓ} {X M : Type ℓ} (waiting : X → List M) where
  -- A message that an edge gives out is the first that waits there.
  abbrev pub Drains : X → Result (Option M) × X → Type ℓ
  Drains x (ok none, x') = Unit
  Drains x (ok (some m), x') = waiting x ≡ m ∷ waiting x'
  Drains x (err e, x') = Unit

module _ {ℓ} {R W D Out S X : Type ℓ} (r : Routine R D Out) (i : Inlet X (Message D S))
    (work : W → Op X (Unit {0})) (waiting : X → List (Message D S))
    (drains : (x : X) → Drains waiting x (i.poll x))
    (left_by_all : (x : X) → (i.poll x).0 ≢ ok none) where
  -- A turn that goes round again took a message off the edge.
  abbrev Shorter :
      ℕ → Result (Option (Incoming (Message Out S))) × Search R W (Message Out S) X → Type 0
  Shorter = Less (λ (s : Search R W (Message Out S) X). length (waiting s.world))

  instead-Shorter :
      (n : ℕ) (a : Result (Unit {0})) (s : Search R W (Message Out S) X)
      → length (waiting s.world) < n
      → Shorter n (instead none a, s)
  instead-Shorter n (ok u) s h = h
  instead-Shorter n (err e) s h = tt

  owe_flush-Shorter :
      (n : ℕ) (o : S) (a : Result (Unit {0})) (s : Search R W (Message Out S) X)
      → length (waiting s.world) < n
      → Shorter n (owe_flush r i work o a s)
  unfolding owe_flush
  owe_flush-Shorter n o (ok u) s h = h
  owe_flush-Shorter n o (err e) s h = tt

  accept-Shorter :
      (n : ℕ) (m : Message D S) (s : Search R W (Message Out S) X)
      → length (waiting s.world) < n
      → Shorter n (accept r i work m s)
  unfolding accept
  accept-Shorter n (data' d) s h = instead-Shorter n (r.send s.routine d).0 _ h
  accept-Shorter n (flush o) s h = owe_flush-Shorter n o (r.flush s.routine).0 _ h
  accept-Shorter n (marker o) s h = h

  polled-Shorter :
      (s : Search R W (Message Out S) X) (a : Result (Option (Message D S)) × X)
      → Drains waiting s.world a
      → a.0 ≢ ok none
      → Shorter (length (waiting s.world)) (polled r i work a.0 (record s { world = a.1 }))
  unfolding polled
  polled-Shorter s (ok (some m), x) h c = accept-Shorter _ m _ (omega (arith, ap length h))
  polled-Shorter s (ok none, x) h c = absurd (c refl)
  polled-Shorter s (err closed, x) h c = tt
  polled-Shorter s (err (fatal m), x) h c = tt
  polled-Shorter s (err (any e), x) h c = tt

  owed-Shorter :
      (o : Option (Message Out S)) (s : Search R W (Message Out S) X)
      → Shorter (length (waiting s.world)) (owed r i work o s)
  unfolding owed
  owed-Shorter (some m) s = tt
  owed-Shorter none s = polled-Shorter s (i.poll s.world) (drains s.world) (left_by_all s.world)

  after_next-Shorter :
      (a : Result (Option Out)) (s : Search R W (Message Out S) X)
      → Shorter (length (waiting s.world)) (after_next r i work a s)
  unfolding after_next
  after_next-Shorter (ok (some o)) s = tt
  after_next-Shorter (ok none) s = owed-Shorter s.pending s
  after_next-Shorter (err e) s = tt

  -- On an edge that no producer is left at, so that polling it never finds it empty, `next_message`
  -- ends, with a message, closed or an error, in as many turns as messages wait and one more, whatever
  -- the routine answers.
  pub next_message-some :
      (turns : ℕ) (s : Search R W (Message Out S) X)
      → length (waiting s.world) < turns
      → (found : Result (Incoming (Message Out S))) × ((next_message r i work turns s).0
          ≡ some found)
  unfolding next_message turn
  next_message-some =
      search_loop-some (λ s. length (waiting s.world)) (turn r i work)
        (λ s. after_next-Shorter (r.next s.routine).0 (record s { routine = (r.next s.routine).1 }))
