-- ===== src/Edge/Sync/Threads/Sleepers.antt =====
-- No wakeup is lost.
use areamy.Common.{
  ℕ, ◌+◌, ◌≤◌, ◌<◌, ◌≡◌, refl, ◌∙◌, ◌⊎◌, inl, ◌≢◌, true, false, Option, none, some, List, [], ◌∷◌,
  map, arith, is_some, length, length-append,
}
use areamy.Edge.Sync.{wake, with_bound, is_full}
use areamy.Wake.{Waker}
use areamy.Edge.Sync.Threads.{
  Threads, asleep, Action, push, push_again, try_push, act, perform, fresh, for_reader, for_one,
  for_all,
}

wakes-count :
    (ws : List Waker)
    → (for_reader (map wake ws) ≡ 0) × (for_one (map wake ws) ≡ 0) × (for_all (map wake ws) ≡ 0)
unfolding for_reader for_one for_all
wakes-count [] = (refl, refl, refl)
wakes-count (w ∷ ws) = wakes-count ws

-- The slots of a bounded edge.
abbrev slots : Option ℕ → ℕ
slots none = 0
slots (some b) = b

module _ {ℓ} {M : Type ℓ} where
  -- A sleeping producer waits for a notification of all, or the edge is open and its free slots are
  -- no more than the producers that were woken for them.
  abbrev Producers : Threads M → Type 0
  Producers t =
      (t.sleeping ≡ 0)
      ⊎ (0 < t.to_all)
      ⊎ ((t.is_closed ≡ false)
          × (is_some t.bound ≡ true)
          × (slots t.bound ≤ length t.buffer + t.awake + t.to_one))

  -- A sleeping reader waits for a notification, or the edge is open, empty and has a producer.
  abbrev Consumer : Threads M → Type 0
  Consumer t =
      (t.reader ≢ asleep)
      ⊎ (0 < t.to_reader)
      ⊎ ((t.is_closed ≡ false)
          × (length t.buffer ≡ 0)
          × (t.consumer_waiting ≡ true)
          × ((t.producer_count ≢ 0) ⊎ (0 < t.closing)))

  record Inv (t : Threads M) : Type 0 where
    counted : t.producers_waiting ≡ t.sleeping + t.awake
    producers : Producers t
    consumer : Consumer t

  act-counted :
      (t : Threads M) (a : Action M)
      → Inv t
      → (act t a).producers_waiting ≡ (act t a).sleeping + (act t a).awake
  unfolding act
  act-counted t (push h m) i = ground arith
  act-counted t a i = ground arith

  act-Producers : (t : Threads M) (a : Action M) → Inv t → Producers (act t a)
  unfolding act for_one for_all
  act-Producers t (push h m) i =
      ground (arith, wakes-count t.refused, length-append t.buffer (m ∷ []))
  act-Producers t (push_again m) i =
      ground (arith, wakes-count t.refused, length-append t.buffer (m ∷ []))
  act-Producers t (try_push h m) i =
      ground (arith, wakes-count t.refused, length-append t.buffer (m ∷ []))
  act-Producers t a i = ground (arith, wakes-count t.refused)

  act-Consumer : (t : Threads M) (a : Action M) → Inv t → Consumer (act t a)
  unfolding act for_reader
  act-Consumer t (push h m) i = ground (arith, wakes-count t.refused)
  act-Consumer t a i = ground (arith, wakes-count t.refused)

  act-Inv : (t : Threads M) (a : Action M) → Inv t → Inv (act t a)
  act-Inv t a i = record {
    counted = act-counted t a i;
    producers = act-Producers t a i;
    consumer = act-Consumer t a i;
  }

  perform-Inv : (t : Threads M) (as' : List (Action M)) → Inv t → Inv (perform t as')
  unfolding perform
  perform-Inv t [] i = i
  perform-Inv t (a ∷ as') i = perform-Inv (act t a) as' (act-Inv t a i)

  act-bound : (t : Threads M) (a : Action M) → (act t a).bound ≡ t.bound
  unfolding act
  act-bound t (push h m) = ground arith
  act-bound t a = ground arith

  perform-bound : (t : Threads M) (as' : List (Action M)) → (perform t as').bound ≡ t.bound
  unfolding perform
  perform-bound t [] = refl
  perform-bound t (a ∷ as') = perform-bound (act t a) as' ∙ act-bound t a

  perform-fresh-bound :
      (bound : Option ℕ) (as' : List (Action M)) → (perform (fresh bound) as').bound ≡ bound
  unfolding fresh with_bound
  perform-fresh-bound bound as' = perform-bound (fresh bound) as'

  fresh-Inv : (bound : Option ℕ) → Inv (fresh {M = M} bound)
  unfolding fresh with_bound
  fresh-Inv bound = record { counted = omega arith; producers = inl refl; consumer = inl (λ e. cc) }

  perform-fresh-Inv : (bound : Option ℕ) (as' : List (Action M)) → Inv (perform (fresh bound) as')
  perform-fresh-Inv bound as' = perform-Inv (fresh bound) as' (fresh-Inv bound)

  -- On a new edge, after any schedule: if a producer sleeps, no notification of producers is under
  -- way and none was woken that has not looked again, then the edge is open and full.
  pub sleeping_producer :
      (bound : Option ℕ) (as' : List (Action M))
      → (perform (fresh bound) as').sleeping ≢ 0
      → (perform (fresh bound) as').to_all ≡ 0
      → (perform (fresh bound) as').to_one ≡ 0
      → (perform (fresh bound) as').awake ≡ 0
      → ((perform (fresh bound) as').is_closed ≡ false)
        × (is_full (perform (fresh bound) as').inner ≡ true)
  sleeping_producer bound as' asleep' no_all no_one none_awake =
      ground (arith, perform-fresh-Inv bound as')

  -- On a new edge, after any schedule: if the receiver sleeps, no notification of it is under way
  -- and no producer stands between its release and its close, then the edge is open and empty and
  -- has a producer.
  pub sleeping_reader :
      (bound : Option ℕ) (as' : List (Action M))
      → (perform (fresh bound) as').reader ≡ asleep
      → (perform (fresh bound) as').to_reader ≡ 0
      → (perform (fresh bound) as').closing ≡ 0
      → ((perform (fresh bound) as').is_closed ≡ false)
        × (length (perform (fresh bound) as').buffer ≡ 0)
        × ((perform (fresh bound) as').producer_count ≢ 0)
  sleeping_reader bound as' sleeps no_notice none_closing =
      ground (arith, perform-fresh-Inv bound as')

  -- On a new edge with at least one slot, after any schedule, the two ends never wait for one
  -- another: with nothing under way, the receiver and a producer do not both sleep.
  not-both_asleep :
      (b : ℕ) (as' : List (Action M))
      → 0 < b
      → (perform (fresh (some b)) as').to_reader ≡ 0
      → (perform (fresh (some b)) as').to_all ≡ 0
      → (perform (fresh (some b)) as').to_one ≡ 0
      → (perform (fresh (some b)) as').awake ≡ 0
      → ((perform (fresh (some b)) as').sleeping ≡ 0)
        ⊎ ((perform (fresh (some b)) as').reader ≢ asleep)
  not-both_asleep b as' some_slot no_notice no_all no_one none_awake =
      ground (arith, perform-fresh-Inv (some b) as', perform-fresh-bound (some b) as')
