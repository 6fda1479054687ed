-- ===== src/Poll/Thread/Ends.antt =====
-- The loop ends once every node was woken as often as it takes.
use areamy.Common.{
  ℕ, zero, suc, ◌+◌, ◌<◌, ◌≡◌, ◌==◌, Bool-cases, Option, none, some, List, [], ◌∷◌, refl, sym, ◌∙◌,
  subst, inl, inr, arith, map, get_elem?, set, if◌then◌else◌,
}
use areamy.Error.{fatal, any, closed, Result, ok, err}
use areamy.Poll.Node.{Polled, ready, pending}
use areamy.Poll.Thread.{Runtime, vacate, put_back, polled, turn, go_on, poll_loop, run}
use areamy.Poll.Thread.Occupied.{occupied, occupied-full, occupied-none, occupied-some}

-- How often an id is handed out.
abbrev pub count : ℕ → List ℕ → ℕ
count i [] = 0
count i (j ∷ ids) = if i == j then suc (count i ids) else count i ids

module _ {ℓ} {P : Type ℓ} (left : P → ℕ) where
  -- Every node is woken more often than it stays pending; `from` is the first slot's id.
  abbrev pub Enough : (ℕ → ℕ) → ℕ → List (Option P) → Type 0
  Enough wakes from [] = Unit
  Enough wakes from (none ∷ ns) = Enough wakes (suc from) ns
  Enough wakes from (some p ∷ ns) = (left p < wakes from) × Enough wakes (suc from) ns

  -- Nothing to wake is nothing left.
  Enough-zero : (from : ℕ) (ns : List (Option P)) → Enough (λ i. 0) from ns → occupied ns ≡ 0
  Enough-zero from [] h = refl
  Enough-zero from (none ∷ ns) h = Enough-zero (suc from) ns h
  Enough-zero from (some p ∷ ns) h = absurd (omega arith)

  -- Slots behind the one that was woken.
  Enough-later :
      (i from : ℕ) (ids : List ℕ) (ns : List (Option P))
      → i < from
      → Enough (λ k. count k (i ∷ ids)) from ns
      → Enough (λ k. count k ids) from ns
  Enough-later i from ids [] l h = tt
  Enough-later i from ids (none ∷ ns) l h = Enough-later i (suc from) ids ns (omega arith) h
  Enough-later i from ids (some p ∷ ns) l (h, hs) =
      (ground (arith, h), Enough-later i (suc from) ids ns (omega arith) hs)

  -- The slot of the id, in the list, was woken, and holds `slot` now.
  abbrev Spent : Option P → ℕ → Type 0
  Spent none wakes = Unit
  Spent (some p) wakes = left p < wakes

  Enough-set :
      (i k from : ℕ) (ids : List ℕ) (ns : List (Option P)) (slot : Option P)
      → i ≡ from + k
      → Spent slot (count i ids)
      → Enough (λ j. count j (i ∷ ids)) from ns
      → Enough (λ j. count j ids) from (set ns k slot)
  Enough-set i k from ids [] slot e s h = tt
  Enough-set i zero from ids (none ∷ ns) none e s h =
      Enough-later i (suc from) ids ns (omega arith) h
  Enough-set i zero from ids (none ∷ ns) (some p) e s h = (
    subst (λ j. left p < count j ids) (omega arith) s,
    Enough-later i (suc from) ids ns (omega arith) h,
  )
  Enough-set i zero from ids (some q ∷ ns) none e s (h, hs) =
      Enough-later i (suc from) ids ns (omega arith) hs
  Enough-set i zero from ids (some q ∷ ns) (some p) e s (h, hs) = (
    subst (λ j. left p < count j ids) (omega arith) s,
    Enough-later i (suc from) ids ns (omega arith) hs,
  )
  Enough-set i (suc k) from ids (none ∷ ns) slot e s h =
      Enough-set i k (suc from) ids ns slot (omega arith) s h
  Enough-set i (suc k) from ids (some q ∷ ns) slot e s (h, hs) =
      (ground (arith, h), Enough-set i k (suc from) ids ns slot (omega arith) s hs)

  -- What is known of the node that is woken.
  Enough-get :
      (i k from : ℕ) (wakes : ℕ → ℕ) (ns : List (Option P)) (p : P)
      → i ≡ from + k
      → get_elem? ns k ≡ some (some p)
      → Enough wakes from ns
      → left p < wakes i
  Enough-get i k from wakes [] p e g h = cc
  Enough-get i zero from wakes (none ∷ ns) p e g h = cc
  Enough-get i zero from wakes (some q ∷ ns) p e g (h, hs) =
      let same : q ≡ p = ground (arith, g) in
      subst (λ j. left p < wakes j) (omega arith) (rw same at h)
  Enough-get i (suc k) from wakes (none ∷ ns) p e g h =
      Enough-get i k (suc from) wakes ns p (omega arith) g h
  Enough-get i (suc k) from wakes (some q ∷ ns) p e g (h, hs) =
      Enough-get i k (suc from) wakes ns p (omega arith) g hs

  -- A wake of a slot that is empty changes nothing.
  Enough-skip :
      (i k from : ℕ) (ids : List ℕ) (ns : List (Option P))
      → i ≡ from + k
      → get_elem? ns k ≡ some none
      → Enough (λ j. count j (i ∷ ids)) from ns
      → Enough (λ j. count j ids) from ns
  Enough-skip i k from ids [] e g h = tt
  Enough-skip i zero from ids (none ∷ ns) e g h = Enough-later i (suc from) ids ns (omega arith) h
  Enough-skip i zero from ids (some q ∷ ns) e g (h, hs) = cc
  Enough-skip i (suc k) from ids (none ∷ ns) e g h =
      Enough-skip i k (suc from) ids ns (omega arith) g h
  Enough-skip i (suc k) from ids (some q ∷ ns) e g (h, hs) =
      (ground (arith, h), Enough-skip i k (suc from) ids ns (omega arith) g hs)

module _ {ℓ} {P X : Type ℓ} (poll : P → X → Result Polled × P × X) (drop : P → X → X) (left : P → ℕ)
    (ends : (p : P) (x : X) → (poll p x).0 ≡ ok pending → left (poll p x).1 < left p) where
  -- What holds between two turns.
  abbrev Goes : List ℕ → Runtime P X → Type 0
  Goes ids s = (s.alive ≡ occupied s.nodes) × Enough left (λ j. count j ids) 0 s.nodes

  abbrev GoesOn : List ℕ → Result (Unit {0}) × Runtime P X → Type 0
  GoesOn ids (ok u, s) = Goes ids s
  GoesOn ids (err e, s) = Unit

  polled-GoesOn :
      (i : ℕ) (ids : List ℕ) (s : Runtime P X) (p : P) (a : Result Polled × P × X)
      → get_elem? s.nodes i ≡ some (some p)
      → (a.0 ≡ ok pending → left a.1 < left p)
      → Goes (i ∷ ids) s
      → GoesOn ids (polled poll drop i a s)
  unfolding polled vacate put_back
  polled-GoesOn i ids s p (ok pending, q, x) g l (c, h) =
      let few = Enough-get left i i 0 (λ j. count j (i ∷ ids)) s.nodes p (omega arith) g h in
      let less = l refl in
      (
        c ∙ sym (occupied-some s.nodes i p q g),
        Enough-set left i i 0 ids s.nodes (some q) (omega arith) (ground (arith, few)) h,
      )
  polled-GoesOn i ids s p (ok ready, q, x) g l (c, h) = (
    omega (arith, c, occupied-none s.nodes i p g),
    Enough-set left i i 0 ids s.nodes none (omega arith) tt h,
  )
  polled-GoesOn i ids s p (err closed, q, x) g l (c, h) = (
    omega (arith, c, occupied-none s.nodes i p g),
    Enough-set left i i 0 ids s.nodes none (omega arith) tt h,
  )
  polled-GoesOn i ids s p (err (fatal m), q, x) g l h = tt
  polled-GoesOn i ids s p (err (any e), q, x) g l h = tt

  slot-GoesOn :
      (i : ℕ) (ids : List ℕ) (s : Runtime P X) (slot : Option (Option P))
      → get_elem? s.nodes i ≡ slot
      → Goes (i ∷ ids) s
      → GoesOn ids (turn poll drop i s)
  unfolding turn
  slot-GoesOn i ids s none g h = rw (g, turn) tt
  slot-GoesOn i ids s (some none) g (c, h) =
      rw (g, turn) (c, Enough-skip left i i 0 ids s.nodes (omega arith) g h)
  slot-GoesOn i ids s (some (some p)) g h =
      rw (g, turn) (polled-GoesOn i ids s p (poll p s.world) g (ends p s.world) h)

  abbrev pub Returns : Option (Result (Unit {0})) × Runtime P X → Type 0
  Returns x = (r : Result (Unit {0})) × (x.0 ≡ some r)

  go_on-Returns :
      (ids : List ℕ) (onward : Runtime P X → Option (Result (Unit {0})) × Runtime P X)
      (x : Result (Unit {0}) × Runtime P X)
      → GoesOn ids x
      → ((s : Runtime P X) → Goes ids s → Returns (onward s))
      → Returns (go_on poll drop onward x)
  unfolding go_on
  go_on-Returns ids onward (ok u, s) h on = on s h
  go_on-Returns ids onward (err e, s) h on = (err e, refl)

  poll_loop-Returns :
      (ids : List ℕ) (s : Runtime P X) → Goes ids s → Returns (poll_loop poll drop ids s)
  unfolding poll_loop
  poll_loop-Returns [] s (c, h) = elim (Bool-cases (s.alive == 0)) [
    | inl e ↦ (ok tt, rw (e, poll_loop))
    | inr e ↦ absurd (ground (arith, Enough-zero left 0 s.nodes h))
  ]
  poll_loop-Returns (i ∷ ids) s h = elim (Bool-cases (s.alive == 0)) [
    | inl e ↦ (ok tt, rw (e, poll_loop))
    | inr e ↦
        rw (e, poll_loop)
          (go_on-Returns ids (poll_loop poll drop ids) (turn poll drop i s)
            (slot-GoesOn i ids s (get_elem? s.nodes i) refl h) (poll_loop-Returns ids))
  ]

  -- A graph whose every node stays pending a bounded number of times, and closes or fails then: once
  -- each was handed out more often than it stays pending, in whatever order and with whatever other
  -- ids between, the loop has returned.
  pub run-Returns :
      (ids : List ℕ) (ps : List P) (x : X)
      → Enough left (λ i. count i ids) 0 (map some ps)
      → (r : Result (Unit {0})) × ((run poll drop ids (map some ps) x).0 ≡ some r)
  unfolding run
  run-Returns ids ps x h = poll_loop-Returns ids _ (occupied-full ps, h)
