-- ===== src/Poll/Thread/Slots.antt =====
-- The loop's slots: how many hold a node, and what befell each; and how the loop ends.
use areamy.Common.{
  ℕ, ◌==◌, ◌<◌, ◌≡◌, refl, sym, ◌∙◌, ap, subst, Bool-cases, Option, none, some, List, [], ◌∷◌, inl,
  inr, arith, map, length, get_elem?, set, length-set, ◌⊎◌, true,
}
use areamy.Error.{Error, fatal, any, closed, Result, ok, err}
use areamy.Poll.Node.{Polled, ready, pending}
use areamy.Poll.Thread.{Runtime, vacate, put_back, polled, turn, go_on, poll_loop, run}
use areamy.Poll.Thread.Past.{
  Event, answered, dropped, is_final, about, Left, Past, put_back-Past, stayed-Past, left-Past,
  fresh-Past,
}
use areamy.Poll.Thread.Occupied.{
  occupied, occupied-none, occupied-some, length-map-some, occupied-full, get_elem?-there,
  get_elem?-unoccupied,
}

-- The world logs the polls' answers and the drops, by the slot that the node was put in.
module _ {ℓ} {P X : Type ℓ} (poll : P → X → Result Polled × P × X) (drop : P → X → X)
    (place : P → ℕ) (log : X → List Event)
    (stays_placed : (p : P) (x : X) → place (poll p x).1 ≡ place p)
    (logs_answer : (p : P) (x : X) → log (poll p x).2 ≡ answered (place p) (poll p x).0 ∷ log x)
    (logs_drop : (p : P) (x : X) → log (drop p x) ≡ dropped (place p) ∷ log x) where
  -- `alive` is the number of occupied slots, of the `all` slots, and every slot holds what the
  -- events say of it.
  pub record Accounts (all : ℕ) (es : List Event) (s : Runtime P X) : Type 0 where
    pub counted : s.alive ≡ occupied s.nodes
    pub kept : length s.nodes ≡ all
    pub past : (i : ℕ) → Past place i (about i es) (get_elem? s.nodes i)

  put_back-Accounts :
      (all : ℕ) (es : List Event) (s : Runtime P X) (i : ℕ) (p q : P) (x : X)
      → get_elem? s.nodes i ≡ some (some p)
      → ((j : ℕ) → Past place j (about j es) (get_elem? (set s.nodes i (some q)) j))
      → Accounts all (log s.world) s
      → Accounts all es (put_back poll drop i q x s)
  unfolding put_back
  put_back-Accounts all es s i p q x h past c = record {
    counted = c.counted ∙ sym (occupied-some s.nodes i p q h);
    kept = length-set s.nodes i (some q) ∙ c.kept;
    past = past;
  }

  left-Accounts :
      (all : ℕ) (s : Runtime P X) (i : ℕ) (p q : P) (r : Result Polled) (x : X)
      → get_elem? s.nodes i ≡ some (some p)
      → place q ≡ i
      → log x ≡ answered i r ∷ log s.world
      → is_final r ≡ true
      → Accounts all (log s.world) s
      → Accounts all
          (log (vacate poll drop i q (record s { world = x })).world)
          (vacate poll drop i q (record s { world = x }))
  unfolding vacate
  left-Accounts all s i p q r x h at l f c = record {
    counted = omega (arith, c.counted, occupied-none s.nodes i p h);
    kept = length-set s.nodes i none ∙ c.kept;
    past = λ j.
        subst (λ es. Past place j (about j es) (get_elem? (set s.nodes i none) j))
          (sym (logs_drop q x ∙ ap (λ k. dropped k ∷ log x) at ∙ ap (λ es. dropped i ∷ es) l))
          (left-Past place (log s.world) s.nodes i p r (get_elem?-there s.nodes i (some p) h) h f
            c.past j);
  }

  -- The loop ended with `e`: it was woken for an id that is no slot's, or a node just answered `e`,
  -- and is in its slot yet.
  abbrev pub Failed : ℕ → Error → Runtime P X → Type 0
  Failed all e s =
      (Accounts all (log s.world) s × (e ≡ fatal "woken for a node not in this graph"))
      ⊎ ((i : ℕ) × (es : List Event) × (log s.world ≡ answered i (err e) ∷ es) × Accounts all es s)

  -- What one turn leaves.
  abbrev Turned : ℕ → Result (Unit {0}) × Runtime P X → Type 0
  Turned all (ok u, s) = Accounts all (log s.world) s
  Turned all (err e, s) = Failed all e s

  put_back-Failed :
      (all : ℕ) (s : Runtime P X) (i : ℕ) (p q : P) (e : Error) (x : X)
      → get_elem? s.nodes i ≡ some (some p)
      → place q ≡ i
      → log x ≡ answered i (err e) ∷ log s.world
      → Accounts all (log s.world) s
      → Failed all e (put_back poll drop i q x s)
  unfolding put_back
  put_back-Failed all s i p q e x h at l c = inr (
    i,
    log s.world,
    l,
    put_back-Accounts all (log s.world) s i p q x h
        (put_back-Past place (log s.world) s.nodes i p q (get_elem?-there s.nodes i (some p) h) h at
          c.past)
        c,
  )

  polled-Turned :
      (all : ℕ) (s : Runtime P X) (i : ℕ) (p : P) (a : Result Polled × P × X)
      → get_elem? s.nodes i ≡ some (some p)
      → place a.1 ≡ i
      → log a.2 ≡ answered i a.0 ∷ log s.world
      → Accounts all (log s.world) s
      → Turned all (polled poll drop i a s)
  unfolding polled put_back
  polled-Turned all s i p (ok pending, q, x) h at l c =
      put_back-Accounts all (log x) s i p q x h
        (subst (λ es. (j : ℕ) → Past place j (about j es) (get_elem? (set s.nodes i (some q)) j))
          (sym l)
          (stayed-Past place (log s.world) s.nodes i p q (get_elem?-there s.nodes i (some p) h) h at
            c.past))
        c
  polled-Turned all s i p (ok ready, q, x) h at l c =
      left-Accounts all s i p q (ok ready) x h at l refl c
  polled-Turned all s i p (err closed, q, x) h at l c =
      left-Accounts all s i p q (err closed) x h at l refl c
  polled-Turned all s i p (err (fatal m), q, x) h at l c =
      put_back-Failed all s i p q (fatal m) x h at l c
  polled-Turned all s i p (err (any e), q, x) h at l c =
      put_back-Failed all s i p q (any e) x h at l c

  slot-Turned :
      (all : ℕ) (s : Runtime P X) (i : ℕ) (slot : Option (Option P))
      → get_elem? s.nodes i ≡ slot
      → Accounts all (log s.world) s
      → Turned all (turn poll drop i s)
  unfolding turn
  slot-Turned all s i none h c = rw (h, turn) (inl (c, refl))
  slot-Turned all s i (some none) h c = rw (h, turn) c
  slot-Turned all s i (some (some p)) h c =
      let at : place p ≡ i = (subst (Past place i (about i (log s.world))) h (c.past i)).0 in
      rw (h, turn)
        (polled-Turned all s i p (poll p s.world) h (stays_placed p s.world ∙ at)
          (logs_answer p s.world ∙ ap (λ k. answered k (poll p s.world).0 ∷ log s.world) at) c)

  -- The loop's outcomes.
  abbrev pub Outcome : ℕ → Option (Result (Unit {0})) × Runtime P X → Type 0
  Outcome all (none, s) = Accounts all (log s.world) s
  Outcome all (some (err e), s) = Failed all e s
  Outcome all (some (ok u), s) =
      (occupied s.nodes ≡ 0) × ((i : ℕ) → i < all → Left i (about i (log s.world)))

  -- Nothing alive is every node gone.
  none_alive :
      (all : ℕ) (s : Runtime P X)
      → (s.alive == 0) ≡ true
      → Accounts all (log s.world) s
      → (occupied s.nodes ≡ 0) × ((i : ℕ) → i < all → Left i (about i (log s.world)))
  none_alive all s e c =
      let empty : occupied s.nodes ≡ 0 = ground (arith, c.counted, e) in
      (
        empty,
        λ i lt.
            subst (Past place i (about i (log s.world)))
              (get_elem?-unoccupied s.nodes i empty (omega (arith, c.kept, lt))) (c.past i),
      )

  go_on-Outcome :
      (all : ℕ) (onward : Runtime P X → Option (Result (Unit {0})) × Runtime P X)
      (x : Result (Unit {0}) × Runtime P X)
      → Turned all x
      → ((s : Runtime P X) → Accounts all (log s.world) s → Outcome all (onward s))
      → Outcome all (go_on poll drop onward x)
  unfolding go_on
  go_on-Outcome all onward (ok u, s) c on = on s c
  go_on-Outcome all onward (err e, s) c on = c

  poll_loop-Outcome :
      (all : ℕ) (ids : List ℕ) (s : Runtime P X)
      → Accounts all (log s.world) s
      → Outcome all (poll_loop poll drop ids s)
  unfolding poll_loop
  poll_loop-Outcome all [] s c = elim (Bool-cases (s.alive == 0)) [
    | inl e ↦ rw (e, poll_loop) (none_alive all s e c)
    | inr e ↦ rw (e, poll_loop) c
  ]
  poll_loop-Outcome all (i ∷ ids) s c = elim (Bool-cases (s.alive == 0)) [
    | inl e ↦ rw (e, poll_loop) (none_alive all s e c)
    | inr e ↦
        rw (e, poll_loop)
          (go_on-Outcome all (poll_loop poll drop ids) (turn poll drop i s)
            (slot-Turned all s i (get_elem? s.nodes i) refl c) (poll_loop-Outcome all ids))
  ]

  -- The loop over a graph, whatever ids it is woken for and whatever its nodes answer, its polls and
  -- drops logged by the slots that the nodes were put in at the start: a slot holds its own node as
  -- long as that was pending at each poll, and is empty once it answered ready or closed, when it was
  -- dropped right after that answer, once, and not polled again; `alive` is how many slots hold one.
  -- The loop returns without an error only when every slot's node left so; and with one only right
  -- after the first node that answered it, which stays in its slot, or when it is woken for an id past
  -- the graph.
  pub run-Outcome :
      (ids : List ℕ) (ps : List P) (x : X)
      → ((i : ℕ) (p : P) → get_elem? ps i ≡ some p → place p ≡ i)
      → log x ≡ []
      → Outcome (length ps) (run poll drop ids (map some ps) x)
  unfolding run
  run-Outcome ids ps x placed l = poll_loop-Outcome _ ids _ (record {
    counted = occupied-full ps;
    kept = length-map-some ps;
    past = λ i.
        subst (λ es. Past place i (about i es) (get_elem? (map some ps) i)) (sym l)
          (fresh-Past place ps placed i);
  })
