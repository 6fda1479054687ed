-- ===== src/Poll/Timer/Expire.antt =====
-- `expire`: the due timers fire, once each.
use areamy.Common.{
  ℕ, zero, suc, ◌+◌, ◌^◌, ◌≤◌, ◌<◌, ◌≡◌, refl, sym, ◌∙◌, ap, subst, true, Option, none, some, List,
  [], ◌∷◌, inl, inr, arith, if◌then◌else◌, ltb, Bool-cases, map, length, get_elem?, is_some, All,
}
use areamy.Poll.Timer.{
  Entry, Cell, DeadlineHeap, before, is_live, occupant, peek_in, peek, pop, expired, expire_loop,
  expire,
}
use areamy.Poll.Timer.Valid.{Valid, Young, All-map}
use areamy.Poll.Timer.Vacates.{is_live-cell}
use areamy.Poll.Timer.Live.{live_in, live}
use areamy.Poll.Timer.Leaves.{Kept, pop-Kept}
use areamy.Poll.Timer.Fires.{fired, pop-live, earliest, peek-live}

-- The live timers that are not due, once the due ones went off the front.
abbrev pub waiting : ℕ → List Entry → List Entry
waiting now [] = []
waiting now (e ∷ es) = let rest = waiting now es in if ltb now e.deadline then e ∷ es else rest

-- Those due ones, from the first on.
abbrev pub due : ℕ → List Entry → List Entry
due now [] = []
due now (e ∷ es) = let rest = due now es in if ltb now e.deadline then [] else e ∷ rest

-- The node that an entry's cell is for.
abbrev pub node_at : List Cell → Entry → Option ℕ
node_at cells e = occupant (get_elem? cells e.cell)

-- A live timer has a node.
live_in-occupied :
    (cells : List Cell) (es : List Entry)
    → All (λ e. is_some (occupant (get_elem? cells e.cell)) ≡ true) (live_in cells es)
live_in-occupied cells [] = tt
live_in-occupied cells (e ∷ es) = elim (Bool-cases (is_live cells e.cell e.generation)) [
  | inl l ↦
      let (c, at, g, busy) = is_live-cell (get_elem? cells e.cell) e.generation l in
      rw l (rw at busy, live_in-occupied cells es)
  | inr d ↦ rw d (live_in-occupied cells es)
]

-- What a loop that found `before` as the live timers, and their cells as `cells`, hands out and
-- leaves.
abbrev pub Drains : ℕ → List Cell → List Entry → List ℕ × DeadlineHeap → Type 0
Drains now cells before (nodes, h) =
    (map some nodes ≡ map (node_at cells) (due now before))
    × (live h ≡ waiting now before)
    × Valid h

-- The timers that are live once others fired are for the nodes that they were for.
due-Kept :
    (now : ℕ) (cells cells' : List Cell) (es : List Entry)
    → Kept cells cells'
    → map (node_at cells') (due now (live_in cells' es))
      ≡ map (node_at cells) (due now (live_in cells' es))
due-Kept now cells cells' [] k = refl
due-Kept now cells cells' (e ∷ es) k = elim (Bool-cases (is_live cells' e.cell e.generation)) [
  | inl l ↦ elim (Bool-cases (ltb now e.deadline)) [
    | inl later ↦ rw (l, later) refl
    | inr early ↦
        rw (l, early)
          (ap (λ o. o ∷ map (node_at cells') (due now (live_in cells' es)))
              (k e.cell e.generation l)
            ∙ ap (λ os. node_at cells e ∷ os) (due-Kept now cells cells' es k))
  ]
  | inr d ↦ rw d (due-Kept now cells cells' es k)
]

expired-Drains :
    (now : ℕ) (cells : List Cell) (before : List Entry) (p : Option ℕ × DeadlineHeap)
    (onward : DeadlineHeap → List ℕ × DeadlineHeap)
    → All (λ e. is_some (occupant (get_elem? cells e.cell)) ≡ true) before
    → p.0 ≡ (fired cells now before).0
    → live p.1 ≡ (fired cells now before).1
    → Valid p.1
    → Kept cells p.1.cells
    → (suc (length (live p.1)) ≡ length before → Drains now p.1.cells (live p.1) (onward p.1))
    → Drains now cells before (expired onward p)
unfolding expired
expired-Drains now cells [] (none, h) onward all a b v k f = (refl, b, v)
expired-Drains now cells [] (some node, h) onward all a b v k f = ground (arith, a)
expired-Drains now cells (e ∷ es) (none, h) onward all a b v k f =
    elim (Bool-cases (ltb now e.deadline)) [
      | inl later ↦ (rw later refl, ground (arith, b, later), v)
      | inr early ↦ ground (arith, a, all.0, early)
    ]
expired-Drains now cells (e ∷ es) (some node, h) onward all a b v k f =
    elim (Bool-cases (ltb now e.deadline)) [
      | inl later ↦ ground (arith, a, later)
      | inr early ↦
          let left : live h ≡ es = ground (arith, b, early) in
          let (c, d, v') = f (ap (λ l. suc (length l)) left) in
          let named : some node ≡ node_at cells e = ground (arith, a, early) in
          let rest : map (node_at h.cells) (due now (live h)) ≡ map (node_at cells) (due now es) =
            due-Kept now cells h.cells h.heap k ∙ ap (λ l. map (node_at cells) (due now l)) left in
          (
            rw early (
                ap (λ o. o ∷ map some (onward h).0) named
                ∙ ap (λ os. node_at cells e ∷ os) (c ∙ rest)),
            rw early (d ∙ ap (waiting now) left),
            v',
          )
    ]

expire_loop-Drains :
    (fuel now : ℕ) (h : DeadlineHeap)
    → Valid h
    → Young fuel h
    → length (live h) < fuel
    → Drains now h.cells (live h) (expire_loop fuel now h)
unfolding expire_loop
expire_loop-Drains zero now h v young few = ground (arith, few)
expire_loop-Drains (suc fuel) now h v young few =
    let (a, b, v', young') = pop-live h fuel now v young in
    expired-Drains now h.cells (live h) (pop h now) (expire_loop fuel now)
      (live_in-occupied h.cells h.heap) a b v' (pop-Kept h now)
      (λ one_less.
        expire_loop-Drains fuel now (pop h now).1 v' young' (ground (arith, one_less, few)))

peek_in-keeps :
    (h : DeadlineHeap) (es : List Entry)
    → ((peek_in h es).1.cells ≡ h.cells) × (length (peek_in h es).1.heap ≤ length es)
unfolding peek_in
peek_in-keeps h [] = (refl, omega arith)
peek_in-keeps h (e ∷ es) = elim (Bool-cases (is_live h.cells e.cell e.generation)) [
  | inl l ↦ rw (l, peek_in) (refl, omega arith)
  | inr d ↦ rw (d, peek_in) (let (a, b) = peek_in-keeps h es in (a, omega (arith, b)))
]

length-live_in : (cells : List Cell) (es : List Entry) → length (live_in cells es) ≤ length es
length-live_in cells [] = omega arith
length-live_in cells (e ∷ es) = ground (arith, length-live_in cells es)

Young-le :
    (cells : List Cell) (j k : ℕ)
    → j ≤ k
    → All (λ c. c.generation + k < 2 ^ 64) cells
    → All (λ c. c.generation + j < 2 ^ 64) cells
Young-le cells j k h y = All-map (λ c p. omega (arith, p, h)) cells y

earliest-none : (es : List Entry) → earliest es ≡ none → es ≡ []
earliest-none [] e = refl
earliest-none (x ∷ es) e = ground (arith, e)

drained-Drains :
    (h : DeadlineHeap) (now : ℕ) (before : List Entry) (first : Option ℕ)
    → first ≡ earliest before
    → live h ≡ before
    → Valid h
    → Young (suc (length h.heap)) h
    → Drains now h.cells before
        (elim first [ none ↦ ([], h) | some _ ↦ expire_loop (suc (length h.heap)) now h ])
drained-Drains h now before none e l v young =
    let empty = earliest-none before (sym e) in (rw empty refl, rw empty (l ∙ empty), v)
drained-Drains h now before (some d) e l v young =
    subst (λ b. Drains now h.cells b (expire_loop (suc (length h.heap)) now h)) l
      (expire_loop-Drains (suc (length h.heap)) now h v young
        (omega (arith, length-live_in h.cells h.heap)))

-- On a valid heap, no cell of which is near the wrap of its counter, `expire` at any time wakes the
-- nodes of the live timers that come before the first that is not due, these and no others, in
-- their order, leaves the live timers from that one on, and keeps the heap valid.
pub expire-Drains :
    (h : DeadlineHeap) (now : ℕ)
    → Valid h
    → Young (suc (length h.heap)) h
    → Drains now h.cells (live h) (expire h now)
unfolding expire peek
expire-Drains h now v young =
    let (a, b, v') = peek-live h v in
    let (same, few) = peek_in-keeps h h.heap in
    subst (λ cells. Drains now cells (live h) (expire h now)) same
      (drained-Drains (peek h).1 now (live h) (peek h).0 a b v' (
        subst (λ cells. All (λ c. c.generation + suc (length (peek h).1.heap) < 2 ^ 64) cells)
          (sym same)
          (Young-le h.cells (suc (length (peek h).1.heap)) (suc (length h.heap))
            (omega (arith, few)) young)))
