-- ===== src/Poll/Timer/Fires.antt =====
-- How timers leave the heap: cancelled, or fired.
use areamy.Common.{
  ℕ, suc, ◌≡◌, refl, sym, ◌∙◌, ap, subst, true, false, Option, none, some, List, [], ◌∷◌, inl, inr,
  arith, if◌then◌else◌, ltb, ◌==◌, Bool-cases, get_elem?, set, All,
}
use areamy.Poll.Timer.{
  Entry, Cell, TimerKey, DeadlineHeap, is_live, occupant, next_generation, take_live, cancel,
  peek_in, peek, pop_in, pop,
}
use areamy.Poll.Timer.Valid.{same_timer, Valid, Young, All-map, get_elem?-lt}
use areamy.Poll.Timer.Vacates.{is_live-cell, take_live-Valid, rest-Valid}
use areamy.Poll.Timer.Live.{live_in, live, without, is_live-set_ne, is_live-set_self}

abbrev key_of : ℕ → ℕ → TimerKey
key_of i g = record { cell = i; generation = g }

-- The cells once a live timer's is vacated.
abbrev vacated : List Cell → ℕ → ℕ → List Cell
vacated cells i g = set cells i (record { generation = next_generation g; node_id = none })

vacated-live_in :
    (cells : List Cell) (i g : ℕ) (es : List Entry)
    → is_live cells i g ≡ true
    → live_in (vacated cells i g) es ≡ without (key_of i g) (live_in cells es)
vacated-live_in cells i g [] l = refl
vacated-live_in cells i g (e ∷ es) l =
    let (c, at, same_g, busy) = is_live-cell (get_elem? cells i) g l in
    let left : Cell = record { generation = next_generation g; node_id = none } in
    let ih = vacated-live_in cells i g es l in
    elim (Bool-cases (i == e.cell)) [
      | inl eq ↦
          let eq' : i ≡ e.cell = ground (arith, eq) in
          let gone : is_live (vacated cells i g) e.cell e.generation ≡ false =
            subst (λ j. is_live (vacated cells i g) j e.generation ≡ false) eq'
              (is_live-set_self cells i e.generation left (get_elem?-lt cells i c at)
                ∙ ground arith) in
          let was : is_live cells e.cell e.generation ≡ (g == e.generation) =
            subst (λ j. is_live cells j e.generation ≡ (g == e.generation)) eq'
              (ground (arith, at, same_g, busy)) in
          elim (Bool-cases (g == e.generation)) [
            | inl h ↦ rw (gone, was, h, ih) (ground (arith, eq, h))
            | inr h ↦ rw (gone, was, h, ih)
          ]
      | inr ne ↦
          let kept = is_live-set_ne cells i e.cell e.generation left (λ q. ground (arith, ne)) in
          elim (Bool-cases (is_live cells e.cell e.generation)) [
            | inl h ↦ rw (kept, h, ih) (ground (arith, ne))
            | inr h ↦ rw (kept, h, ih)
          ]
    ]

without-dead :
    (cells : List Cell) (i g : ℕ) (es : List Entry)
    → is_live cells i g ≡ false
    → without (key_of i g) (live_in cells es) ≡ live_in cells es
without-dead cells i g [] l = refl
without-dead cells i g (e ∷ es) l = elim (Bool-cases (is_live cells e.cell e.generation)) [
  | inl h ↦ rw (h, without-dead cells i g es l) (ground (arith, h, l))
  | inr h ↦ rw (h, without-dead cells i g es l)
]

without-distinct :
    (cells : List Cell) (e : Entry) (es : List Entry)
    → All (λ y. same_timer e y ≡ false) es
    → without (key_of e.cell e.generation) (live_in cells es) ≡ live_in cells es
without-distinct cells e [] a = refl
without-distinct cells e (y ∷ ys) (a, as') = elim (Bool-cases (is_live cells y.cell y.generation)) [
  | inl h ↦ rw (h, without-distinct cells e ys as') (ground (arith, a))
  | inr h ↦ rw (h, without-distinct cells e ys as')
]

take_live-live_in :
    (h : DeadlineHeap) (i g : ℕ) (es : List Entry)
    → live_in (take_live h i g).1.cells es ≡ without (key_of i g) (live_in h.cells es)
unfolding take_live
take_live-live_in h i g es = elim (Bool-cases (is_live h.cells i g)) [
  | inl l ↦ rw (l, take_live) (vacated-live_in h.cells i g es l)
  | inr d ↦ rw (d, take_live) (sym (without-dead h.cells i g es d))
]

take_live-heap : (h : DeadlineHeap) (i g : ℕ) → (take_live h i g).1.heap ≡ h.heap
unfolding take_live
take_live-heap h i g = ground arith

-- Cancelling takes exactly the key's timer out of the live ones, or none if it fired or was
-- cancelled before, and the heap stays valid, provided no cell's counter is at its last value.
pub cancel-live :
    (h : DeadlineHeap) (key : TimerKey)
    → Valid h
    → Young 1 h
    → (live (cancel h key) ≡ without key (live h)) × Valid (cancel h key)
unfolding cancel
cancel-live h key v young = (
  ap (live_in (take_live h key.cell key.generation).1.cells)
        (take_live-heap h key.cell key.generation)
      ∙ take_live-live_in h key.cell key.generation h.heap,
  (take_live-Valid h 0 key.cell key.generation young v).0,
)

abbrev pub earliest : List Entry → Option ℕ
earliest [] = none
earliest (e ∷ es) = some e.deadline

peek_in-live :
    (h : DeadlineHeap) (es : List Entry)
    → Valid (record h { heap = es })
    → ((peek_in h es).0 ≡ earliest (live_in h.cells es))
      × (live (peek_in h es).1 ≡ live_in h.cells es)
      × Valid (peek_in h es).1
unfolding peek_in
peek_in-live h [] v = (refl, refl, v)
peek_in-live h (e ∷ es) v = elim (Bool-cases (is_live h.cells e.cell e.generation)) [
  | inl l ↦ rw (l, peek_in) (refl, rw l, v)
  | inr d ↦ rw (d, peek_in) (peek_in-live h es (rest-Valid h e es v))
]

-- `peek` shows the earliest live deadline and leaves the live timers as they are.
pub peek-live :
    (h : DeadlineHeap)
    → Valid h
    → ((peek h).0 ≡ earliest (live h)) × (live (peek h).1 ≡ live h) × Valid (peek h).1
unfolding peek
peek-live h v = peek_in-live h h.heap v

-- The node that is handed out at `now`, and the live timers that stay.
abbrev pub fired : List Cell → ℕ → List Entry → Option ℕ × List Entry
fired cells now [] = (none, [])
fired cells now (e ∷ es) =
    if ltb now e.deadline then (none, e ∷ es) else (occupant (get_elem? cells e.cell), es)

Fired : DeadlineHeap → ℕ → ℕ → List Entry → Option ℕ × DeadlineHeap → Type 0
Fired h k now es p =
    ((p.0, live p.1) ≡ fired h.cells now (live_in h.cells es)) × Valid p.1 × Young k p.1

fire-live :
    (h : DeadlineHeap) (k now : ℕ) (e : Entry) (es : List Entry)
    → Young (suc k) h
    → Valid (record h { heap = e ∷ es })
    → is_live h.cells e.cell e.generation ≡ true
    → ((take_live (record h { heap = es }) e.cell e.generation).0
        ≡ occupant (get_elem? h.cells e.cell))
      × (live (take_live (record h { heap = es }) e.cell e.generation).1 ≡ live_in h.cells es)
unfolding take_live
fire-live h k now e es young v l = (
  rw (l, take_live),
  ap (live_in (take_live (record h { heap = es }) e.cell e.generation).1.cells)
        (take_live-heap (record h { heap = es }) e.cell e.generation)
      ∙ take_live-live_in (record h { heap = es }) e.cell e.generation es
      ∙ without-distinct h.cells e es v.distinct.0,
)

pop_in-due :
    (h : DeadlineHeap) (now : ℕ) (e : Entry) (es : List Entry)
    → is_live h.cells e.cell e.generation ≡ true
    → ltb now e.deadline ≡ false
    → pop_in h now (e ∷ es) ≡ take_live (record h { heap = es }) e.cell e.generation
unfolding pop_in
pop_in-due h now e es l due = rw (l, due, pop_in)

fire-Fired :
    (h : DeadlineHeap) (k now : ℕ) (e : Entry) (es : List Entry)
    → Young (suc k) h
    → Valid (record h { heap = e ∷ es })
    → is_live h.cells e.cell e.generation ≡ true
    → ltb now e.deadline ≡ false
    → Fired h k now (e ∷ es) (take_live (record h { heap = es }) e.cell e.generation)
unfolding Fired
fire-Fired h k now e es young v l due =
    let (a, b) = fire-live h k now e es young v l in
    let (v', young') =
      take_live-Valid (record h { heap = es }) k e.cell e.generation young (rest-Valid h e es v) in
    let due_first : fired h.cells now (live_in h.cells (e ∷ es))
        ≡ (occupant (get_elem? h.cells e.cell), live_in h.cells es) =
      rw (l, due) in
    (
      ap (λ x. (x, live (take_live (record h { heap = es }) e.cell e.generation).1)) a
          ∙ ap (λ y. (occupant (get_elem? h.cells e.cell), y)) b
          ∙ sym due_first,
      v',
      young',
    )

pop_in-Fired :
    (h : DeadlineHeap) (k now : ℕ) (es : List Entry)
    → Young (suc k) h
    → Valid (record h { heap = es })
    → Fired h k now es (pop_in h now es)
unfolding pop_in Fired
pop_in-Fired h k now [] young v = (refl, v, All-map (λ c p. omega (arith, p)) h.cells young)
pop_in-Fired h k now (e ∷ es) young v = elim (Bool-cases (is_live h.cells e.cell e.generation)) [
  | inr d ↦ rw (d, pop_in) (pop_in-Fired h k now es young (rest-Valid h e es v))
  | inl l ↦ elim (Bool-cases (ltb now e.deadline)) [
    | inl later ↦ rw (l, later, pop_in) (rw l, v, All-map (λ c p. omega (arith, p)) h.cells young)
    | inr due ↦
        subst (Fired h k now (e ∷ es)) (sym (pop_in-due h now e es l due))
          (fire-Fired h k now e es young v l due)
  ]
]

-- `pop` hands out the node of the earliest live timer if it is due, takes just that timer out of
-- the live ones, and else leaves them as they are, provided each cell can be vacated `k + 1` times
-- before its counter wraps (and `k` times after).
pub pop-live :
    (h : DeadlineHeap) (k now : ℕ)
    → Valid h
    → Young (suc k) h
    → ((pop h now).0 ≡ (fired h.cells now (live h)).0)
      × (live (pop h now).1 ≡ (fired h.cells now (live h)).1)
      × Valid (pop h now).1
      × Young k (pop h now).1
unfolding pop Fired
pop-live h k now v young =
    let (e, v', y') = pop_in-Fired h k now h.heap young v in
    (ap (λ p. p.0) e, ap (λ p. p.1) e, v', y')
