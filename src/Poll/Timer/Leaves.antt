-- ===== src/Poll/Timer/Leaves.antt =====
-- The timers that a firing leaves stay with their nodes.
use areamy.Common.{
  ℕ, ◌≡◌, refl, sym, ap, subst, true, none, List, [], ◌∷◌, inl, inr, arith, ltb, ◌==◌, Bool-cases,
  get_elem?, set, get_elem?-set_ne,
}
use areamy.Poll.Timer.{
  Entry, Cell, DeadlineHeap, is_live, occupant, next_generation, take_live, pop_in, pop,
}
use areamy.Poll.Timer.Valid.{get_elem?-lt}
use areamy.Poll.Timer.Vacates.{is_live-cell}
use areamy.Poll.Timer.Live.{is_live-set_self}

-- A cell that is live in the later cells has the node that it had.
abbrev pub Kept : List Cell → List Cell → Type 0
Kept cells cells' =
    (i g : ℕ)
    → is_live cells' i g ≡ true
    → occupant (get_elem? cells' i) ≡ occupant (get_elem? cells i)

vacated-Kept :
    (cells : List Cell) (i g : ℕ)
    → is_live cells i g ≡ true
    → Kept cells (set cells i (record { generation = next_generation g; node_id = none }))
vacated-Kept cells i g l j g' l' =
    let left : Cell = record { generation = next_generation g; node_id = none } in
    let (c, at, same_g, busy) = is_live-cell (get_elem? cells i) g l in
    elim (Bool-cases (i == j)) [
      | inl eq ↦
          let gone = is_live-set_self cells i g' left (get_elem?-lt cells i c at) in
          let eq' : i ≡ j = ground (arith, eq) in
          ground (arith, subst (λ j. is_live (set cells i left) j g' ≡ true) (sym eq') l', gone)
      | inr ne ↦ ap occupant (get_elem?-set_ne cells {i = i} {j = j} left (λ q. ground (arith, ne)))
    ]

take_live-Kept : (h : DeadlineHeap) (i g : ℕ) → Kept h.cells (take_live h i g).1.cells
unfolding take_live
take_live-Kept h i g = elim (Bool-cases (is_live h.cells i g)) [
  | inl l ↦ rw l (vacated-Kept h.cells i g l)
  | inr d ↦ rw d (λ j g' l. refl)
]

pop_in-Kept :
    (h : DeadlineHeap) (now : ℕ) (es : List Entry) → Kept h.cells (pop_in h now es).1.cells
unfolding pop_in take_live
pop_in-Kept h now [] = λ i g l. refl
pop_in-Kept h now (e ∷ es) = elim (Bool-cases (is_live h.cells e.cell e.generation)) [
  | inr d ↦ rw (d, pop_in) (pop_in-Kept h now es)
  | inl l ↦ elim (Bool-cases (ltb now e.deadline)) [
    | inl later ↦ rw (l, later, pop_in) (λ i g l. refl)
    | inr due ↦ rw (l, due, take_live, pop_in) (vacated-Kept h.cells e.cell e.generation l)
  ]
]

-- Whatever pops at any time, the timers that stay live are for the nodes that they were for.
pub pop-Kept : (h : DeadlineHeap) (now : ℕ) → Kept h.cells (pop h now).1.cells
unfolding pop
pop-Kept h now = pop_in-Kept h now h.heap
