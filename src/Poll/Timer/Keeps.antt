-- ===== src/Poll/Timer/Keeps.antt =====
-- A new heap is valid, and registering keeps a heap valid.
use areamy.Common.{
  ℕ, ◌<◌, ◌≡◌, ◌≢◌, refl, sym, ◌∙◌, ap, subst, false, Option, none, some, List, [], ◌∷◌, ◌++◌, inl,
  inr, arith, ◌==◌, Bool-cases, length, get_elem?, set, is_some, All, get_elem?-set_self,
  get_elem?-set_ne,
}
use areamy.Poll.Timer.{
  Entry, Cell, TimerKey, DeadlineHeap, new, generation_of, push_entry, register_in, register,
}
use areamy.Poll.Timer.Valid.{
  same_timer, DatedBy, Dated, VacantIn, Vacant, Unrepeated, Valid, All-map, All-both, All-insert,
  insert-Sorted, insert-Distinct, get_elem?-lt, get_elem?-append_left, get_elem?-append_length,
}

pub Dated-set :
    (cells : List Cell) (i : ℕ) (c : Cell) (e : Entry)
    → i < length cells
    → Dated cells e
    → (e.cell ≡ i → DatedBy (some c) e.generation)
    → Dated (set cells i c) e
Dated-set cells i c e h d f = elim (Bool-cases (e.cell == i)) [
  | inl same ↦
      let at : e.cell ≡ i = ground (arith, same) in
      subst (λ o. DatedBy o e.generation)
        (sym (ap (get_elem? (set cells i c)) at ∙ get_elem?-set_self cells i c h)) (f at)
  | inr other ↦
      subst (λ o. DatedBy o e.generation)
        (sym (get_elem?-set_ne cells {i = i} {j = e.cell} c (λ q. ground (arith, other)))) d
]

pub Vacant-set_ne :
    (cells : List Cell) (i j : ℕ) (c : Cell) → i ≢ j → Vacant cells j → Vacant (set cells i c) j
Vacant-set_ne cells i j c h v = subst VacantIn (sym (get_elem?-set_ne cells {i = i} {j = j} c h)) v

pub Vacant-set_self :
    (cells : List Cell) (i : ℕ) (c : Cell)
    → i < length cells
    → is_some c.node_id ≡ false
    → Vacant (set cells i c) i
Vacant-set_self cells i c h v = subst VacantIn (sym (get_elem?-set_self cells i c h)) v

-- A cell that an entry or a free index names is there.
pub DatedBy-cell : (o : Option Cell) (g : ℕ) → DatedBy o g → (c : Cell) × (o ≡ some c)
DatedBy-cell none g d = elim d [ ]
DatedBy-cell (some c) g d = (c, refl)

pub VacantIn-cell :
    (o : Option Cell) → VacantIn o → (c : Cell) × (o ≡ some c) × (is_some c.node_id ≡ false)
VacantIn-cell none v = elim v [ ]
VacantIn-cell (some c) v = (c, refl, v)

-- The entry that `register` makes.
abbrev pub entry_of : ℕ → TimerKey → Entry
entry_of deadline key = record { deadline = deadline; cell = key.cell; generation = key.generation }

-- No entry has the key that a vacant cell gives out, or a new one.
distinct-vacant :
    (e y : Entry) (o : Option Cell)
    → DatedBy o y.generation
    → VacantIn o
    → generation_of o ≡ e.generation
    → same_timer e y ≡ false
distinct-vacant e y none d v h = elim d [ ]
distinct-vacant e y (some c) d v h = ground (arith, d.0, d.1 v)

pub fresh-recycled :
    (cells : List Cell) (i deadline : ℕ) (es : List Entry)
    → Vacant cells i
    → All (Dated cells) es
    → All
        (λ y.
          same_timer
            (record {
              deadline = deadline;
              cell = i;
              generation = generation_of (get_elem? cells i);
            })
            y
          ≡ false)
        es
fresh-recycled cells i deadline es v ds =
    All-map
      (λ y d. elim (Bool-cases (i == y.cell)) [
        | inl same ↦
            distinct-vacant
              (record {
                deadline = deadline;
                cell = i;
                generation = generation_of (get_elem? cells i);
              })
              y (get_elem? cells i)
              (subst (λ j. DatedBy (get_elem? cells j) y.generation) (sym (ground (arith, same))) d)
              v refl
        | inr other ↦ ground (arith, other)
      ])
      es ds

pub fresh-grown :
    (cells : List Cell) (deadline : ℕ) (es : List Entry)
    → All (Dated cells) es
    → All
        (λ y.
          same_timer (record { deadline = deadline; cell = length cells; generation = 0 }) y
          ≡ false)
        es
fresh-grown cells deadline es ds =
    All-map
      (λ y d.
        let (c, e) = DatedBy-cell (get_elem? cells y.cell) y.generation d in
        ground (arith, get_elem?-lt cells y.cell c e))
      es ds

recycled-Valid :
    (h : DeadlineHeap) (node deadline i : ℕ) (free : List ℕ)
    → h.free ≡ i ∷ free
    → Valid h
    → Valid (register_in h node deadline (i ∷ free)).1
unfolding register_in push_entry
recycled-Valid h node deadline i free e v =
    let vs = subst (All (Vacant h.cells)) e v.vacant in
    let us = subst Unrepeated e v.unrepeated in
    let (c, at, idle) = VacantIn-cell (get_elem? h.cells i) vs.0 in
    let there = get_elem?-lt h.cells i c at in
    let g = generation_of (get_elem? h.cells i) in
    let taken : Cell = record { generation = g; node_id = some node } in
    let new_entry : Entry = record { deadline = deadline; cell = i; generation = g } in
    record {
      sorted = insert-Sorted new_entry h.heap v.sorted;
      distinct =
          insert-Distinct new_entry h.heap (fresh-recycled h.cells i deadline h.heap vs.0 v.dated)
            v.distinct;
      dated =
          All-insert (Dated (set h.cells i taken)) new_entry h.heap
            (subst (λ o. DatedBy o g) (sym (get_elem?-set_self h.cells i taken there))
              (omega arith, λ x. ground arith))
            (All-map
              (λ y d. Dated-set h.cells i taken y there d (λ same. (
                ground (arith, at, subst (λ j. DatedBy (get_elem? h.cells j) y.generation) same d),
                λ x. ground arith,
              )))
              h.heap v.dated);
      vacant =
          All-map (λ j p. Vacant-set_ne h.cells i j taken (λ q. ground (arith, p.1)) p.0) free
            (All-both (Vacant h.cells) (λ j. (j == i) ≡ false) free vs.1 us.0);
      unrepeated = us.1;
    }

Dated-grown : (cells : List Cell) (c : Cell) (e : Entry) → Dated cells e → Dated (cells ++ c ∷ []) e
Dated-grown cells c e d =
    let (c', at) = DatedBy-cell (get_elem? cells e.cell) e.generation d in
    subst (λ o. DatedBy o e.generation)
      (sym (get_elem?-append_left cells (c ∷ []) e.cell (get_elem?-lt cells e.cell c' at))) d

grown-Valid :
    (h : DeadlineHeap) (node deadline : ℕ)
    → h.free ≡ []
    → Valid h
    → Valid (register_in h node deadline []).1
unfolding register_in push_entry
grown-Valid h node deadline e v =
    let grown : Cell = record { generation = 0; node_id = some node } in
    let new_entry : Entry = record { deadline = deadline; cell = length h.cells; generation = 0 } in
    record {
      sorted = insert-Sorted new_entry h.heap v.sorted;
      distinct =
          insert-Distinct new_entry h.heap (fresh-grown h.cells deadline h.heap v.dated) v.distinct;
      dated =
          All-insert (Dated (h.cells ++ grown ∷ [])) new_entry h.heap
            (subst (λ o. DatedBy o 0) (sym (get_elem?-append_length h.cells grown))
              (omega arith, λ x. ground arith))
            (All-map (λ y d. Dated-grown h.cells grown y d) h.heap v.dated);
      vacant = subst (All (Vacant (h.cells ++ grown ∷ []))) (sym e) tt;
      unrepeated = v.unrepeated;
    }

register_in-Valid :
    (h : DeadlineHeap) (node deadline : ℕ) (free : List ℕ)
    → h.free ≡ free
    → Valid h
    → Valid (register_in h node deadline free).1
register_in-Valid h node deadline [] e v = grown-Valid h node deadline e v
register_in-Valid h node deadline (i ∷ free) e v = recycled-Valid h node deadline i free e v

pub register-Valid :
    (h : DeadlineHeap) (node deadline : ℕ) → Valid h → Valid (register h node deadline).1
unfolding register
register-Valid h node deadline v = register_in-Valid h node deadline h.free refl v

pub new-Valid : Valid new
unfolding new
new-Valid = record { sorted = tt; distinct = tt; dated = tt; vacant = tt; unrepeated = tt }
