-- ===== src/Poll/Timer/Live.antt =====
-- The timers' heap as the live timers in order, and what each operation does to them.
use areamy.Common.{
  ℕ, ◌<◌, ◌≡◌, ◌≢◌, refl, sym, ◌∙◌, ap, subst, true, false, some, List, [], ◌∷◌, ◌++◌, inl, inr,
  arith, if◌then◌else◌, ◌==◌, Bool-cases, length, get_elem?, set, All, get_elem?-set_self,
  get_elem?-set_ne,
}
use areamy.Poll.Timer.{
  Entry, Cell, TimerKey, DeadlineHeap, before, insert, is_live, occupied_by, generation_of,
  occupant, push_entry, register_in, register,
}
use areamy.Poll.Timer.Valid.{
  same_timer, Sorted, DatedBy, Vacant, Valid, All-map, before_trans, get_elem?-lt,
  get_elem?-append_left, get_elem?-append_length,
}
use areamy.Poll.Timer.Keeps.{DatedBy-cell, VacantIn-cell, entry_of, register-Valid}

abbrev pub live_in : List Cell → List Entry → List Entry
live_in cells [] = []
live_in cells (e ∷ es) =
    let rest = live_in cells es in if is_live cells e.cell e.generation then e ∷ rest else rest

-- The live timers, in order.
abbrev pub live : DeadlineHeap → List Entry
live h = live_in h.cells h.heap

live_in-congr :
    (cells cells' : List Cell) (es : List Entry)
    → All (λ e. is_live cells' e.cell e.generation ≡ is_live cells e.cell e.generation) es
    → live_in cells' es ≡ live_in cells es
live_in-congr cells cells' [] a = refl
live_in-congr cells cells' (e ∷ es) (a, as') = rw (a, live_in-congr cells cells' es as')

-- An entry that goes before all others goes first.
insert-first :
    (e : Entry) (xs : List Entry) → All (λ y. before y e ≡ false) xs → insert e xs ≡ e ∷ xs
insert-first e [] a = refl
insert-first e (x ∷ xs) a = rw a.0

All-live_in :
    (P : Entry → Type 0) (cells : List Cell) (xs : List Entry) → All P xs → All P (live_in cells xs)
All-live_in P cells [] p = tt
All-live_in P cells (x ∷ xs) (p, ps) = elim (Bool-cases (is_live cells x.cell x.generation)) [
  | inl h ↦ rw h (p, All-live_in P cells xs ps)
  | inr h ↦ rw h (All-live_in P cells xs ps)
]

live_in-insert :
    (cells : List Cell) (e : Entry) (xs : List Entry)
    → is_live cells e.cell e.generation ≡ true
    → Sorted xs
    → live_in cells (insert e xs) ≡ insert e (live_in cells xs)
live_in-insert cells e [] l s = rw l
live_in-insert cells e (x ∷ xs) l (first, s) = elim (Bool-cases (before x e)) [
  | inl h ↦ elim (Bool-cases (is_live cells x.cell x.generation)) [
    | inl a ↦ rw (h, a, live_in-insert cells e xs l s, h)
    | inr a ↦ rw (h, a, live_in-insert cells e xs l s)
  ]
  | inr h ↦ elim (Bool-cases (is_live cells x.cell x.generation)) [
    | inl a ↦ rw (h, l, a, h)
    | inr a ↦ rw (
      h,
      l,
      a,
      insert-first e (live_in cells xs) (
          All-live_in (λ y. before y e ≡ false) cells xs
            (All-map (λ y k. before_trans y x e k h) xs first)),
    )
  ]
]

-- A cell that changes hands: the entries of other cells are as live as before.
pub is_live-set_ne :
    (cells : List Cell) (i j g : ℕ) (c : Cell)
    → i ≢ j
    → is_live (set cells i c) j g ≡ is_live cells j g
is_live-set_ne cells i j g c h =
    ap (λ o. occupied_by o g) (get_elem?-set_ne cells {i = i} {j = j} c h)

pub is_live-set_self :
    (cells : List Cell) (i g : ℕ) (c : Cell)
    → i < length cells
    → is_live (set cells i c) i g ≡ occupied_by (some c) g
is_live-set_self cells i g c h = ap (λ o. occupied_by o g) (get_elem?-set_self cells i c h)

-- `without key es`: the entries but the key's.
abbrev pub without : TimerKey → List Entry → List Entry
without key [] = []
without key (e ∷ es) =
    let rest = without key es in
    if same_timer e (record { deadline = 0; cell = key.cell; generation = key.generation })
    then rest
    else e ∷ rest

recycled-live :
    (h : DeadlineHeap) (node deadline i : ℕ) (free : List ℕ)
    → Vacant h.cells i
    → Valid h
    → let (key, h') = register_in h node deadline (i ∷ free) in
      (live h' ≡ insert (entry_of deadline key) (live h))
      × (occupant (get_elem? h'.cells key.cell) ≡ some node)
unfolding register_in push_entry
recycled-live h node deadline i free vacant v =
    let (c, at, idle) = VacantIn-cell (get_elem? h.cells i) vacant in
    let there = get_elem?-lt h.cells i c at in
    let g = generation_of (get_elem? h.cells i) in
    let taken : Cell = record { generation = g; node_id = some node } in
    let same : All
        (λ e.
          is_live (set h.cells i taken) e.cell e.generation ≡ is_live h.cells e.cell e.generation)
        h.heap =
      All-map
        (λ y d. elim (Bool-cases (i == y.cell)) [
          | inl eq ↦
              let eq' : i ≡ y.cell = ground (arith, eq) in
              let d' =
                subst (λ o. DatedBy o y.generation) (ap (get_elem? h.cells) (sym eq') ∙ at) d in
              subst
                (λ j. is_live (set h.cells i taken) j y.generation ≡ is_live h.cells j y.generation)
                eq'
                (is_live-set_self h.cells i y.generation taken there
                  ∙ ground (arith, at, idle, d'.1 idle))
          | inr ne ↦ is_live-set_ne h.cells i y.cell y.generation taken (λ q. ground (arith, ne))
        ])
        h.heap v.dated in
    (
      live_in-insert (set h.cells i taken)
            (record { deadline = deadline; cell = i; generation = g }) h.heap
            (is_live-set_self h.cells i g taken there ∙ ground arith) v.sorted
          ∙ ap (insert (record { deadline = deadline; cell = i; generation = g }))
              (live_in-congr h.cells (set h.cells i taken) h.heap same),
      ap occupant (get_elem?-set_self h.cells i taken there),
    )

grown-live :
    (h : DeadlineHeap) (node deadline : ℕ)
    → Valid h
    → let (key, h') = register_in h node deadline [] in
      (live h' ≡ insert (entry_of deadline key) (live h))
      × (occupant (get_elem? h'.cells key.cell) ≡ some node)
unfolding register_in push_entry
grown-live h node deadline v =
    let grown : Cell = record { generation = 0; node_id = some node } in
    let cells' = h.cells ++ grown ∷ [] in
    let last = get_elem?-append_length h.cells grown in
    let same : All (λ e. is_live cells' e.cell e.generation ≡ is_live h.cells e.cell e.generation)
        h.heap =
      All-map
        (λ y d.
          let (c, at) = DatedBy-cell (get_elem? h.cells y.cell) y.generation d in
          ap (λ o. occupied_by o y.generation)
            (get_elem?-append_left h.cells (grown ∷ []) y.cell (get_elem?-lt h.cells y.cell c at)))
        h.heap v.dated in
    (
      live_in-insert cells' (record { deadline = deadline; cell = length h.cells; generation = 0 })
            h.heap (ap (λ o. occupied_by o 0) last ∙ refl) v.sorted
          ∙ ap (insert (record { deadline = deadline; cell = length h.cells; generation = 0 }))
              (live_in-congr h.cells cells' h.heap same),
      ap occupant last,
    )

register_in-live :
    (h : DeadlineHeap) (node deadline : ℕ) (free : List ℕ)
    → All (Vacant h.cells) free
    → Valid h
    → let (key, h') = register_in h node deadline free in
      (live h' ≡ insert (entry_of deadline key) (live h))
      × (occupant (get_elem? h'.cells key.cell) ≡ some node)
register_in-live h node deadline [] vs v = grown-live h node deadline v
register_in-live h node deadline (i ∷ free) vs v = recycled-live h node deadline i free vs.0 v

-- Registering puts a timer of the deadline, under the key that it returns, among the live ones in
-- their order and moves none of them; the key's cell holds the node, and the heap stays valid.
pub register-live :
    (h : DeadlineHeap) (node deadline : ℕ)
    → Valid h
    → let (key, h') = register h node deadline in
      (live h' ≡ insert (entry_of deadline key) (live h))
      × (occupant (get_elem? h'.cells key.cell) ≡ some node)
      × Valid h'
unfolding register
register-live h node deadline v =
    let (a, b) = register_in-live h node deadline h.free v.vacant v in
    (a, b, register-Valid h node deadline v)
