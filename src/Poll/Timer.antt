-- ===== src/Poll/Timer.antt =====
-- poll/timer/deadline.rs, key.rs and `Timers` of timer.rs: a thread's timers.
--
-- Instants are numbers. The binary heap of the standard library is a list in the entries' order,
-- of which it shows and pops the first. The free cells are a list whose first is the last of the
-- source's vector. An index past the cells would panic; no cell that is indexed is, as `Valid` says.
pub mod Valid
pub mod Keeps
pub mod Vacates
pub mod Live
pub mod Fires
pub mod Leaves
pub mod Expire
mod Tests
use areamy.Common.{
  ℕ, zero, suc, ◌+◌, ◌%◌, ◌^◌, Bool, true, false, Option, none, some, List, [], ◌∷◌, ◌++◌, ◌&&◌,
  if◌then◌else◌, ltb, ◌==◌, length, get_elem?, set, is_some,
}

pub record Entry : Type 0 where
  pub deadline : ℕ
  pub cell : ℕ
  pub generation : ℕ

pub record Cell : Type 0 where
  pub generation : ℕ
  pub node_id : Option ℕ

pub record TimerKey : Type 0 where
  pub cell : ℕ
  pub generation : ℕ

pub record DeadlineHeap : Type 0 where
  pub heap : List Entry
  pub cells : List Cell
  pub free : List ℕ

-- `Ord for DeadlineEntry`
abbrev pub before : Entry → Entry → Bool
before a b =
    if ltb a.deadline b.deadline
    then true
    else if a.deadline == b.deadline
    then (if ltb a.cell b.cell
        then true
        else if a.cell == b.cell
        then ltb a.generation b.generation
        else false)
    else false

-- `BinaryHeap::push`
abbrev pub insert : Entry → List Entry → List Entry
insert e [] = e ∷ []
insert e (x ∷ xs) = let rest = insert e xs in if before x e then x ∷ rest else e ∷ x ∷ xs

-- `Generation::next`
abbrev pub next_generation : ℕ → ℕ
next_generation g = (g + 1) % 2 ^ 64

pub new : DeadlineHeap
new = record { heap = []; cells = []; free = [] }

abbrev pub occupied_by : Option Cell → ℕ → Bool
occupied_by none generation = false
occupied_by (some c) generation = (c.generation == generation) && is_some c.node_id

-- `is_live`
abbrev pub is_live : List Cell → ℕ → ℕ → Bool
is_live cells cell generation = occupied_by (get_elem? cells cell) generation

abbrev generation_of : Option Cell → ℕ
generation_of none = 0
generation_of (some c) = c.generation

-- `register`, once it has its cell: the entry and the key name the cell's generation.
push_entry : DeadlineHeap → ℕ → ℕ → ℕ → TimerKey × DeadlineHeap
push_entry h deadline cell generation = (
  record { cell = cell; generation = generation },
  record h {
    heap = insert (record { deadline = deadline; cell = cell; generation = generation }) h.heap;
  },
)

register_in : DeadlineHeap → ℕ → ℕ → List ℕ → TimerKey × DeadlineHeap
unfolding push_entry
register_in h node deadline [] =
    push_entry (record h { cells = h.cells ++ record { generation = 0; node_id = some node } ∷ [] })
      deadline (length h.cells) 0
register_in h node deadline (c ∷ free) =
    let generation = generation_of (get_elem? h.cells c) in
    push_entry
      (record h {
        cells = set h.cells c (record { generation = generation; node_id = some node });
        free = free;
      })
      deadline c generation

pub register : DeadlineHeap → ℕ → ℕ → TimerKey × DeadlineHeap
unfolding register_in
register h node deadline = register_in h node deadline h.free

abbrev pub occupant : Option Cell → Option ℕ
occupant none = none
occupant (some c) = c.node_id

-- `take_live`
pub take_live : DeadlineHeap → ℕ → ℕ → Option ℕ × DeadlineHeap
take_live h cell generation =
    if is_live h.cells cell generation
    then (
      occupant (get_elem? h.cells cell),
      record h {
        cells =
            set h.cells cell (record { generation = next_generation generation; node_id = none });
        free = cell ∷ h.free;
      },
    )
    else (none, h)

pub cancel : DeadlineHeap → TimerKey → DeadlineHeap
unfolding take_live
cancel h key = (take_live h key.cell key.generation).1

peek_in : DeadlineHeap → List Entry → Option ℕ × DeadlineHeap
peek_in h [] = (none, record h { heap = [] })
peek_in h (e ∷ es) =
    let later = peek_in h es in
    if is_live h.cells e.cell e.generation
    then (some e.deadline, record h { heap = e ∷ es })
    else later

pub peek : DeadlineHeap → Option ℕ × DeadlineHeap
unfolding peek_in
peek h = peek_in h h.heap

pop_in : DeadlineHeap → ℕ → List Entry → Option ℕ × DeadlineHeap
unfolding take_live
pop_in h now [] = (none, record h { heap = [] })
pop_in h now (e ∷ es) =
    let later = pop_in h now es in
    if is_live h.cells e.cell e.generation
    then (if ltb now e.deadline
        then (none, record h { heap = e ∷ es })
        else take_live (record h { heap = es }) e.cell e.generation)
    else later

pub pop : DeadlineHeap → ℕ → Option ℕ × DeadlineHeap
unfolding pop_in
pop h now = pop_in h now h.heap

-- `expire`'s loop, over at most `fuel` timers; the nodes that it wakes, in order.
expired : (DeadlineHeap → List ℕ × DeadlineHeap) → Option ℕ × DeadlineHeap → List ℕ × DeadlineHeap
expired onward (none, h) = ([], h)
expired onward (some node, h) = let (nodes, h') = onward h in (node ∷ nodes, h')

expire_loop : ℕ → ℕ → DeadlineHeap → List ℕ × DeadlineHeap
unfolding pop expired
expire_loop zero now h = ([], h)
expire_loop (suc fuel) now h = expired (expire_loop fuel now) (pop h now)

-- `Timers::expire`, when the clock reads `now`: a heap with nothing live is not popped. It has one
-- turn for each entry, and one that finds nothing due.
pub expire : DeadlineHeap → ℕ → List ℕ × DeadlineHeap
unfolding peek expire_loop
expire h now =
    let (earliest, h') = peek h in
    let drained = expire_loop (suc (length h'.heap)) now h' in
    elim earliest [ none ↦ ([], h') | some _ ↦ drained ]
