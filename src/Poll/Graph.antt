-- ===== src/Poll/Graph.antt =====
-- poll/graph.rs, poll/graph/: the graph that is built on its poll thread.
--
-- A reserved node and a slot are their ids: their wakers and contexts are handles of the scheduler
-- (Poll.Scheduler). They cannot be copied, so the ids at large are a list from which a call takes the
-- one it is given (`Trace`).
pub mod Trace
pub mod Places
mod Tests
use areamy.Common.{
  ℕ, zero, suc, ◌+◌, Bool, true, false, Option, none, some, List, [], ◌∷◌, ◌++◌, get_elem?, set,
  length,
}
use areamy.Error.{fatal, Result, ok, err}

-- `Reservations`: how many ids were handed out.
pub record Reservations : Type 0 where
  pub len : ℕ

pub record Graph {ℓ} (P : Type ℓ) : Type ℓ where
  pub nodes : List (Option P)

pub reserve : Reservations → ℕ × Reservations
reserve r = (r.len, record { len = r.len + 1 })

module _ {ℓ} {P : Type ℓ} where
  pub empty_slots : ℕ → List (Option P)
  empty_slots zero = []
  empty_slots (suc n) = none ∷ empty_slots n

  -- `Reservations::local`
  pub local : Reservations → Graph P
  unfolding empty_slots
  local r = record { nodes = empty_slots r.len }

  pub slot : Graph P → ℕ × Graph P
  slot g = (length g.nodes, record { nodes = g.nodes ++ none ∷ [] })

  -- A slot past the graph drops the pollable.
  pub add : Graph P → ℕ → P → Graph P
  add g id pollable = elim (get_elem? g.nodes id) [
    | none ↦ g
    | some place ↦ record { nodes = set g.nodes id (some pollable) }
  ]

  -- `position(Option::is_none)`
  pub position : List (Option P) → Option ℕ
  position [] = none
  position (none ∷ ns) = some 0
  position (some p ∷ ns) = elim (position ns) [ none ↦ none | some id ↦ some (suc id) ]

  pub finish : Graph P → Result (List (Option P))
  unfolding position
  finish g = elim (position g.nodes) [
    | some id ↦ err (fatal "graph: a slot is empty")
    | none ↦ ok g.nodes
  ]
