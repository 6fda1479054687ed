-- ===== src/Poll/Graph/Trace.antt =====
-- A graph under construction, and the ids of the reserved nodes and slots that were not added.
pub mod Built
use areamy.Common.{
  ℕ, zero, suc, ◌==◌, Bool, true, false, Option, none, some, List, [], ◌∷◌, if◌then◌else◌,
}
use areamy.Poll.Graph.{Reservations, Graph, reserve, local, slot, add}

-- The nodes that were reserved before the thread runs, and their ids.
abbrev pub reserved : ℕ → Reservations × List ℕ
reserved zero = (record { len = 0 }, [])
reserved (suc n) = let (r, ids) = reserved n in let (id, r') = reserve r in (r', id ∷ ids)

-- The graph, and the ids of the reserved nodes and slots that were not added.
pub record Building {ℓ} (P : Type ℓ) : Type ℓ where
  pub graph : Graph P
  pub at_large : List ℕ

pub data Call {ℓ} (P : Type ℓ) : Type ℓ where
  makes : Call P
  adds : ℕ → P → Call P

unfoldable pub consed : ℕ → Option (List ℕ) → Option (List ℕ)
consed j none = none
consed j (some l) = some (j ∷ l)

-- The list without this id, if it is there.
unfoldable pub taken_out : ℕ → List ℕ → Option (List ℕ)
unfolding consed
taken_out id [] = none
taken_out id (j ∷ l) = let rest = taken_out id l in if id == j then some l else consed j rest

module _ {ℓ} {P : Type ℓ} where
  -- A builder adds to a slot that it has; an id that is not at large names none.
  unfoldable pub call : Building P → Call P → Building P
  unfolding taken_out
  call b makes = let (id, g) = slot b.graph in record { graph = g; at_large = id ∷ b.at_large }
  call b (adds id p) = elim (taken_out id b.at_large) [
    | none ↦ b
    | some rest ↦ record { graph = add b.graph id p; at_large = rest }
  ]

  unfoldable pub build : Building P → List (Call P) → Building P
  unfolding call
  build b [] = b
  build b (c ∷ cs) = build (call b c) cs

  unfoldable pub begun : ℕ → Building P
  begun n = let (r, ids) = reserved n in record { graph = local r; at_large = ids }
