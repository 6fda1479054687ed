-- ===== src/Work/Each.antt =====
-- work/work_each.rs: one round over the nodes that a node schedules.
--
-- A boxed workable is a pointer here: a node's own state, the edges and all else is in `X`, which
-- working it changes. The vector at index `i` is what stands before `i` and what is left from `i` on.
pub mod Once
mod Tests
use areamy.Common.{ℕ, zero, suc, List, [], ◌∷◌, ◌++◌, length}
use areamy.Error.{Error, fatal, any, closed, Result, ok, err, Op}

module _ {ℓ} {W : Type ℓ} where
  -- `Vec::swap_remove` puts the last of `rest` in the place of the one removed before it.
  abbrev pub in_front : W → List W → List W
  in_front w [] = w ∷ []
  in_front w (last ∷ rest) = last ∷ w ∷ rest

  pub last_first : List W → List W
  last_first [] = []
  last_first (w ∷ rest) = in_front w (last_first rest)

  -- `rotate_left(1)` under its guard.
  abbrev pub rotated : List W → List W
  rotated [] = []
  rotated (w ∷ []) = w ∷ []
  rotated (w ∷ v ∷ rest) = v ∷ rest ++ w ∷ []

module _ {ℓ κ} {W : Type ℓ} {X : Type κ} where
  -- One turn of the loop, once the workable answered; `onward` is the turns that follow.
  turn :
      (List W → List W → X → Result (Unit {0}) × List W × X)
      → List W
      → W
      → List W
      → Result (Unit {0}) × X
      → Result (Unit {0}) × List W × X
  turn onward before w rest (ok u, x) = onward (before ++ w ∷ []) rest x
  turn onward before w rest (err closed, x) = onward before (last_first rest) x
  turn onward before w rest (err (fatal m), x) = (err (fatal m), before ++ w ∷ rest, x)
  turn onward before w rest (err (any e), x) = (err (any e), before ++ w ∷ rest, x)

  finish : Result (Unit {0}) × List W × X → Result (Unit {0}) × List W × X
  finish (ok u, ws, x) = (ok tt, rotated ws, x)
  finish (err e, ws, x) = (err e, ws, x)

module _ {ℓ κ} {W : Type ℓ} {X : Type κ} (work : W → Op X (Unit {0})) where
  work_loop : ℕ → List W → List W → X → Result (Unit {0}) × List W × X
  unfolding turn
  work_loop fuel before [] x = (ok tt, before, x)
  work_loop zero before (w ∷ rest) x = (ok tt, before ++ w ∷ rest, x)
  work_loop (suc fuel) before (w ∷ rest) x = turn (work_loop fuel) before w rest (work w x)

  -- Each turn leaves one workable less from `i` on, so there are as many turns as workables.
  pub work_each : List W → X → Result (Unit {0}) × List W × X
  unfolding work_loop finish
  work_each ws x = finish (work_loop (length ws) [] ws x)
