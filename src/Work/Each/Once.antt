-- ===== src/Work/Each/Once.antt =====
-- A round works each node once.
use mathlib.Core.List.{Perm}
use mathlib.Core.List.Perm
use areamy.Common.{
  ℕ, zero, suc, Bool, true, false, List, [], ◌∷◌, ◌++◌, ◌≡◌, refl, sym, ◌∙◌, ap, arith, length,
  append_assoc, map, ◌≤◌, append-nil, ◌≢◌,
}
use areamy.Error.{fatal, any, closed, Result, ok, err, Op}
use areamy.Work.Each.{in_front, last_first, rotated, turn, finish, work_loop, work_each}

module _ {ℓ} {W : Type ℓ} where
  in_front-length : (w : W) (ws : List W) → length (in_front w ws) ≡ suc (length ws)
  in_front-length w [] = refl
  in_front-length w (last ∷ rest) = refl

  last_first-length : (ws : List W) → length (last_first ws) ≡ length ws
  unfolding last_first
  last_first-length [] = refl
  last_first-length (w ∷ rest) =
      in_front-length w (last_first rest) ∙ ap suc (last_first-length rest)

  in_front-perm : (w : W) (ws : List W) → Perm (in_front w ws) (w ∷ ws)
  in_front-perm w [] = Perm.rfl
  in_front-perm w (last ∷ rest) = Perm.swap w last rest

  last_first-perm : (ws : List W) → Perm (last_first ws) ws
  unfolding last_first
  last_first-perm [] = Perm.rfl
  last_first-perm (w ∷ rest) =
      Perm.trans (in_front-perm w (last_first rest)) (Perm.cons w (last_first-perm rest))

  -- A log of the workables in the order they were worked, with whether each stays.
  abbrev pub names : List (W × Bool) → List W
  names l = map (λ p. p.0) l

  abbrev pub kept : List (W × Bool) → List W
  kept [] = []
  kept ((w, true) ∷ l) = w ∷ kept l
  kept ((w, false) ∷ l) = kept l

module _ {ℓ κ} {W : Type ℓ} {X : Type κ} (work : W → Op X (Unit {0})) where
  -- The calls that a log lists, one after another from `x`, end in `y`; those that do not stay
  -- answered that they are closed.
  abbrev pub Ran : List (W × Bool) → X → X → Type κ
  Ran [] x y = x ≡ y
  Ran ((w, true) ∷ l) x y = ((work w x).0 ≡ ok tt) × Ran l (work w x).1 y
  Ran ((w, false) ∷ l) x y = ((work w x).0 ≡ err closed) × Ran l (work w x).1 y

  -- How a round that has `before` behind it and `todo` before it ends, from `x` on: each was worked
  -- once, and those that stay stand in the order they were worked, put in `order`; or one failed,
  -- which is still there with those that were not worked.
  abbrev pub Ended :
      (List W → List W) → List W → List W → X → Result (Unit {0}) × List W × X → Type (ℓ ⊔ κ)
  Ended order before todo x (ok u, ws, y) =
      (l : List (W × Bool)) × Ran l x y × Perm (names l) todo × (ws ≡ order (before ++ kept l))
  Ended order before todo x (err e, ws, y) =
      (l : List (W × Bool)) × (w : W) × (rest : List W) × (z : X) × Ran l x z
      × (work w z ≡ (err e, y))
      × (e ≢ closed)
      × Perm (names l ++ w ∷ rest) todo
      × (ws ≡ before ++ kept l ++ w ∷ rest)

  -- A workable that stays is behind from then on.
  stays-Ended :
      (before : List W) (w : W) (rest : List W) (x t : X) (r : Result (Unit {0}) × List W × X)
      → work w x ≡ (ok tt, t)
      → Ended (λ ws. ws) (before ++ w ∷ []) rest t r
      → Ended (λ ws. ws) before (w ∷ rest) x r
  stays-Ended before w rest x t (ok u, ws, y) h (l, ran, p, k) = (
    (w, true) ∷ l,
    (ap (λ a. a.0) h, rw h ran),
    Perm.cons w p,
    k ∙ append_assoc before (w ∷ []) (kept l),
  )
  stays-Ended before w rest x t (err e, ws, y) h (l, v, after, z, ran, f, c, p, k) = (
    (w, true) ∷ l,
    v,
    after,
    z,
    (ap (λ a. a.0) h, rw h ran),
    f,
    c,
    Perm.cons w p,
    k ∙ ap (λ b. b ++ v ∷ after) (append_assoc before (w ∷ []) (kept l)),
  )

  -- One that closed is gone, and the last takes its place.
  closes-Ended :
      (before : List W) (w : W) (rest : List W) (x t : X) (r : Result (Unit {0}) × List W × X)
      → work w x ≡ (err closed, t)
      → Ended (λ ws. ws) before (last_first rest) t r
      → Ended (λ ws. ws) before (w ∷ rest) x r
  closes-Ended before w rest x t (ok u, ws, y) h (l, ran, p, k) = (
    (w, false) ∷ l,
    (ap (λ a. a.0) h, rw h ran),
    Perm.cons w (Perm.trans p (last_first-perm rest)),
    k,
  )
  closes-Ended before w rest x t (err e, ws, y) h (l, v, after, z, ran, f, c, p, k) = (
    (w, false) ∷ l,
    v,
    after,
    z,
    (ap (λ a. a.0) h, rw h ran),
    f,
    c,
    Perm.cons w (Perm.trans p (last_first-perm rest)),
    k,
  )

  turn-Ended :
      (before : List W) (w : W) (rest : List W) (x : X)
      (onward : List W → List W → X → Result (Unit {0}) × List W × X) (a : Result (Unit {0}) × X)
      → work w x ≡ a
      → ((b todo : List W) (y : X)
          → length todo ≡ length rest
          → Ended (λ ws. ws) b todo y (onward b todo y))
      → Ended (λ ws. ws) before (w ∷ rest) x (turn onward before w rest a)
  unfolding turn
  turn-Ended before w rest x onward (ok u, y) h ih =
      stays-Ended before w rest x y _ h (ih (before ++ w ∷ []) rest y refl)
  turn-Ended before w rest x onward (err closed, y) h ih =
      closes-Ended before w rest x y _ h (ih before (last_first rest) y (last_first-length rest))
  turn-Ended before w rest x onward (err (fatal m), y) h ih = (
    [],
    w,
    rest,
    x,
    refl,
    h,
    (λ e. cc),
    Perm.rfl,
    ap (λ b. b ++ w ∷ rest) (sym (append-nil before)),
  )
  turn-Ended before w rest x onward (err (any m), y) h ih = (
    [],
    w,
    rest,
    x,
    refl,
    h,
    (λ e. cc),
    Perm.rfl,
    ap (λ b. b ++ w ∷ rest) (sym (append-nil before)),
  )

  work_loop-Ended :
      (fuel : ℕ) (before todo : List W) (x : X)
      → length todo ≤ fuel
      → Ended (λ ws. ws) before todo x (work_loop work fuel before todo x)
  unfolding work_loop
  work_loop-Ended fuel before [] x few = ([], refl, Perm.rfl, sym (append-nil before))
  work_loop-Ended zero before (w ∷ rest) x few = ground (arith, few)
  work_loop-Ended (suc fuel) before (w ∷ rest) x few =
      turn-Ended before w rest x (work_loop work fuel) (work w x) refl
        (λ b todo y same. work_loop-Ended fuel b todo y (omega (arith, same, few)))

  finish-Ended :
      (todo : List W) (x : X) (r : Result (Unit {0}) × List W × X)
      → Ended (λ ws. ws) [] todo x r
      → Ended rotated [] todo x (finish r)
  unfolding finish
  finish-Ended todo x (ok u, ws, y) (l, ran, p, k) = (l, ran, p, ap rotated k)
  finish-Ended todo x (err e, ws, y) h = h

  -- Whatever the nodes answer, a round works each node once, in some order, and returns. Without an
  -- error those that answered that they are closed are gone, and the others stand in the order in
  -- which they were worked, but the first of them last. An error other than closed ends the round,
  -- and the node that failed is still there, with those that were not worked.
  pub work_each-Ended : (ws : List W) (x : X) → Ended rotated [] ws x (work_each work ws x)
  unfolding work_each
  work_each-Ended ws x =
      finish-Ended ws x (work_loop work (length ws) [] ws x)
        (work_loop-Ended (length ws) [] ws x (omega arith))
