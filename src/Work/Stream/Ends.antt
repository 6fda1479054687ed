-- ===== src/Work/Stream/Ends.antt =====
-- A work thread's loop ends.
use areamy.Common.{
  ℕ, zero, suc, ◌+◌, ◌≤◌, ◌<◌, Bool, true, false, some, List, [], ◌∷◌, ◌≡◌, refl, arith, length,
  length-append,
}
use areamy.Error.{Result, ok, err, Op}
use areamy.Work.Each.{rotated, work_each}
use areamy.Work.Each.Once.{kept, Ran, Ended, work_each-Ended}
use areamy.Work.Stream.{Stopped, next_round, stream_loop}

rotated-length {ℓ} : {W : Type ℓ} (l : List W) → length (rotated l) ≡ length l
rotated-length [] = refl
rotated-length (w ∷ []) = refl
rotated-length (w ∷ v ∷ rest) = omega (arith, length-append rest (w ∷ []))

module _ {κ} {X : Type κ} (left : X → ℕ) where
  -- What a call that closes, and one that does not, does to what is left to do.
  abbrev pub Spends : X → Result (Unit {0}) × X → Type 0
  Spends x (ok u, y) = left y < left x
  Spends x (err e, y) = left y ≤ left x

module _ {ℓ κ} {W : Type ℓ} {X : Type κ} (work : W → Op X (Unit {0})) (left : X → ℕ) where
  module _ (spends : (w : W) (x : X) → Spends left x (work w x)) where
    spent : (x : X) (a : Result (Unit {0}) × X) → a.0 ≡ ok tt → Spends left x a → left a.1 < left x
    spent x (ok u, y) e h = h
    spent x (err f, y) e h = cc

    unspent : (x : X) (a : Result (Unit {0}) × X) → Spends left x a → left a.1 ≤ left x
    unspent x (ok u, y) h = omega arith
    unspent x (err e, y) h = h

    Ran-le : (l : List (W × Bool)) (x y : X) → Ran work l x y → left y + length (kept l) ≤ left x
    Ran-le [] x y e = rw e (omega arith)
    Ran-le ((w, true) ∷ l) x y (h, ran) =
        omega (arith, spent x (work w x) h (spends w x), Ran-le l (work w x).1 y ran)
    Ran-le ((w, false) ∷ l) x y (h, ran) =
        omega (arith, unspent x (work w x) (spends w x), Ran-le l (work w x).1 y ran)

    next_round-ends :
        (onward : List W → X → Stopped work) (ws : List W) (x : X)
        (r : Result (Unit {0}) × List W × X)
        → Ended work rotated [] ws x r
        → ((vs : List W) (y : X)
            → left y + length vs ≤ left x
            → (u : Result (Unit {0})) × ((onward vs y).0 ≡ some u))
        → (u : Result (Unit {0})) × ((next_round work onward r).0 ≡ some u)
    unfolding next_round
    next_round-ends onward ws x (ok u, vs, y) (l, ran, p, k) on =
        on vs y (rw (k, rotated-length (kept l)) (Ran-le l x y ran))
    next_round-ends onward ws x (err e, vs, y) h on = (err e, refl)

    -- If every call that does not close leaves less to do, and one that closes no more, the loop
    -- ends, in as many rounds as there is left to do and there are workables.
    pub stream_loop-ends :
        (rounds : ℕ) (ws : List W) (x : X)
        → left x + length ws ≤ rounds
        → (u : Result (Unit {0})) × ((stream_loop work rounds ws x).0 ≡ some u)
    unfolding stream_loop
    stream_loop-ends rounds [] x h = (ok tt, refl)
    stream_loop-ends zero (w ∷ ws) x h = absurd (omega arith)
    stream_loop-ends (suc rounds) (w ∷ ws) x h =
        next_round-ends (stream_loop work rounds) (w ∷ ws) x (work_each work (w ∷ ws) x)
          (work_each-Ended work (w ∷ ws) x) (λ vs y l. stream_loop-ends rounds vs y (omega arith))
