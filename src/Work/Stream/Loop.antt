-- ===== src/Work/Stream/Loop.antt =====
-- A work thread's loop drops each workable once, and ends when they do.
use mathlib.Core.List.{Perm, perm_middle}
use mathlib.Core.List.Perm
use areamy.Common.{
  ℕ, zero, suc, Bool, true, false, none, some, List, [], ◌∷◌, ◌++◌, ◌≡◌, ◌≢◌, refl, sym, ap, subst,
  append-nil, append_assoc,
}
use areamy.Error.{closed, Result, ok, err, Op}
use areamy.Work.Each.{rotated, work_each}
use areamy.Work.Each.Once.{names, kept, Ran, Ended, work_each-Ended}
use areamy.Work.Stream.{Stopped, next_round, stream_loop}

module _ {ℓ} {W : Type ℓ} where
  -- Those that a log says are gone.
  abbrev pub gone : List (W × Bool) → List W
  gone [] = []
  gone ((w, true) ∷ l) = gone l
  gone ((w, false) ∷ l) = w ∷ gone l

  gone-append : (l m : List (W × Bool)) → gone (l ++ m) ≡ gone l ++ gone m
  gone-append [] m = refl
  gone-append ((w, true) ∷ l) m = gone-append l m
  gone-append ((w, false) ∷ l) m = ap (λ r. w ∷ r) (gone-append l m)

  gone_kept-perm : (l : List (W × Bool)) → Perm (gone l ++ kept l) (names l)
  gone_kept-perm [] = Perm.rfl
  gone_kept-perm ((w, false) ∷ l) = Perm.cons w (gone_kept-perm l)
  gone_kept-perm ((w, true) ∷ l) =
      Perm.trans (perm_middle (gone l) (kept l)) (Perm.cons w (gone_kept-perm l))

  rotated-perm : (l : List W) → Perm (rotated l) l
  rotated-perm [] = Perm.rfl
  rotated-perm (w ∷ []) = Perm.rfl
  rotated-perm (w ∷ v ∷ rest) =
      subst (λ r. Perm (v ∷ rest ++ w ∷ []) (w ∷ r)) (append-nil (v ∷ rest))
        (perm_middle (v ∷ rest) [])

  -- What a round leaves, with those that it dropped, is what it began with.
  round-perm :
      (l : List (W × Bool)) (ws todo : List W)
      → Perm (names l) todo
      → ws ≡ rotated (kept l)
      → Perm (gone l ++ ws) todo
  round-perm l ws todo p e =
      Perm.trans (rw e (Perm.append_left (gone l) (rotated-perm (kept l))))
        (Perm.trans (gone_kept-perm l) p)

module _ {ℓ κ} {W : Type ℓ} {X : Type κ} (work : W → Op X (Unit {0})) where
  Ran-append :
      (l m : List (W × Bool)) (x y z : X) → Ran work l x y → Ran work m y z → Ran work (l ++ m) x z
  Ran-append [] m x y z e r = rw e r
  Ran-append ((w, true) ∷ l) m x y z (h, ran) r = (h, Ran-append l m _ y z ran r)
  Ran-append ((w, false) ∷ l) m x y z (h, ran) r = (h, Ran-append l m _ y z ran r)

  -- How the loop ends: the calls of a log were made, one after another, and each workable that is not
  -- left is one that answered closed, once; without an error none is left, and an error other than
  -- closed is the last call's.
  abbrev pub Drains : List W → X → Stopped work → Type (ℓ ⊔ κ)
  Drains ws x (some (ok u), vs, y) =
      (l : List (W × Bool)) × Ran work l x y × Perm (gone l) ws × (vs ≡ [])
  Drains ws x (some (err e), vs, y) =
      (l : List (W × Bool)) × (w : W) × (z : X) × Ran work l x z
      × (work w z ≡ (err e, y))
      × (e ≢ closed)
      × Perm (gone l ++ vs) ws
  Drains ws x (none, vs, y) = (l : List (W × Bool)) × Ran work l x y × Perm (gone l ++ vs) ws

  -- After a round.
  chain :
      (l m : List (W × Bool)) (ws' vs ws : List W)
      → Perm (gone m ++ vs) ws'
      → Perm (gone l ++ ws') ws
      → Perm (gone (l ++ m) ++ vs) ws
  chain l m ws' vs ws p q =
      rw (gone-append l m, append_assoc (gone l) (gone m) vs)
        (Perm.trans (Perm.append_left (gone l) p) q)

  after-Drains :
      (l : List (W × Bool)) (ws ws' : List W) (x z : X) (r : Stopped work)
      → Ran work l x z
      → Perm (gone l ++ ws') ws
      → Drains ws' z r
      → Drains ws x r
  after-Drains l ws ws' x z (some (ok u), vs, y) ran q (m, ran', p, e) = (
    l ++ m,
    Ran-append l m x z y ran ran',
    subst (λ g. Perm g ws) (append-nil (gone (l ++ m)))
        (chain l m ws' [] ws (subst (λ g. Perm g ws') (sym (append-nil (gone m))) p) q),
    e,
  )
  after-Drains l ws ws' x z (some (err e), vs, y) ran q (m, w, z', ran', f, c, p) =
      (l ++ m, w, z', Ran-append l m x z z' ran ran', f, c, chain l m ws' vs ws p q)
  after-Drains l ws ws' x z (none, vs, y) ran q (m, ran', p) =
      (l ++ m, Ran-append l m x z y ran ran', chain l m ws' vs ws p q)

  next_round-Drains :
      (onward : List W → X → Stopped work) (ws : List W) (x : X)
      (r : Result (Unit {0}) × List W × X)
      → Ended work rotated [] ws x r
      → ((vs : List W) (y : X) → Drains vs y (onward vs y))
      → Drains ws x (next_round work onward r)
  unfolding next_round
  next_round-Drains onward ws x (ok u, vs, y) (l, ran, p, k) on =
      after-Drains l ws vs x y (onward vs y) ran (round-perm l vs ws p k) (on vs y)
  next_round-Drains onward ws x (err e, vs, y) (l, w, rest, z, ran, f, c, p, k) on = (
    l,
    w,
    z,
    ran,
    f,
    c,
    rw (k, ← append_assoc (gone l) (kept l) (w ∷ rest))
        (Perm.trans (Perm.append_right (w ∷ rest) (gone_kept-perm l)) p),
  )

  -- Whatever the workables answer, after any number of rounds: each that is not left answered closed,
  -- once, and was dropped; the loop returns without an error only when none is left; and it returns
  -- the error, other than closed, of the last workable that it worked.
  pub stream_loop-Drains :
      (rounds : ℕ) (ws : List W) (x : X) → Drains ws x (stream_loop work rounds ws x)
  unfolding stream_loop
  stream_loop-Drains rounds [] x = ([], refl, Perm.rfl, refl)
  stream_loop-Drains zero (w ∷ ws) x = ([], refl, Perm.rfl)
  stream_loop-Drains (suc rounds) (w ∷ ws) x =
      next_round-Drains (stream_loop work rounds) (w ∷ ws) x (work_each work (w ∷ ws) x)
        (work_each-Ended work (w ∷ ws) x) (stream_loop-Drains rounds)
