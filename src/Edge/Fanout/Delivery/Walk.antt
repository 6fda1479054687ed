-- ===== src/Edge/Fanout/Delivery/Walk.antt =====
-- One walk over the edges.
use areamy.Common.{ℕ, zero, suc, ◌+◌, ◌≤◌, ◌≡◌, refl, List, [], ◌∷◌, ◌++◌, map, length, arith}
use areamy.Error.{Result, ok, err}
use areamy.Graph.{TryPush, pushed, full, stuck, TryPushable}
use areamy.Edge.Fanout.{Outcome, all_took, held, walk, walk_from, answer}
use areamy.Edge.Fanout.Delivery.{Answers, copy, source, give, Holds}

module _ {ℓ κ} {E : Type ℓ} {M : Type κ} (clone : M → M) (log : E → List M) where
  -- How a walk ended over edges of which the first has index `i`, by their logs before the message.
  abbrev pub Ended : ℕ → M → List (List M) → Result (Outcome M) × List E → Type κ
  Ended i m before (ok all_took, es) = map log es ≡ give clone (length before) m before
  Ended i m before (ok (held s), es) =
      (d : ℕ) × (s.index ≡ i + d) × Holds clone m d before s × (map log es ≡ give clone d m before)
  Ended i m before (err x, es) =
      (d : ℕ) × (d ≤ length before) × (map log es ≡ give clone d m before)

  Ended-cons :
      (i : ℕ) (m : M) (e : E) (l : List M) (before : List (List M))
      (w : Result (Outcome M) × List E)
      → log e ≡ l ++ copy clone m before ∷ []
      → Ended (suc i) m before w
      → Ended i m (l ∷ before) (w.0, e ∷ w.1)
  Ended-cons i m e l before (ok all_took, es) h w = rw (h, w)
  Ended-cons i m e l before (ok (held s), es) h (d, at_d, holds, same) =
      (suc d, omega arith, holds, rw (h, same))
  Ended-cons i m e l before (err x, es) h (d, few, same) = (suc d, omega arith, rw (h, same))

  Ended-answer :
      (i : ℕ) (m : M) (e : E) (es : List E) (onward : Result (Outcome M) × List E)
      (x : Result (TryPush M) × E)
      → Answers log e (copy clone m (map log es)) x
      → Ended (suc i) m (map log es) onward
      → Ended i m (log e ∷ map log es) (answer i (source clone m (map log es)) es onward x)
  unfolding answer
  Ended-answer i m e es onward (ok pushed, e') h w =
      Ended-cons i m e' (log e) (map log es) onward h w
  Ended-answer i m e es onward (ok (full r), e') h w = (0, omega arith, (h.1, refl), rw h.0)
  Ended-answer i m e es onward (ok (stuck r), e') h w = (0, omega arith, (h.1, refl), rw h.0)
  Ended-answer i m e es onward (err x, e') h w = (0, omega arith, rw h)

  module _ (t : TryPushable E M) (law : (e : E) (m : M) → Answers log e m (t.try_push e m)) where
    walk-Ended : (i : ℕ) (es : List E) (m : M) → Ended i m (map log es) (walk clone t i es m)
    unfolding walk
    walk-Ended i [] m = refl
    walk-Ended i (e ∷ []) m = Ended-answer i m e [] _ _ (law e m) refl
    walk-Ended i (e ∷ e' ∷ es) m =
        Ended-answer i m e (e' ∷ es) _ _ (law e (clone m)) (walk-Ended (suc i) (e' ∷ es) m)

    -- A walk that begins behind edges that took the message ends as one over all of them.
    pub walk_from-Ended :
        (i from : ℕ) (es : List E) (m : M) (before : List (List M))
        → map log es ≡ give clone from m before
        → Ended i m before (walk_from clone t i from es m)
    unfolding walk_from
    walk_from-Ended i zero es m before h = rw (← h) (walk-Ended i es m)
    walk_from-Ended i (suc from) [] m [] h = refl
    walk_from-Ended i (suc from) [] m (l ∷ before) h = cc
    walk_from-Ended i (suc from) (e ∷ es) m [] h = cc
    walk_from-Ended i (suc from) (e ∷ es) m (l ∷ before) h =
        Ended-cons i m e l before _ (ground arith)
          (walk_from-Ended (suc i) from es m before (ground arith))
