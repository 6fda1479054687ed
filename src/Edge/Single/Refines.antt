-- ===== src/Edge/Single/Refines.antt =====
-- A `Single` is a fan-out of one edge.
use areamy.Common.{◌≡◌, none, some, [], ◌∷◌, arith}
use areamy.Graph.{TryPushable, Closeable}
use areamy.Edge.Fanout
use areamy.Edge.Fanout.{Rotation, Fanout}
use areamy.Edge.Single.{Single, close, suspended_at, retry, rotate}

module _ {ℓ κ} {E : Type ℓ} {M : Type κ} where
  abbrev pub as_fanout : Single E M → Fanout E M
  as_fanout s = record {
    edges = s.edge ∷ [];
    suspended = elim s.held [
      | none ↦ none
      | some m ↦ some (record { index = 0; message = m; rest = none })
    ];
  }

  abbrev pub as_fanout_outcome {κ'} : {A : Type κ'} → A × Single E M → A × Fanout E M
  as_fanout_outcome (r, s) = (r, as_fanout s)

module _ {ℓ κ} {E : Type ℓ} {M : Type κ} (clone : M → M) where
  rotate-as_fanout :
      (t : TryPushable E M) (s : Single E M) (m : M)
      → as_fanout_outcome (rotate t s m) ≡ Fanout.rotate clone t (as_fanout s) m
  unfolding rotate Fanout.rotate
  rotate-as_fanout t s m = ground (arith, t.try_push s.edge m)

  retry-as_fanout :
      (t : TryPushable E M) (s : Single E M)
      → as_fanout_outcome (retry t s) ≡ Fanout.retry clone t (as_fanout s)
  unfolding retry Fanout.retry
  retry-as_fanout t s = ground arith

  close-as_fanout :
      (c : Closeable E) (s : Single E M)
      → as_fanout_outcome (close c s) ≡ Fanout.close c (as_fanout s)
  unfolding close Fanout.close
  close-as_fanout c s = ground arith

  -- On a fan-out of one edge `rotate`, `retry`, `close` and `suspended` do what they do on a `Single`,
  -- whatever the edge answers: same result, same edge, same held message. The fan-out's cloning is
  -- never called for.
  pub Single-refines-Fanout :
      (t : TryPushable E M) (c : Closeable E) (s : Single E M) (m : M)
      → (as_fanout_outcome (rotate t s m) ≡ Fanout.rotate clone t (as_fanout s) m)
        × (as_fanout_outcome (retry t s) ≡ Fanout.retry clone t (as_fanout s))
        × (as_fanout_outcome (close c s) ≡ Fanout.close c (as_fanout s))
        × (suspended_at s ≡ Fanout.suspended_at (as_fanout s))
  unfolding suspended_at Fanout.suspended_at
  Single-refines-Fanout t c s m =
      (rotate-as_fanout t s m, retry-as_fanout t s, close-as_fanout c s, ground arith)
