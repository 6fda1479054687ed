-- ===== src/Edge/Single.antt =====
-- edge/single.rs: a node's output over one edge, which takes the message itself.
pub mod Refines
mod Tests
use areamy.Common.{ℕ, Option, none, some}
use mathlib.Core.Option
use areamy.Error.{fatal, Result, ok, err}
use areamy.Wake.{Waker}
use areamy.Graph.{TryPush, pushed, full, stuck, TryPushable, Closeable, Schedulable}
use areamy.Edge.Fanout.{Rotation, complete, at}

pub record Single {ℓ κ} (E : Type ℓ) (M : Type κ) : Type (ℓ ⊔ κ) where
  pub edge : E
  pub held : Option M

module _ {ℓ κ} {E : Type ℓ} {M : Type κ} where
  -- `From`
  pub from : E → Single E M
  from e = record { edge = e; held = none }

  pub close : Closeable E → Single E M → Result (Unit {0}) × Single E M
  close c s = let (r, e) = c.close s.edge in (r, record { edge = e; held = none })

  pub schedule : Schedulable E → Single E M → Waker → Single E M
  schedule k s w = record s { edge = k.schedule s.edge w }

  pub suspended_at : Single E M → Option ℕ
  suspended_at s = Option.map (λ _. 0) s.held

  delivered : Single E M → Result (TryPush M) × E → Result Rotation × Single E M
  delivered s (ok pushed, e) = (ok complete, record s { edge = e })
  delivered s (ok (full m), e) = (ok (at 0), record { edge = e; held = some m })
  delivered s (ok (stuck m), e) = (ok (at 0), record { edge = e; held = some m })
  delivered s (err x, e) = (err x, record s { edge = e })

  deliver : TryPushable E M → Single E M → M → Result Rotation × Single E M
  unfolding delivered
  deliver t s m = delivered s (t.try_push s.edge m)

  pub retry : TryPushable E M → Single E M → Result Rotation × Single E M
  unfolding deliver
  retry t s = elim s.held [
    | none ↦ (ok complete, s)
    | some m ↦ deliver t (record s { held = none }) m
  ]

  pub rotate : TryPushable E M → Single E M → M → Result Rotation × Single E M
  unfolding deliver
  rotate t s m = elim s.held [
    | none ↦ deliver t s m
    | some _ ↦ (err (fatal "output pushed past a held message"), s)
  ]
