-- ===== src/Work/Stream.antt =====
-- work/stream.rs: the loop of a work thread over its workables.
pub mod Loop
pub mod Ends
mod Tests
use areamy.Common.{ℕ, zero, suc, Option, none, some, List, [], ◌∷◌}
use areamy.Error.{Result, ok, err, Op}
use areamy.Work.Each.{work_each}

module _ {ℓ κ} {W : Type ℓ} {X : Type κ} (work : W → Op X (Unit {0})) where
  abbrev pub Stopped : Type (ℓ ⊔ κ)
  Stopped = Option (Result (Unit {0})) × List W × X

  next_round : (List W → X → Stopped) → Result (Unit {0}) × List W × X → Stopped
  next_round onward (ok u, ws, x) = onward ws x
  next_round onward (err e, ws, x) = (some (err e), ws, x)

  -- `work_loop`, for some rounds; `none` where it goes on.
  pub stream_loop : ℕ → List W → X → Stopped
  unfolding next_round
  stream_loop rounds [] x = (some (ok tt), [], x)
  stream_loop zero (w ∷ ws) x = (none, w ∷ ws, x)
  stream_loop (suc rounds) (w ∷ ws) x = next_round (stream_loop rounds) (work_each work (w ∷ ws) x)
