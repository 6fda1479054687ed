-- ===== src/Edge/Single/Tests.antt =====
-- A `Single` at work.
use areamy.Common.{ℕ, zero, suc, ◌≡◌, refl, some}
use areamy.Error.{ok}
use areamy.Graph.{pushed, full, TryPushable, Closeable}
use areamy.Edge.Fanout
use areamy.Edge.Fanout.{at}
use areamy.Edge.Single.{Single, from, rotate, retry, close, suspended_at}
use areamy.Edge.Single.Refines.{as_fanout, as_fanout_outcome, Single-refines-Fanout}

-- An edge that is a count of the messages it still refuses.
abbrev busy : TryPushable ℕ ℕ
busy = record { try_push = λ n m. elim n [ zero ↦ (ok pushed, 0) | suc k ↦ (ok (full m), k) ] }

abbrev quiet : Closeable ℕ
quiet = record { close = λ n. (ok tt, n) }

held_once : rotate busy (from 1) 7 ≡ (ok (at 0), record { edge = 0; held = some 7 })
unfolding rotate from
held_once = refl

abbrev fresh : Single ℕ ℕ
fresh = from 1

Single-refines-Fanout_example :
    (as_fanout_outcome (rotate busy fresh 7) ≡ Fanout.rotate (λ m. m) busy (as_fanout fresh) 7)
    × (as_fanout_outcome (retry busy fresh) ≡ Fanout.retry (λ m. m) busy (as_fanout fresh))
    × (as_fanout_outcome (close quiet fresh) ≡ Fanout.close quiet (as_fanout fresh))
    × (suspended_at fresh ≡ Fanout.suspended_at (as_fanout fresh))
Single-refines-Fanout_example = Single-refines-Fanout (λ m. m) busy quiet fresh 7
