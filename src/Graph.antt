-- ===== src/Graph.antt =====
-- graph/: what an edge offers to a node, as records of operations.
use areamy.Common.{Option, none, some}
use areamy.Error.{Result}
use areamy.Wake.{Waker}

-- graph/outlet/try_pushable.rs
pub data TryPush {ℓ} (M : Type ℓ) : Type ℓ where
  pushed : TryPush M
  full : M → TryPush M
  stuck : M → TryPush M

module _ {ℓ} {M : Type ℓ} where
  -- `TryPush::refused`
  abbrev pub refused : TryPush M → Option M
  refused pushed = none
  refused (full m) = some m
  refused (stuck m) = some m

pub record TryPushable {ℓ κ} (E : Type ℓ) (M : Type κ) : Type (ℓ ⊔ κ) where
  pub try_push : E → M → Result (TryPush M) × E

pub record Pushable {ℓ κ} (E : Type ℓ) (M : Type κ) : Type (ℓ ⊔ κ) where
  pub push : E → M → Result (Unit {0}) × E

pub record Closeable {ℓ} (E : Type ℓ) : Type ℓ where
  pub close : E → Result (Unit {0}) × E

pub record Schedulable {ℓ} (E : Type ℓ) : Type ℓ where
  pub schedule : E → Waker → E
