-- ===== src/Wake.antt =====
-- wake/: wakers, and the parker that blocks a thread until it is woken.
pub mod Parker
use areamy.Common.{ℕ}

-- A `core::task::Waker`, by its target: `will_wake` compares targets.
abbrev pub Waker : Type 0
Waker = ℕ
