-- ===== src/Edge.antt =====
-- edge/: the edges that join nodes.
pub mod Sync
pub mod Waking
pub mod Policy
pub mod Fanout
pub mod Single
