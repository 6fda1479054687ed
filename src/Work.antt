-- ===== src/Work.antt =====
-- work/: nodes that a thread works, one message a round.
pub mod Each
pub mod Node
pub mod Line
pub mod Bifurcation
pub mod Biunion
pub mod Multiedge
pub mod Pulled
pub mod Stream
