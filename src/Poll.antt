-- ===== src/Poll.antt =====
-- poll/ and node/poll/: the async side, a thread of nodes that are polled when they are woken.
pub mod Node
pub mod Edge
pub mod Scheduler
pub mod Timer
pub mod Future
pub mod Thread
pub mod Graph
