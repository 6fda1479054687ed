-- ===== src/Poll/Scheduler.antt =====
-- poll/scheduler/: which nodes of a thread are to be polled.
pub mod Treiber
