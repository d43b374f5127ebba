-- ===== src/Companion.antt =====
-- companion/: the older controller on the same store.
pub mod Scheduler
