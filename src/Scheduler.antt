-- ===== src/Scheduler.antt =====
-- internal/scheduler: when a proof is too old, which drills run at once, and when each one fires.
pub mod Staleness
pub mod Gate
pub mod Flight
pub mod Due
pub mod Fires
pub mod Never
pub mod Fresh
