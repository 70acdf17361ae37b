-- ===== src/Scheduling.antt =====
-- core/scheduler: jobs that start at a time or on a condition.
pub mod Times
pub mod Schedules
pub mod Runner
