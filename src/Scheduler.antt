-- ===== src/Scheduler.antt =====
-- internal/scheduler: recurring jobs in the database, claimed under leases and acknowledged.
pub mod Advance
pub mod Jobs
pub mod Expiry
pub mod Claims
pub mod Settle
pub mod Bounded
pub mod Due
pub mod Attempts
pub mod History
pub mod Once
mod Examples
