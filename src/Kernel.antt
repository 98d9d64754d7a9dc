-- ===== src/Kernel.antt =====
-- internal/kernel: the Session, Task, Plan, PlanStep and Run state machines, a module for each.
pub mod Base
pub mod Session
pub mod Task
pub mod Plan
pub mod Run
pub mod Lifecycle
pub mod Finish
pub mod Steps
pub mod Stance
pub mod Snapshot
pub mod Store
pub mod Histories
pub mod Updates
pub mod Follows
pub mod Versions
pub mod Metadata
pub mod Sessions
pub mod Bindings
pub mod Lasting
pub mod Writes
mod Examples
mod SessionExamples
