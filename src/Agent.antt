-- ===== src/Agent.antt =====
-- internal/agent: the inbox of a runner and the detection of tool loops.
pub mod Inbox
pub mod Delivery
pub mod Loops
mod Examples
