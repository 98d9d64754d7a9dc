-- ===== src/Approval.antt =====
-- internal/approval/grant.go: capability grants.
pub mod Match
pub mod Grant
pub mod Normal
pub mod Order
pub mod Capabilities
pub mod Document
pub mod Records
pub mod Issue
pub mod Decide
pub mod Sanction
pub mod Invalidation
pub mod Usable
pub mod Consumption
pub mod Contained
pub mod Commits
pub mod Ops
pub mod Progress
pub mod History
pub mod Revocation
pub mod Coverage
mod Examples
pub mod IssueExamples
