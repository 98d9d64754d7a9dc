-- ===== src/Broker.antt =====
-- internal/tools/broker.go: the broker through which every call of a tool passes.
pub mod Requests
pub mod Schemas
pub mod Calls
pub mod Execute
pub mod Rounds
pub mod Setup
pub mod Authority
pub mod Begins
pub mod Unchanged
pub mod Steps
pub mod Moves
pub mod Uses
pub mod Once
pub mod Kept
pub mod Waits
pub mod Answers
pub mod Runs
pub mod Registry
pub mod Cancels
mod Examples
mod HistoryExamples
mod AnswerExamples
