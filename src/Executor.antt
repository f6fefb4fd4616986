-- ===== src/Executor.antt =====
-- internal/service/executor.go: A2A requests as turns of a Codex thread.
pub mod Events
pub mod Input
pub mod Artifacts
pub mod Messages
pub mod World
pub mod Turn
pub mod Execute
pub mod Completed
pub mod Outcomes
pub mod Settled
pub mod Tracked
pub mod Cancellation
pub mod Streaming
pub mod Races
pub mod Safety
pub mod Replies
pub mod Deltas
pub mod Failures
