-- ===== src/Client.antt =====
-- internal/service/codex_client.go: one `codex app-server` process and the goroutines around it.
pub mod Lines
pub mod State
pub mod Threads
pub mod Moves
pub mod Pending
pub mod Invariant
pub mod Promises
pub mod Ending
pub mod Races
pub mod Logs
pub mod Launch
pub mod Leaks
