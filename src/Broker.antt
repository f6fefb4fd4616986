-- ===== src/Broker.antt =====
-- internal/service/broker.go, lines 153 to 435: the broker, which owns the sessions of each context
-- and the runtimes of the active tasks.
--
-- Sessions and runtimes are shared by pointer (a session by its context and its runtime, a runtime
-- by the broker and the running handler), so they live on two heaps and are named by references;
-- `next_session` and `next_runtime` are the next free ones. A context is reached by its map entry
-- alone. `running` holds the app-server processes that were launched and not closed, `sent` what
-- was written to them, the last first. What the operating system and the app-server answer is the
-- argument `Answers`.
pub mod Sessions
pub mod Tasks
pub mod Branching
pub mod Forest
pub mod Invariant
pub mod Continuity
pub mod Opened
pub mod Lifecycle
pub use Sessions.{
  TaskSession, ContextState, Broker, Answers, update, new_broker, close_client, send,
}
unfoldable pub use Sessions.{
  start_session, fork_session, task_blocks, find_leaf, referenced, resolve_tasks,
  resolve_base_session,
}
pub use Tasks.{update_session, update_runtime}
unfoldable pub use Tasks.{
  ensure_context, bump_parent, register, start_task, task, drop_parent, drop_session,
  release_client, finish_task_with_policy, finish_task, discard_task, cancel, close,
}
