-- ===== src/TaskStore.antt =====
-- internal/service/taskstore.go: the tasks of an A2A server in memory, by user.
pub mod Store
pub mod Listing
pub mod Tokens
pub mod Order
pub mod Keyed
pub mod Pages
pub mod Cover
pub mod Complete
pub mod Request
pub mod Visible
pub mod Ownership
pub mod Versions
