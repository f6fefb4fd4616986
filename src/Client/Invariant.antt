-- ===== src/Client/Invariant.antt =====
-- What holds in every state of a client that its goroutines can reach.
pub mod Defs
pub mod Frames
pub mod Channels
pub mod Shared
pub mod Frame
pub mod Own
pub mod Rely
pub mod Reach
