-- ===== src/Broker/Forest.antt =====
-- The sessions of one context as a forest: each session under its parent, with the number of its
-- children counted in `child_count`. A context lists its sessions from the newest to the oldest.
pub mod Links
pub mod Insert
pub mod Remove
