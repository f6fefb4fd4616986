-- ===== src/Executor/Safety.antt =====
-- The executor on a broker that the program can reach: no method is called on a nil client.
pub mod Actions
pub mod Broker
pub mod Execute
pub mod Input
pub mod Messages
pub mod Others
pub mod Turns
