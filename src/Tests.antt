-- ===== src/Tests.antt =====
-- Runs at concrete inputs, and the theorems at inputs that meet their hypotheses.
mod Samples
mod Configs
mod Brokers
mod Executors
mod Replies
mod Stores
mod Clients
mod Proxies
