-- ===== src/AuthProxy.antt =====
-- internal/service/auth_proxy.go: a proxy that puts the credentials of Codex into requests.
pub mod Auth
pub mod Headers
pub mod Forward
pub mod Credentials
pub mod Retry
pub mod Service
pub mod Usable
pub mod Provider
