-- ===== src/Client.antt =====
-- internal/core/client.go, but for its pool of sessions.
pub mod New
pub mod Checks
pub mod NewLaws
pub mod FallbackDns
pub mod Forward
