-- ===== src/Server.antt =====
-- internal/core/server.go.
pub mod New
pub mod NewLaws
pub mod Serve
pub mod ServeLaws
pub mod Negotiation
pub mod SelfSigned
