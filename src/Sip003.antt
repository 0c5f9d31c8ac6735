-- ===== src/Sip003.antt =====
-- internal/core/sip003.go: the arguments that a shadowsocks host passes to a plugin.
pub mod Options
pub mod Args
pub mod Errors
