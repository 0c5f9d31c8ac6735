-- ===== src/MultiUser.antt =====
-- internal/core/multi_user_http_mux.go (the table of users) and the controller of
-- internal/core/multi_user_server.go. Each handler takes the lock of the table for its one call
-- of `add`, `del`, `reset`, `get` or `len`, so concurrent handlers act one after the other.
pub mod Table
pub mod Controller
pub mod Spec
pub mod History
pub mod Replies
pub mod Routing
pub mod Isolation
pub mod Start
