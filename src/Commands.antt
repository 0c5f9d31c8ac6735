-- ===== src/Commands.antt =====
-- The `main` functions of cmd/mtt-client, cmd/mtt-server and cmd/mtt-mu-server, up to the call
-- that builds the client or the server.
pub mod Client
pub mod Server
pub mod MuServer
pub mod Canonical
pub mod Plugin
pub mod Described
pub mod Running
pub mod Exit
pub mod MuRunning
pub mod MuExit
pub mod Starts
pub mod ServerStarts
