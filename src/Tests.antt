-- ===== src/Tests.antt =====
-- The theorems at concrete inputs, and small runs of the definitions.
mod Users
mod Tunnels
mod Buffering
mod Waiting
mod Handshakes
mod Routes
mod Delivered
mod Sessions
mod Plugins
mod Endpoints
mod Websockets
mod Certificates
mod Listeners
mod Starts
mod Dialers
mod Races
mod Streaming
