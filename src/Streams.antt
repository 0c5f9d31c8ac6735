-- ===== src/Streams.antt =====
-- Multiplexed streams: internal/core/cmux.go, the pool of sessions of internal/core/client.go, and
-- the accept loop `handleClientMuxConn` of internal/core/common.go.
pub mod Smux
pub mod Session
pub mod Pool
pub mod PoolLaws
pub mod PoolBounds
pub mod Accept
pub mod Shared
