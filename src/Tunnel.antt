-- ===== src/Tunnel.antt =====
-- internal/core/common.go: `firstErr`, `copyBuffer`, `openOneWayTunnel` and `openTunnel`. The two
-- goroutines of a tunnel interleave in any order, one access to shared state at a time; what the
-- connections answer is chosen by the environment.
pub mod FirstErr
pub mod Worker
pub mod System
pub mod Invariant
pub mod Delivery
pub mod Preserved
pub mod Reporting
pub mod Safety
pub mod Termination
pub mod Liveness
pub mod Deadlines
pub mod Timeout
pub mod AtomicValue
pub mod EndToEnd
