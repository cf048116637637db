-- ===== src/Daemon.antt =====
-- The daemon's lock lifecycle: crates/daemon/src/app. The children hold the messages, the state,
-- one module per group of handlers, and the proofs.
pub mod Messages
pub mod Runtime
pub mod Activation
pub mod Deactivation
pub mod Client
pub mod Transport
pub mod Signals
pub mod Control
pub mod Consistency
pub mod Outcomes
pub mod Ticks
pub mod Loop
pub mod Wedge
pub mod Release
pub mod Workers
mod Examples
