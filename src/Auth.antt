-- ===== src/Auth.antt =====
-- Admission of authentication attempts with exponential backoff:
-- crates/daemon/src/domain/auth.rs. The child modules prove; `Policy` has the delays.
pub mod Policy
pub mod State
pub mod Backoff
pub mod Throttle
mod Examples
