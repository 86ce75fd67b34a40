-- ===== src/Admission.antt =====
-- Admission to the accepted history of a thread (crates/cbcl-core/src/admission.rs).
pub mod Check
pub mod Monitor
pub mod Consistent
pub mod Visited
mod Events
pub mod Drain
pub mod Receive
pub mod Quiet
pub mod Fixed
mod Tests
