-- ===== src/LiveVerify.antt =====
-- src/dotmac_observability/live_verify.py.
pub mod Records
pub mod Derive
pub mod Tree
pub mod Targets
pub mod Integrity
pub mod Delivery
pub mod Probes
pub mod Rollback
pub mod Verify
pub mod Repaired
mod Tests
