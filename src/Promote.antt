-- ===== src/Promote.antt =====
-- src/dotmac_observability/promote.py: the promotion executor.
pub mod Records
pub mod Preconditions
pub mod Stop
pub mod Run
pub mod Admission
pub mod Ending
pub mod Completes
pub mod Journal
