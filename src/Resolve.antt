-- ===== src/Resolve.antt =====
-- `resolution_findings` and `resolve` of src/dotmac_observability/validate.py: the join of the public
-- inventory and the private one.
pub mod Endpoints
pub mod Receivers
pub mod SourceSets
pub mod Findings
pub mod Join
pub mod Bound
pub mod Filled
pub mod Loops
pub mod Total
pub mod Verified
pub mod Promoted
