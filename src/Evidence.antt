-- ===== src/Evidence.antt =====
-- release-gate/src/release_gate/evidence.py: the evidence package of a gate run.
pub mod Paths
pub mod Package
pub mod Lifetime
pub mod Budget
pub mod Finalization
pub mod Creation
pub mod Completion
pub mod Recorded
pub mod Settled
pub mod Retention
mod Tests
pub mod Verification
