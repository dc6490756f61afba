-- ===== src/Release.antt =====
-- The policy of A3-release-gate-service and the contract of A1-shared-contracts for its result.
pub mod Models
pub mod Engine
pub mod Contract
mod Tests
