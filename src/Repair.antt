-- ===== src/Repair.antt =====
-- release-gate/src/release_gate/repair/: repair sessions.
pub mod Models
pub mod Assessment
pub mod Eligibility
pub mod Workspace
pub mod Application
pub mod Rollback
pub mod Store
pub mod Actions
pub mod Transitions
pub mod Controller
pub mod Evaluation
pub mod Apply
pub mod Playbooks
pub mod Start
pub mod Beginnings
pub mod Lifecycle
pub mod Boundary
pub mod Returns
pub mod Persistence
pub mod Applied
pub mod Commands
pub mod Summary
pub mod Tests
pub mod Samples
pub mod CommandTests
pub mod SessionTests
