-- ===== src/Orchestrator.antt =====
-- A9-orchestrator/src/ai_engineering_orchestrator/: the control plane of an automation run.
pub mod Models
pub mod Machine
pub mod Budgets
pub mod Registry
pub mod Actions
pub mod Service
pub mod Execution
pub mod Handlers
pub mod Triples
pub mod Trails
pub mod Endings
pub mod Rounds
pub mod Runs
pub mod Outcomes
pub mod Meter
pub mod Costs
pub mod Passes
pub mod Spending
pub mod Withheld
pub mod Denied
pub mod Late
pub mod Limits
mod Tests
