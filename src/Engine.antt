-- ===== src/Engine.antt =====
-- release-gate/src/release_gate/engine.py: the schedule of a gate run and its decision. Running one
-- control, `_execute_control`, is a parameter.
pub mod Records
pub mod Schedule
pub mod Gate
pub mod Coverage
pub mod Slots
pub mod Decisions
pub mod Codes
pub mod Unpopped
mod Tests
