-- ===== src/Assertions.antt =====
-- release-gate/src/release_gate/assertions.py: the outcome of an assertion.
pub mod Pointers
pub mod Evaluation
pub mod Outcomes
pub mod Escapes
pub mod Tests
use blindspot_remediation.Prelude.{String, List}
use blindspot_remediation.Config.{Scalar}

pub data AssertionState : Type 0 where
  pass fail error : AssertionState

pub record AssertionOutcome (N : Type 0) : Type 0 where
  pub state : AssertionState
  pub actual : Scalar N
  pub reason_codes : List String
