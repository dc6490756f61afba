-- ===== src/Release/Models.antt =====
-- A3-release-gate-service/src/ai_engineering_release_gate/models.py, and the controls of
-- A1-shared-contracts/src/ai_engineering_contracts: what the policy of the service reads. `F` is the
-- type of Python's floats.
use blindspot_remediation.Prelude.{String, Bool, List}

pub data GateDecision : Type 0 where
  pass fail human_review_required more_evidence_required : GateDecision

pub data CheckStatus : Type 0 where
  passed failed warning skipped error not_applicable : CheckStatus

pub data ControlSeverity : Type 0 where
  informational advisory mandatory dominant_failure : ControlSeverity

pub record ControlResult : Type 0 where
  pub control_id : String
  pub status : CheckStatus
  pub severity : ControlSeverity
  pub reasons : List String

pub data ComparisonOperator : Type 0 where
  greater_than greater_than_or_equal less_than less_than_or_equal equal not_equal :
      ComparisonOperator

pub data MissingMetricAction : Type 0 where
  missing_fail missing_human_review missing_more_evidence : MissingMetricAction

pub record MetricThreshold (F : Type 0) : Type 0 where
  pub threshold_id : String
  pub metric : String
  pub operator : ComparisonOperator
  pub expected_value : F
  pub failure_decision : GateDecision
  pub missing_metric_action : MissingMetricAction
  pub description : String

pub record ReleasePolicy (F : Type 0) : Type 0 where
  pub fail_on_mandatory_control_failure : Bool
  pub fail_on_dominant_failure : Bool
  pub human_review_on_advisory_failure : Bool
  pub human_review_on_warning : Bool
  pub more_evidence_on_skipped_mandatory_control : Bool
  pub metric_thresholds : List (MetricThreshold F)
