-- ===== src/Orchestrator/Models.antt =====
-- A9-orchestrator/src/ai_engineering_orchestrator/models.py: the contracts of a run. A time is a
-- number of microseconds. The lengths and the signs that pydantic validates are left out.
use blindspot_remediation.Prelude.{ℕ, String, Bool, Option, List}

pub data RunState : Type 0 where
  created validating ready executing_change candidate_available gating more_evidence : RunState
  ready_for_release human_review_required released : RunState
  failed_validation change_failed gate_failed budget_exceeded pipeline_error cancelled : RunState

pub data GateDisposition : Type 0 where
  pass fail human_review_required more_evidence_required : GateDisposition

pub data FinalDisposition : Type 0 where
  released rejected human_review_required budget_exceeded pipeline_error cancelled :
      FinalDisposition

pub record TaskRequest : Type 0 where
  pub task_id : String
  pub task_type : String
  pub title : String
  pub description : String
  pub repository_uri : String
  pub base_revision : String
  pub requested_by : String
  pub created_at : ℕ
  pub metadata : List (String × String)

pub record ResourceBudget : Type 0 where
  pub maximum_execution_attempts : ℕ
  pub maximum_gate_attempts : ℕ
  pub maximum_total_llm_input_tokens : ℕ
  pub maximum_total_llm_output_tokens : ℕ
  pub maximum_total_llm_requests : ℕ
  pub maximum_elapsed_seconds : ℕ

pub record TaskDefinition : Type 0 where
  pub task_type : String
  pub definition_version : String
  pub enabled : Bool
  pub skill_reference : String
  pub change_execution_profile : String
  pub release_gate_profile : String
  pub required_evidence_types : List String
  pub allowed_repository_patterns : List String
  pub budget : ResourceBudget
  pub maximum_more_evidence_cycles : ℕ
  pub automatic_release_allowed : Bool

pub record CandidatePatch : Type 0 where
  pub candidate_id : String
  pub task_id : String
  pub run_id : String
  pub base_revision : String
  pub candidate_revision : String
  pub evidence_reference : String
  pub created_at : ℕ

pub record ChangeExecutionResult : Type 0 where
  pub succeeded : Bool
  pub candidate : Option CandidatePatch
  pub input_tokens : ℕ
  pub output_tokens : ℕ
  pub llm_requests : ℕ
  pub failure_code : Option String
  pub failure_message : Option String

pub record ReleaseGateResult : Type 0 where
  pub disposition : GateDisposition
  pub evidence_reference : String
  pub input_tokens : ℕ
  pub output_tokens : ℕ
  pub llm_requests : ℕ
  pub reason_codes : List String
  pub requested_evidence_types : List String

pub record UsageLedger : Type 0 where
  pub input_tokens : ℕ
  pub output_tokens : ℕ
  pub llm_requests : ℕ
  pub execution_attempts : ℕ
  pub gate_attempts : ℕ
  pub more_evidence_cycles : ℕ

-- `UsageLedger()`
abbrev pub no_usage : UsageLedger
no_usage = record {
  input_tokens = 0;
  output_tokens = 0;
  llm_requests = 0;
  execution_attempts = 0;
  gate_attempts = 0;
  more_evidence_cycles = 0;
}

pub record StateTransition : Type 0 where
  pub from_state : RunState
  pub to_state : RunState
  pub timestamp : ℕ
  pub reason : String
  pub evidence_reference : Option String

pub record OrchestrationRun : Type 0 where
  pub run_id : String
  pub task : TaskRequest
  pub task_definition_version : String
  pub state : RunState
  pub started_at : ℕ
  pub updated_at : ℕ
  pub usage : UsageLedger
  pub candidate : Option CandidatePatch
  pub transitions : List StateTransition

pub record RunOutcome : Type 0 where
  pub run_id : String
  pub task_id : String
  pub task_type : String
  pub final_state : RunState
  pub disposition : FinalDisposition
  pub candidate_id : Option String
  pub started_at : ℕ
  pub completed_at : ℕ
  pub usage : UsageLedger
  pub evidence_references : List String
  pub reason_codes : List String
