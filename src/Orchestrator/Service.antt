-- ===== src/Orchestrator/Service.antt =====
-- A9-orchestrator/src/ai_engineering_orchestrator/service.py: the steps of a run and its outcome.
use blindspot_remediation.Prelude.{
  ℕ, ◌+◌, String, Option, none, some, List, [], ◌∷◌, ◌++◌, any, contains, from_keys, if◌then◌else◌,
  ◌==◌,
}
use blindspot_remediation.Orchestrator.Models.{
  RunState, FinalDisposition, TaskRequest, CandidatePatch, UsageLedger, OrchestrationRun,
  RunOutcome,
}
use blindspot_remediation.Orchestrator.Machine.{transition}
use blindspot_remediation.Orchestrator.Actions.{
  Ports, Action, State, ok, exception, pure, raise, ◌>>=◌, ◌>>◌, call, clock, get_run, set_run,
  add_evidence,
}

-- `_add_execution_usage`
abbrev pub add_execution_usage : UsageLedger → ℕ → ℕ → ℕ → UsageLedger
add_execution_usage usage input_tokens output_tokens requests = record usage {
  input_tokens = usage.input_tokens + input_tokens;
  output_tokens = usage.output_tokens + output_tokens;
  llm_requests = usage.llm_requests + requests;
  execution_attempts = usage.execution_attempts + 1;
}

-- `_add_gate_usage`
abbrev pub add_gate_usage : UsageLedger → ℕ → ℕ → ℕ → UsageLedger
add_gate_usage usage input_tokens output_tokens requests = record usage {
  input_tokens = usage.input_tokens + input_tokens;
  output_tokens = usage.output_tokens + output_tokens;
  llm_requests = usage.llm_requests + requests;
  gate_attempts = usage.gate_attempts + 1;
}

-- `text or default`
abbrev pub text_or : Option String → String → String
text_or none default = default
text_or (some text) default = if text == "" then default else text

abbrev candidate_id_of : Option CandidatePatch → Option String
candidate_id_of none = none
candidate_id_of (some candidate) = some candidate.candidate_id

-- The outcome of a run as `_outcome` makes it, before it is recorded.
abbrev pub outcome_of :
    OrchestrationRun → FinalDisposition → ℕ → List String → List String → RunOutcome
outcome_of run disposition completed_at evidence_references reason_codes = record {
  run_id = run.run_id;
  task_id = run.task.task_id;
  task_type = run.task.task_type;
  final_state = run.state;
  disposition = disposition;
  candidate_id = candidate_id_of run.candidate;
  started_at = run.started_at;
  completed_at = completed_at;
  usage = run.usage;
  evidence_references = from_keys evidence_references;
  reason_codes = from_keys reason_codes;
}

-- The outcome with the reference of its record.
abbrev pub referenced : RunOutcome → String → RunOutcome
referenced made reference = record made {
  evidence_references = made.evidence_references ++ reference ∷ [];
}

module _ {W : Type 0} (ports : Ports W) where
  abbrev record_current : Action W (Unit {0})
  record_current = do run ← get_run; reference ← call (ports.record_run run); add_evidence reference

  -- `_transition_and_record`: the run is replaced only when it was recorded.
  unfoldable pub transition_and_record : RunState → String → Option String → Action W (Unit {0})
  unfolding transition
  transition_and_record state reason evidence_reference = do
    updated ← transition ports state reason evidence_reference
    reference ← call (ports.record_run updated)
    add_evidence reference
    set_run updated

  -- The transition that a handler makes: the run is replaced before it is recorded.
  unfoldable pub transition_then_record : RunState → String → Action W (Unit {0})
  unfolding transition
  transition_then_record state reason = do
    updated ← transition ports state reason none
    set_run updated
    record_current

  -- `_validate_task_against_definition`
  abbrev pub validate_task : TaskRequest → List String → Action W (Unit {0})
  validate_task task allowed_patterns =
      if any (λ pattern. contains pattern task.repository_uri) allowed_patterns
      then pure tt
      else raise (exception "OrchestratorError")

  abbrev locals : Action W (State W)
  locals s = (ok s, s)

  -- `_outcome`
  unfoldable pub outcome : FinalDisposition → Action W RunOutcome
  outcome disposition = do
    s ← locals
    completed_at ← clock ports
    let made = outcome_of s.run disposition completed_at s.evidence_references s.reason_codes in
        (call (ports.record_outcome made) >>= λ reference. pure (referenced made reference))

  -- A transition, and the outcome that is returned after it.
  abbrev pub finish : RunState → String → Option String → FinalDisposition → Action W RunOutcome
  finish state reason evidence_reference disposition =
      transition_and_record state reason evidence_reference >> outcome disposition
