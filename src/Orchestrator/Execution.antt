-- ===== src/Orchestrator/Execution.antt =====
-- A9-orchestrator/src/ai_engineering_orchestrator/service.py: `EngineeringAutomationOrchestrator.run`,
-- from the validation of the task to the outcome, the loop over the gate and the handlers.
use blindspot_remediation.Prelude.{
  ℕ, zero, suc, ◌+◌, not, Option, none, some, [], ◌∷◌, ltb, if◌then◌else◌,
}
use blindspot_remediation.Orchestrator.Models.{
  RunState, GateDisposition, FinalDisposition, TaskRequest, TaskDefinition, CandidatePatch,
  ChangeExecutionResult, ReleaseGateResult, RunOutcome,
}
use blindspot_remediation.Orchestrator.Budgets.{validate}
use blindspot_remediation.Orchestrator.Actions.{
  exception, Ports, Action, pure, raise, ◌>>=◌, ◌>>◌, call, get_run, set_run, add_evidence,
  add_reasons,
}
use blindspot_remediation.Orchestrator.Service.{
  add_execution_usage, add_gate_usage, text_or, transition_and_record, transition_then_record,
  validate_task, finish, outcome,
}

-- How one pass of the loop ends: a `return`, or a `continue` with the next `evidence_cycle`.
pub data Round : Type 0 where
  ended : RunOutcome → Round
  continued : ℕ → Round

module _ {W : Type 0} (ports : Ports W) (definition : TaskDefinition) (task : TaskRequest) where
  abbrev pub check_budget : Action W (Unit {0})
  check_budget = validate ports definition.budget

  abbrev pub use_execution : ChangeExecutionResult → Action W (Unit {0})
  use_execution result = do
    run ← get_run
    set_run (record run {
      usage =
          add_execution_usage run.usage result.input_tokens result.output_tokens
            result.llm_requests;
    })

  abbrev use_gate : ReleaseGateResult → Action W (Unit {0})
  use_gate result = do
    run ← get_run
    set_run (record run {
      usage = add_gate_usage run.usage result.input_tokens result.output_tokens result.llm_requests;
    })

  abbrev count_cycle : ℕ → Action W (Unit {0})
  count_cycle evidence_cycle = do
    run ← get_run
    set_run (record run { usage = record run.usage { more_evidence_cycles = evidence_cycle } })

  abbrev pub keep_candidate : CandidatePatch → Action W (Unit {0})
  keep_candidate candidate = do run ← get_run; set_run (record run { candidate = some candidate })

  -- The gate passed, and the definition forbids an automatic release.
  abbrev pub withhold : Action W RunOutcome
  withhold = do
    add_reasons ("AUTOMATIC_RELEASE_NOT_ALLOWED" ∷ [])
    transition_then_record ports RunState.pipeline_error
        "Gate passed but automatic release is disabled for this task definition."
    outcome ports FinalDisposition.pipeline_error

  abbrev pub deploy : CandidatePatch → Action W RunOutcome
  deploy candidate = do
    run ← get_run
    deployment_reference ← call (ports.release run.run_id task candidate)
    add_evidence deployment_reference
    finish ports RunState.released "Candidate released through approved release port."
        (some deployment_reference) FinalDisposition.released

  abbrev pub on_pass : CandidatePatch → ReleaseGateResult → Action W RunOutcome
  on_pass candidate result = do
    transition_and_record ports RunState.ready_for_release "Release gate passed."
        (some result.evidence_reference)
    if not definition.automatic_release_allowed then withhold else deploy candidate

  abbrev pub exhausted : ReleaseGateResult → Action W RunOutcome
  exhausted result = do
    add_reasons ("MORE_EVIDENCE_LIMIT_REACHED" ∷ [])
    finish ports RunState.human_review_required "Maximum additional-evidence cycles were exhausted."
        (some result.evidence_reference) FinalDisposition.human_review_required

  abbrev pub more_evidence : ℕ → ReleaseGateResult → Action W (Unit {0})
  more_evidence evidence_cycle result = do
    count_cycle evidence_cycle
    transition_and_record ports RunState.more_evidence
        "Release gate requested an additional evidence cycle." (some result.evidence_reference)

  abbrev ends : Action W RunOutcome → Action W Round
  ends m = m >>= λ made. pure (ended made)

  -- The branches on the disposition of the gate.
  abbrev pub on_disposition :
      CandidatePatch → ℕ → ReleaseGateResult → GateDisposition → Action W Round
  on_disposition candidate evidence_cycle result GateDisposition.pass =
      ends (on_pass candidate result)
  on_disposition candidate evidence_cycle result GateDisposition.fail = ends (
      finish ports RunState.gate_failed "Release gate rejected candidate."
        (some result.evidence_reference) FinalDisposition.rejected)
  on_disposition candidate evidence_cycle result GateDisposition.human_review_required = ends (
      finish ports RunState.human_review_required "Release gate requested external human review."
        (some result.evidence_reference) FinalDisposition.human_review_required)
  on_disposition candidate evidence_cycle result GateDisposition.more_evidence_required =
      if ltb definition.maximum_more_evidence_cycles (evidence_cycle + 1)
      then ends (exhausted result)
      else more_evidence (evidence_cycle + 1) result >> pure (continued (evidence_cycle + 1))

  abbrev pub on_result : CandidatePatch → ℕ → ReleaseGateResult → Action W Round
  on_result candidate evidence_cycle result = do
    use_gate result
    add_evidence result.evidence_reference
    add_reasons result.reason_codes
    check_budget
    on_disposition candidate evidence_cycle result result.disposition

  -- The body of `while True`.
  unfoldable pub gate_round : CandidatePatch → ℕ → Action W Round
  gate_round candidate evidence_cycle = do
    check_budget
    transition_and_record ports RunState.gating "Invoking ReleaseGateService." none
    run ← get_run
    result ← call (ports.evaluate run.run_id task candidate definition evidence_cycle)
    on_result candidate evidence_cycle result

  -- A `return` out of the loop, or the next pass.
  abbrev pub after_round : (ℕ → Action W (Option RunOutcome)) → Round → Action W (Option RunOutcome)
  after_round again (ended made) = pure (some made)
  after_round again (continued next_cycle) = again next_cycle

  -- `while True`, for at most `fuel` passes; `none` is a loop that has not ended by then.
  unfoldable pub gate_loop : ℕ → CandidatePatch → ℕ → Action W (Option RunOutcome)
  unfolding gate_round
  gate_loop zero candidate evidence_cycle = pure none
  gate_loop (suc fuel) candidate evidence_cycle =
      gate_round candidate evidence_cycle
      >>= after_round (λ next_cycle. gate_loop fuel candidate next_cycle)

  abbrev pub change_failed : ChangeExecutionResult → Action W RunOutcome
  change_failed result = do
    add_reasons (text_or result.failure_code "CHANGE_EXECUTION_FAILED" ∷ [])
    finish ports RunState.change_failed (text_or result.failure_message "Change execution failed.")
        none FinalDisposition.rejected

  abbrev pub gate_candidate : CandidatePatch → Action W (Option RunOutcome)
  gate_candidate candidate = do
    keep_candidate candidate
    add_evidence candidate.evidence_reference
    transition_and_record ports RunState.candidate_available "Candidate patch produced."
        (some candidate.evidence_reference)
    gate_loop (suc definition.maximum_more_evidence_cycles) candidate 0

  abbrev pub with_candidate : Option CandidatePatch → Action W (Option RunOutcome)
  with_candidate none = raise (exception "OrchestratorError")
  with_candidate (some candidate) = gate_candidate candidate

  abbrev pub on_execution : ChangeExecutionResult → Action W (Option RunOutcome)
  on_execution result = do
    use_execution result
    check_budget
    if not result.succeeded
        then (change_failed result >>= λ made. pure (some made))
        else with_candidate result.candidate

  -- The body of the `try`.
  unfoldable pub run_body : Action W (Option RunOutcome)
  unfolding gate_loop
  run_body = do
    transition_and_record ports RunState.validating "Task definition resolved." none
    validate_task ports task definition.allowed_repository_patterns
    transition_and_record ports RunState.ready "Task validation completed." none
    check_budget
    transition_and_record ports RunState.executing_change "Invoking ChangeExecutionService." none
    run ← get_run
    result ← call (ports.execute run.run_id task definition)
    on_execution result
