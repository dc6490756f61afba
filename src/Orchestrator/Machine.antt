-- ===== src/Orchestrator/Machine.antt =====
-- A9-orchestrator/src/ai_engineering_orchestrator/state_machine.py: the transitions of a run.
use blindspot_remediation.Prelude.{
  ℕ, String, Bool, true, false, Option, [], ◌∷◌, ◌++◌, if◌then◌else◌,
}
use blindspot_remediation.Orchestrator.Models.{RunState, OrchestrationRun}
use blindspot_remediation.Orchestrator.Actions.{
  Ports, Action, exception, pure, raise, ◌>>=◌, clock, get_run,
}

-- `to_state in ALLOWED_TRANSITIONS[from_state]`
abbrev pub is_allowed : RunState → RunState → Bool
is_allowed RunState.created RunState.validating = true
is_allowed RunState.created RunState.cancelled = true
is_allowed RunState.validating RunState.ready = true
is_allowed RunState.validating RunState.failed_validation = true
is_allowed RunState.validating RunState.cancelled = true
is_allowed RunState.ready RunState.executing_change = true
is_allowed RunState.ready RunState.cancelled = true
is_allowed RunState.executing_change RunState.candidate_available = true
is_allowed RunState.executing_change RunState.change_failed = true
is_allowed RunState.executing_change RunState.budget_exceeded = true
is_allowed RunState.executing_change RunState.pipeline_error = true
is_allowed RunState.executing_change RunState.cancelled = true
is_allowed RunState.candidate_available RunState.gating = true
is_allowed RunState.candidate_available RunState.cancelled = true
is_allowed RunState.gating RunState.ready_for_release = true
is_allowed RunState.gating RunState.gate_failed = true
is_allowed RunState.gating RunState.more_evidence = true
is_allowed RunState.gating RunState.human_review_required = true
is_allowed RunState.gating RunState.budget_exceeded = true
is_allowed RunState.gating RunState.pipeline_error = true
is_allowed RunState.gating RunState.cancelled = true
is_allowed RunState.more_evidence RunState.gating = true
is_allowed RunState.more_evidence RunState.human_review_required = true
is_allowed RunState.more_evidence RunState.gate_failed = true
is_allowed RunState.more_evidence RunState.budget_exceeded = true
is_allowed RunState.more_evidence RunState.pipeline_error = true
is_allowed RunState.more_evidence RunState.cancelled = true
is_allowed RunState.ready_for_release RunState.released = true
is_allowed RunState.ready_for_release RunState.pipeline_error = true
is_allowed RunState.ready_for_release RunState.cancelled = true
is_allowed _ _ = false

-- `state in TERMINAL_STATES`
abbrev pub is_terminal : RunState → Bool
is_terminal RunState.failed_validation = true
is_terminal RunState.change_failed = true
is_terminal RunState.gate_failed = true
is_terminal RunState.human_review_required = true
is_terminal RunState.released = true
is_terminal RunState.budget_exceeded = true
is_terminal RunState.pipeline_error = true
is_terminal RunState.cancelled = true
is_terminal _ = false

-- The run after an allowed transition at the time `now`.
abbrev pub moved : RunState → String → Option String → ℕ → OrchestrationRun → OrchestrationRun
moved to_state reason evidence_reference now run = record run {
  state = to_state;
  updated_at = now;
  transitions =
      run.transitions
      ++ record {
        from_state = run.state;
        to_state = to_state;
        timestamp = now;
        reason = reason;
        evidence_reference = evidence_reference;
      }
        ∷ [];
}

-- `OrchestrationStateMachine.transition` of the current run.
unfoldable pub transition :
    {W : Type 0} → Ports W → RunState → String → Option String → Action W OrchestrationRun
transition ports to_state reason evidence_reference = do
  run ← get_run
  if is_allowed run.state to_state
      then (clock ports >>= λ now. pure (moved to_state reason evidence_reference now run))
      else raise (exception "InvalidStateTransitionError")
