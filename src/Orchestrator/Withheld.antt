-- ===== src/Orchestrator/Withheld.antt =====
-- The release port of a run whose definition forbids automatic releases.
use blindspot_remediation.Prelude.{
  ℕ, zero, suc, String, false, not, if◌then◌else◌, Option, none, some, ◌≡◌, refl, ap,
}
use blindspot_remediation.Orchestrator.Models.{
  TaskRequest, TaskDefinition, CandidatePatch, ChangeExecutionResult, RunOutcome, RunState,
}
use blindspot_remediation.Orchestrator.Budgets.{validate}
use blindspot_remediation.Orchestrator.Actions.{
  Result, Action, Ports, resume, pure, ◌>>=◌, ◌>>◌, get_run, call, add_evidence,
}
use blindspot_remediation.Orchestrator.Service.{
  transition_and_record, transition_then_record, outcome, validate_task,
}
use blindspot_remediation.Orchestrator.Execution.{
  use_execution, check_budget, keep_candidate, change_failed, with_candidate, on_execution,
  after_round, gate_round, gate_loop, run_body,
}
use blindspot_remediation.Orchestrator.Handlers.{
  try_with, handle, created, on_over_budget, on_exception, run_with,
}

module _ {W : Type 0} (ports : Ports W)
    (release : String → TaskRequest → CandidatePatch → W → Result String × W)
    (task : TaskRequest) where
  abbrev other : Ports W
  other = record ports { release = release }

  abbrev withheld : TaskDefinition → TaskDefinition
  withheld definition = record definition { automatic_release_allowed = false }

  same_loop :
      (definition : TaskDefinition) (fuel : ℕ) (candidate : CandidatePatch)
      → gate_loop ports (withheld definition) task fuel candidate
        ≡ gate_loop other (withheld definition) task fuel candidate
  unfolding gate_loop outcome transition_then_record transition_and_record validate
  same_loop definition zero candidate = refl
  same_loop definition (suc fuel) candidate =
      ap
        (λ again cycle s.
          resume (after_round ports (withheld definition) task again)
            (gate_round ports (withheld definition) task candidate cycle s))
        (same_loop definition fuel candidate)

  same_candidate :
      (definition : TaskDefinition) (candidate : Option CandidatePatch)
      → with_candidate ports (withheld definition) task candidate
        ≡ with_candidate other (withheld definition) task candidate
  unfolding transition_and_record
  same_candidate definition none = refl
  same_candidate definition (some candidate) =
      ap
        (λ loop. do
          keep_candidate ports (withheld definition) task candidate
          add_evidence candidate.evidence_reference
          transition_and_record ports RunState.candidate_available "Candidate patch produced."
              (some candidate.evidence_reference)
          loop 0)
        (same_loop definition (suc definition.maximum_more_evidence_cycles) candidate)

  same_execution :
      (definition : TaskDefinition) (result : ChangeExecutionResult)
      → on_execution ports (withheld definition) task result
        ≡ on_execution other (withheld definition) task result
  unfolding transition_and_record outcome validate
  same_execution definition result =
      ap
        (λ rest. do
          use_execution ports (withheld definition) task result
          check_budget ports (withheld definition) task
          if not result.succeeded
              then (change_failed ports (withheld definition) task result >>= λ made.
                  pure (some made))
              else rest)
        (same_candidate definition result.candidate)

  same_body :
      (definition : TaskDefinition)
      → run_body ports (withheld definition) task ≡ run_body other (withheld definition) task
  unfolding run_body transition_and_record validate
  same_body definition =
      ap
        (λ (rest : ChangeExecutionResult → Action W (Option RunOutcome)). do
          transition_and_record ports RunState.validating "Task definition resolved." none
          validate_task ports task definition.allowed_repository_patterns
          transition_and_record ports RunState.ready "Task validation completed." none
          check_budget ports (withheld definition) task
          transition_and_record ports RunState.executing_change "Invoking ChangeExecutionService."
              none
          run ← get_run
          result ← call (ports.execute run.run_id task (withheld definition))
          rest result)
        (λ i result. same_execution definition result i)

  same_run :
      (definition : TaskDefinition) (run_id : String) (w : W)
      → run_with ports (withheld definition) run_id task w
        ≡ run_with other (withheld definition) run_id task w
  unfolding run_with on_over_budget on_exception transition_then_record outcome
  same_run definition run_id w =
      ap (λ body. try_with body (handle ports) (created ports run_id task (withheld definition) w))
        (same_body definition)

-- When the definition forbids automatic releases, a call of `run` does not depend on the release
-- port: it returns the same and leaves the same state whatever that port would do.
pub run_with-withheld :
    {W : Type 0} (ports : Ports W)
    (release : String → TaskRequest → CandidatePatch → W → Result String × W) (task : TaskRequest)
    (definition : TaskDefinition) (run_id : String) (w : W)
    → definition.automatic_release_allowed ≡ false
    → run_with ports definition run_id task w
      ≡ run_with (record ports { release = release }) definition run_id task w
run_with-withheld ports release task definition run_id w e =
    rw e (same_run ports release task definition run_id w)
