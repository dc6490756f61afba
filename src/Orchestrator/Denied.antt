-- ===== src/Orchestrator/Denied.antt =====
-- A run whose repository the definition does not permit, and the handler of a budget that is exceeded
-- where no transition to BUDGET_EXCEEDED is allowed.
use blindspot_remediation.Prelude.{
  String, Bool, true, false, Option, none, some, any, contains, ◌≡◌, refl, arith,
}
use blindspot_remediation.Orchestrator.Models.{
  RunState, FinalDisposition, TaskRequest, TaskDefinition, OrchestrationRun, RunOutcome,
}
use blindspot_remediation.Orchestrator.Machine.{is_allowed, is_terminal, transition}
use blindspot_remediation.Orchestrator.Actions.{
  Failure, over_budget, exception, ok, err, Ports, State,
}
use blindspot_remediation.Orchestrator.Service.{
  transition_and_record, transition_then_record, outcome_of, referenced, outcome,
}
use blindspot_remediation.Orchestrator.Execution.{run_body}
use blindspot_remediation.Orchestrator.Handlers.{
  on_over_budget, on_exception, handle, created, run_with,
}
use blindspot_remediation.Orchestrator.Triples.{Holds, returned, raised, bind, branch, call-Holds}
use blindspot_remediation.Orchestrator.Runs.{recover-Holds}
use blindspot_remediation.Orchestrator.Outcomes.{Holds-value}

-- The states before the task was accepted.
abbrev is_early : RunState → Bool
is_early RunState.created = true
is_early RunState.validating = true
is_early _ = false

abbrev Early : OrchestrationRun → Type 0
Early run = is_early run.state ≡ true

abbrev Anything : OrchestrationRun → Type 0
Anything run = Unit

-- A returned outcome of a run that is still early.
abbrev Undecided : RunOutcome → OrchestrationRun → Type 0
Undecided made run = is_early made.final_state ≡ true

-- Neither state that a handler moves to can be reached from an early one.
is_early-is_allowed :
    (state : RunState)
    → is_early state ≡ true
    → (is_allowed state RunState.budget_exceeded ≡ false)
      × (is_allowed state RunState.pipeline_error ≡ false)
      × (is_terminal state ≡ false)
is_early-is_allowed state e = ground arith

-- The outcome or the `none` of a loop, for an outcome that is undecided.
abbrev UndecidedEnd : Option RunOutcome → OrchestrationRun → Type 0
UndecidedEnd none run = Unit
UndecidedEnd (some made) run = Undecided made run

module _ {W : Type 0} (ports : Ports W) where
  -- The handler of an exceeded budget, in a state that is not terminal and from which
  -- BUDGET_EXCEEDED cannot be reached.
  pub on_over_budget-escapes :
      (text : String) (s : State W)
      → is_terminal s.run.state ≡ false
      → is_allowed s.run.state RunState.budget_exceeded ≡ false
      → ((on_over_budget ports text s).0 ≡ err (exception "InvalidStateTransitionError"))
        × ((on_over_budget ports text s).1.run ≡ s.run)
  unfolding on_over_budget transition_then_record transition
  on_over_budget-escapes text s running e = rw (running, e) (refl, refl)

  transition-Early :
      (reason : String) (s : State W)
      → Early s.run
      → Holds (λ _. Early) Early (transition_and_record ports RunState.validating reason none s)
  unfolding transition_and_record transition
  transition-Early reason s e =
      bind {Q = λ updated run. Early updated × Early run}
        (branch (is_allowed s.run.state RunState.validating) _ _ s
          (λ allowed. returned _ _ (refl, e)) (λ _. raised _ s e))
        (λ updated s1 h.
          bind (call-Holds Early (ports.record_run updated) s1 h.1 h.1)
            (λ _ s2 _. returned tt _ h.0))

  run_body-Early :
      (definition : TaskDefinition) (task : TaskRequest) (s : State W)
      → any (λ pattern. contains pattern task.repository_uri) definition.allowed_repository_patterns
        ≡ false
      → Early s.run
      → Holds UndecidedEnd Early (run_body ports definition task s)
  unfolding run_body
  run_body-Early definition task s denied e =
      bind (transition-Early _ s e) (λ _ s1 h. rw denied (raised _ s1 h))

  outcome-Early :
      (disposition : FinalDisposition) (s : State W)
      → Early s.run
      → Holds Undecided Early (outcome ports disposition s)
  unfolding outcome
  outcome-Early disposition s e =
      bind (call-Holds (λ _. Early s.run) (ports.record_outcome made) _ e e)
        (λ reference s' h. returned (referenced made reference) s' h)
    where
      made : RunOutcome
      made = outcome_of s.run disposition (ports.now s.world).0 s.evidence_references s.reason_codes

  handle-Early :
      (e : Failure) (s : State W) → Early s.run → Holds UndecidedEnd Early (handle ports e s)
  unfolding on_over_budget on_exception transition_then_record transition
  handle-Early (over_budget text) s h =
      let (budget, pipeline, running) = is_early-is_allowed s.run.state h in
      rw (running, budget) (raised _ _ h)
  handle-Early (exception name) s h =
      let (budget, pipeline, running) = is_early-is_allowed s.run.state h in
      rw (running, pipeline)
        (bind (outcome-Early FinalDisposition.pipeline_error _ h)
          (λ made s' u. returned (some made) s' u))

  -- When no pattern of the definition occurs in the repository's address, an outcome that is
  -- returned has a final state that is not terminal.
  pub run_with-denied :
      (definition : TaskDefinition) (run_id : String) (task : TaskRequest) (w : W)
      (made : RunOutcome)
      → any (λ pattern. contains pattern task.repository_uri) definition.allowed_repository_patterns
        ≡ false
      → (run_with ports definition run_id task w).0 ≡ ok (some made)
      → is_terminal made.final_state ≡ false
  unfolding run_with
  run_with-denied definition run_id task w made denied e =
      (is_early-is_allowed made.final_state (
        Holds-value (some made)
          (recover-Holds
            (run_body-Early definition task (created ports run_id task definition w) denied refl)
            handle-Early)
          e)).2
