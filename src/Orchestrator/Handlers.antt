-- ===== src/Orchestrator/Handlers.antt =====
-- A9-orchestrator/src/ai_engineering_orchestrator/service.py: the handlers of `run`, and the whole
-- call. An exception of a handler leaves the call.
use blindspot_remediation.Prelude.{String, Option, none, some, List, [], ◌∷◌, if◌then◌else◌}
use Prim.Native.String.{◌++◌}
use blindspot_remediation.Orchestrator.Models.{
  RunState, FinalDisposition, TaskRequest, TaskDefinition, RunOutcome, no_usage,
}
use blindspot_remediation.Orchestrator.Machine.{is_terminal}
use blindspot_remediation.Orchestrator.Registry.{RegistryError, Resolved, found, refused, resolve}
use blindspot_remediation.Orchestrator.Actions.{
  Failure, over_budget, exception, Result, ok, err, Ports, Action, State, pure, ◌>>=◌, ◌>>◌,
  get_run, add_reasons,
}
use blindspot_remediation.Orchestrator.Service.{transition_then_record, outcome}
use blindspot_remediation.Orchestrator.Execution.{run_body}

abbrev pub recover :
    {W A : Type 0} → (Failure → Action W A) → Result A × State W → Result A × State W
recover handler (ok a, s) = (ok a, s)
recover handler (err e, s) = handler e s

-- `try: m` with handlers
abbrev pub try_with : {W A : Type 0} → Action W A → (Failure → Action W A) → Action W A
try_with m handler s = recover handler (m s)

module _ {W : Type 0} (ports : Ports W) where
  abbrev pub unless_terminal : Action W (Unit {0}) → Action W (Unit {0})
  unless_terminal m = do run ← get_run; if is_terminal run.state then pure tt else m

  -- `except BudgetExceededError`
  unfoldable pub on_over_budget : String → Action W RunOutcome
  on_over_budget text = do
    add_reasons ("RESOURCE_BUDGET_EXCEEDED" ∷ [])
    unless_terminal (transition_then_record ports RunState.budget_exceeded text)
    outcome ports FinalDisposition.budget_exceeded

  -- `try: … except Exception: pass`
  abbrev pub ignoring : Action W (Unit {0}) → Action W (Unit {0})
  ignoring m = try_with m (λ _. pure tt)

  -- `except Exception`
  unfoldable pub on_exception : String → Action W RunOutcome
  on_exception name = do
    add_reasons (("PIPELINE_EXCEPTION:" ++ name) ∷ [])
    unless_terminal (
        ignoring (
          transition_then_record ports RunState.pipeline_error
            ("Unexpected orchestration failure: " ++ name)))
    outcome ports FinalDisposition.pipeline_error

  abbrev pub handle : Failure → Action W (Option RunOutcome)
  handle (over_budget text) = on_over_budget text >>= λ made. pure (some made)
  handle (exception name) = on_exception name >>= λ made. pure (some made)

  -- The run that `run` makes, and the locals beside it.
  abbrev pub created : String → TaskRequest → TaskDefinition → W → State W
  created run_id task definition w =
      let (now, w') = ports.now w in
      record {
        run = record {
          run_id = run_id;
          task = task;
          task_definition_version = definition.definition_version;
          state = RunState.created;
          started_at = now;
          updated_at = now;
          usage = no_usage;
          candidate = none;
          transitions = [];
        };
        evidence_references = [];
        reason_codes = [];
        world = w';
      }

  -- `run` with the definition that was resolved.
  unfoldable pub run_with :
      TaskDefinition → String → TaskRequest → W → Result (Option RunOutcome) × State W
  unfolding run_body on_over_budget on_exception
  run_with definition run_id task w =
      try_with (run_body ports definition task) handle (created run_id task definition w)

  abbrev error_name : RegistryError → String
  error_name RegistryError.task_definition = "TaskDefinitionError"
  error_name RegistryError.unsupported_task_type = "UnsupportedTaskTypeError"

  abbrev run_resolved :
      Resolved TaskDefinition → String → TaskRequest → W → Result (Option RunOutcome) × W
  run_resolved (found definition) run_id task w =
      let (r, s) = run_with definition run_id task w in (r, s.world)
  run_resolved (refused error) run_id task w = (err (exception (error_name error)), w)

  -- `run`
  unfoldable pub run :
      Option (List (Option TaskDefinition))
      → String
      → TaskRequest
      → W
      → Result (Option RunOutcome) × W
  unfolding run_with resolve
  run files run_id task w = run_resolved (resolve files task.task_type) run_id task w
