-- ===== src/Orchestrator/Tests.antt =====
-- Runs of the control plane on sample ports, and the instances of the theorems on them.
use blindspot_remediation.Prelude.{
  ℕ, suc, zero, ◌≤◌, ◌+◌, true, false, Option, none, some, [], ◌∷◌, any, contains, from_keys, ◌≡◌,
  ◌≢◌, refl,
}
use blindspot_remediation.Orchestrator.Models.{
  RunState, GateDisposition, FinalDisposition, TaskRequest, TaskDefinition, CandidatePatch,
  ReleaseGateResult, RunOutcome,
}
use blindspot_remediation.Orchestrator.Machine.{is_terminal, transition}
use blindspot_remediation.Orchestrator.Budgets.{over_usage, validate}
use blindspot_remediation.Orchestrator.Registry.{found, load_all, resolve}
use blindspot_remediation.Orchestrator.Actions.{Result, ok, err, exception, Ports, State}
use blindspot_remediation.Orchestrator.Service.{
  transition_and_record, transition_then_record, outcome, outcome_of,
}
use blindspot_remediation.Orchestrator.Execution.{gate_round, gate_loop, run_body}
use blindspot_remediation.Orchestrator.Handlers.{on_exception, created, run_with}
use blindspot_remediation.Orchestrator.Trails.{Trail}
use blindspot_remediation.Orchestrator.Outcomes.{
  was_passed, run_with-Trail, run_with-ends, run_with-released,
}
use blindspot_remediation.Orchestrator.Meter.{unread, metered}
use blindspot_remediation.Orchestrator.Spending.{run_with-attempts}
use blindspot_remediation.Orchestrator.Late.{run_with-late}
use blindspot_remediation.Orchestrator.Withheld.{run_with-withheld}
use blindspot_remediation.Orchestrator.Denied.{run_with-denied}

abbrev task : TaskRequest
task = record {
  task_id = "task-1";
  task_type = "dependency-update";
  title = "Update";
  description = "Update one dependency.";
  repository_uri = "git@example.com:team/library.git";
  base_revision = "main";
  requested_by = "owner";
  created_at = 0;
  metadata = [];
}

abbrev definition : TaskDefinition
definition = record {
  task_type = "dependency-update";
  definition_version = "1";
  enabled = true;
  skill_reference = "skill";
  change_execution_profile = "default";
  release_gate_profile = "default";
  required_evidence_types = "tests" ∷ [];
  allowed_repository_patterns = "team/library" ∷ [];
  budget = record {
    maximum_execution_attempts = 2;
    maximum_gate_attempts = 3;
    maximum_total_llm_input_tokens = 100;
    maximum_total_llm_output_tokens = 100;
    maximum_total_llm_requests = 10;
    maximum_elapsed_seconds = 60;
  };
  maximum_more_evidence_cycles = 2;
  automatic_release_allowed = true;
}

abbrev sample_candidate : CandidatePatch
sample_candidate = record {
  candidate_id = "candidate-1";
  task_id = "task-1";
  run_id = "run-1";
  base_revision = "main";
  candidate_revision = "abc";
  evidence_reference = "evidence:candidate";
  created_at = 0;
}

abbrev gate_result : GateDisposition → ReleaseGateResult
gate_result disposition = record {
  disposition = disposition;
  evidence_reference = "evidence:gate";
  input_tokens = 5;
  output_tokens = 5;
  llm_requests = 1;
  reason_codes = "GATE" ∷ [];
  requested_evidence_types = [];
}

-- The gate asks for more evidence once, and then passes.
abbrev gate_answer : ℕ → ReleaseGateResult
gate_answer zero = gate_result GateDisposition.more_evidence_required
gate_answer (suc _) = gate_result GateDisposition.pass

-- The world is the clock, which moves on at each reading.
abbrev ports : Ports ℕ
ports = record {
  execute = λ run_id t d w. (
    ok (record {
      succeeded = true;
      candidate = some sample_candidate;
      input_tokens = 10;
      output_tokens = 10;
      llm_requests = 2;
      failure_code = none;
      failure_message = none;
    }),
    w,
  );
  evaluate = λ run_id t c d cycle w. (ok (gate_answer cycle), w);
  record_run = λ run w. (ok "evidence:run", w);
  record_outcome = λ made w. (ok "evidence:outcome", w);
  release = λ run_id t c w. (ok "deployment:1", w);
  now = λ w. (w, w + 1);
}

abbrev made_by : Result (Option RunOutcome) → RunOutcome
made_by (ok (some made)) = made
made_by _ =
    outcome_of (created ports "run-1" task definition 0).run FinalDisposition.cancelled 0 [] []

abbrev returned_outcome : RunOutcome
returned_outcome = made_by (run_with ports definition "run-1" task 0).0

run_returns : (run_with ports definition "run-1" task 0).0 ≡ ok (some returned_outcome)
unfolding run_with run_body gate_loop gate_round transition_and_record transition_then_record
    transition outcome validate over_usage contains from_keys
run_returns = refl

run_releases : returned_outcome.disposition ≡ FinalDisposition.released
unfolding run_with run_body gate_loop gate_round transition_and_record transition_then_record
    transition outcome validate over_usage contains from_keys
run_releases = refl

run_with-Trail_example :
    let run = (run_with ports definition "run-1" task 0).1.run in Trail run.transitions run.state
run_with-Trail_example = run_with-Trail ports definition "run-1" task 0

run_with-attempts_example :
    let s = (run_with (metered ports) definition "run-1" task (unread, 0)).1 in
    (s.world.0.executed ≤ 1)
    × (s.world.0.evaluated ≤ 3)
    × (s.run.usage.execution_attempts ≡ s.world.0.executions_returned)
    × (s.run.usage.gate_attempts ≡ s.world.0.evaluations_returned)
    × (s.run.usage.more_evidence_cycles ≤ 2)
run_with-attempts_example = run_with-attempts ports definition task "run-1" 0

-- The gate was called for its first answer and for the second.
meters_calls :
    (run_with (metered ports) definition "run-1" task (unread, 0)).1.world.0
    ≡ record { executed = 1; executions_returned = 1; evaluated = 2; evaluations_returned = 2 }
unfolding run_with run_body gate_loop gate_round transition_and_record transition_then_record
    transition outcome validate over_usage contains from_keys
meters_calls = refl

run_with-ends_example : (run_with ports definition "run-1" task 0).0 ≢ ok none
run_with-ends_example = run_with-ends ports definition "run-1" task 0

run_with-released_example :
    let run = (run_with ports definition "run-1" task 0).1.run in
    (definition.automatic_release_allowed ≡ true)
    × (run.state ≡ RunState.released)
    × (was_passed run.transitions ≡ true)
run_with-released_example =
    run_with-released ports definition "run-1" task 0 returned_outcome run_returns run_releases

abbrev withheld_definition : TaskDefinition
withheld_definition = record definition { automatic_release_allowed = false }

run_with-withheld_example :
    run_with ports withheld_definition "run-1" task 0
    ≡ run_with
        (record ports { release = λ run_id t c w. (err (exception "ReleaseError"), w) })
        withheld_definition
        "run-1"
        task
        0
run_with-withheld_example =
    run_with-withheld ports (λ run_id t c w. (err (exception "ReleaseError"), w)) task
      withheld_definition "run-1" 0 refl

abbrev foreign_task : TaskRequest
foreign_task = record task { repository_uri = "git@example.com:other/tool.git" }

abbrev denied_outcome : RunOutcome
denied_outcome = made_by (run_with ports definition "run-2" foreign_task 0).0

denied_returns : (run_with ports definition "run-2" foreign_task 0).0 ≡ ok (some denied_outcome)
unfolding run_with run_body gate_loop gate_round transition_and_record transition_then_record
    transition outcome validate over_usage on_exception contains from_keys
denied_returns = refl

is_denied :
    any
      (λ pattern. contains pattern foreign_task.repository_uri)
      definition.allowed_repository_patterns
    ≡ false
unfolding contains
is_denied = refl

run_with-denied_example : is_terminal denied_outcome.final_state ≡ false
run_with-denied_example =
    run_with-denied ports definition "run-2" foreign_task 0 denied_outcome is_denied denied_returns

abbrev ready_state : State ℕ
ready_state =
    let s = created ports "run-1" task definition 0 in
    record s { run = record s.run { state = RunState.ready } }

-- A clock that moves on by 100 seconds at each reading.
abbrev slow_ports : Ports ℕ
slow_ports = record ports { now = λ w. (w, w + 100_000_000) }

is_permitted :
    any (λ pattern. contains pattern task.repository_uri) definition.allowed_repository_patterns
    ≡ true
unfolding contains
is_permitted = refl

run_with-late_example :
    ((run_with slow_ports definition "run-1" task 0).0
      ≡ err (exception "InvalidStateTransitionError"))
    × ((run_with slow_ports definition "run-1" task 0).1.run.state ≡ RunState.ready)
run_with-late_example =
    run_with-late slow_ports (λ run w. ("evidence:run", refl)) definition "run-1" task 0
      is_permitted (λ first second. refl)

validate_accepts : (validate ports definition.budget ready_state).0 ≡ ok tt
unfolding validate over_usage
validate_accepts = refl

loads : load_all (some (some definition ∷ [])) ≡ found (definition ∷ [])
unfolding load_all
loads = refl

resolves : resolve (some (some definition ∷ [])) "dependency-update" ≡ found definition
unfolding resolve load_all
resolves = refl
