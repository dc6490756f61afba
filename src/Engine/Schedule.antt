-- ===== src/Engine/Schedule.antt =====
-- release-gate/src/release_gate/engine.py: `_run_preparation` and `_run_checks`.
use blindspot_remediation.Prelude.{
  ℕ, String, Bool, true, false, Option, none, some, List, [], ◌∷◌, ◌++◌, map, sorted_set,
  if◌then◌else◌,
}
use blindspot_remediation.Config.{PlatformName, Check}
use blindspot_remediation.Config.CommandSpecs.{resolve}
use blindspot_remediation.Policy.{CheckOutcome, is_pass, combine_check, skipped_check}
use blindspot_remediation.Assertions.{AssertionOutcome}
use blindspot_remediation.Assertions.Pointers.{Digits}
use blindspot_remediation.Assertions.Evaluation.{Numbers, evaluate_assertion}
use blindspot_remediation.Engine.Records.{
  Phase, Side, PrepareStep, CheckControl, GateConfig, ExecutionRecord, Execution, is_differential,
  sides_of, skipped_record, skip_steps, skipped_checks, requires_base_workspace,
}

-- What a run takes from elsewhere: `_execute_control` for a step and for a check, the clock, Python's
-- `str.upper`, numbers and digits, and the platform.
pub record Runner (N : Type 0) (W : Type 0) : Type 0 where
  pub execute_step : PrepareStep → Side → W → Execution N × W
  pub execute_check : CheckControl N → Side → W → Execution N × W
  pub now : W → ℕ × W
  pub upper : String → String
  pub digits : Digits
  pub numbers : Numbers N
  pub family : PlatformName

-- The records that were made so far, and the world.
pub record Progress (N : Type 0) (W : Type 0) : Type 0 where
  pub records : List (ExecutionRecord N)
  pub world : W

abbrev pub budget_reason : List String
budget_reason = "EVIDENCE_BUDGET_EXHAUSTED" ∷ []

abbrev pub stop_reason_of : Bool → List String
stop_reason_of true = budget_reason
stop_reason_of false = "PREPARATION_FAILED" ∷ []

-- `reason or ("REQUIRED_CONTROL_SKIPPED",)`
abbrev pub reasons_or_skipped : List String → List String
reasons_or_skipped [] = "REQUIRED_CONTROL_SKIPPED" ∷ []
reasons_or_skipped (reason ∷ reasons) = reason ∷ reasons

module _ {N W : Type 0} (runner : Runner N W) where
  abbrev pub adding : List (ExecutionRecord N) → Progress N W → Progress N W
  adding records p = record p { records = p.records ++ records }

  abbrev pub ran : Execution N → W → Progress N W → Progress N W
  ran execution w p = record { records = p.records ++ execution.entry ∷ []; world = w }

  -- The skips of what remains, at the time of the clock.
  abbrev pub skip_rest : (ℕ → List (ExecutionRecord N)) → Progress N W → Progress N W
  skip_rest skips p =
      let (now, w) = runner.now p.world in record { records = p.records ++ skips now; world = w }

  -- One step on the sides that are left; the execution that did not pass ends it.
  unfoldable pub run_step :
      PrepareStep → List Side → Progress N W → Option (Execution N) × Progress N W
  run_step step [] p = (none, p)
  run_step step (side ∷ sides) p =
      let (execution, w) = runner.execute_step step side p.world in
      let rest = run_step step sides (ran execution w p) in
      if is_pass execution.result.classification then rest else (some execution, ran execution w p)

  abbrev pub after_step :
      List Side
      → List PrepareStep
      → (Progress N W → List String × Progress N W)
      → Option (Execution N) × Progress N W
      → List String × Progress N W
  after_step sides steps next (none, p) = next p
  after_step sides steps next (some execution, p) = (
    reasons_or_skipped execution.result.reason_codes,
    skip_rest
        (λ now.
          skip_steps runner.upper runner.family (stop_reason_of execution.budget_exhausted) now
            sides steps)
        p,
  )

  unfoldable pub prepare_from :
      List Side → List PrepareStep → Progress N W → List String × Progress N W
  unfolding run_step
  prepare_from sides [] p = ([], p)
  prepare_from sides (step ∷ steps) p =
      after_step sides steps (λ p'. prepare_from sides steps p') (run_step step sides p)

  -- `_run_preparation`
  unfoldable pub run_preparation : GateConfig N → Progress N W → List String × Progress N W
  unfolding prepare_from
  run_preparation config p =
      prepare_from (sides_of (requires_base_workspace config)) config.prepare p

  -- `_append_budget_skips` after the checks that are done.
  abbrev pub skip_checks :
      List (CheckControl N) → Progress N W → List (CheckOutcome N) × Progress N W
  skip_checks controls p = (
    map (λ c. skipped_check c.check budget_reason) controls,
    skip_rest (λ now. skipped_checks runner.upper runner.family budget_reason now controls) p,
  )

  -- `execution.record.pop("check_reason_codes", [])` leaves the record without that entry.
  abbrev pub popped : ExecutionRecord N → ExecutionRecord N
  popped entry = record entry { check_reason_codes = [] }

  abbrev pub baseline_entries : Option (Execution N) → List (ExecutionRecord N)
  baseline_entries none = []
  baseline_entries (some baseline) = popped baseline.entry ∷ []

  abbrev pub report_errors : Option (Execution N) → Execution N → List String
  report_errors none current = current.entry.check_reason_codes
  report_errors (some baseline) current =
      baseline.entry.check_reason_codes ++ current.entry.check_reason_codes

  abbrev pub field_of : {A : Type 0} → (Execution N → A) → Option (Execution N) → Option A
  field_of get none = none
  field_of get (some execution) = some (get execution)

  abbrev pub assertion_outcomes :
      Check N → Option (Execution N) → Execution N → List (AssertionOutcome N)
  assertion_outcomes check baseline current =
      map
        (λ assertion.
          evaluate_assertion runner.digits runner.numbers assertion current.reports
            (field_of (λ e. e.reports) baseline))
        check.assertions

  -- The outcome of a check from its executions.
  abbrev pub judge : Check N → Option (Execution N) → Execution N → CheckOutcome N
  judge check baseline current =
      combine_check check current.result (field_of (λ e. e.result) baseline)
        (assertion_outcomes check baseline current) (sorted_set (report_errors baseline current))

  abbrev pub prepend :
      CheckOutcome N → List (CheckOutcome N) × Progress N W → List (CheckOutcome N) × Progress N W
  prepend outcome (outcomes, p) = (outcome ∷ outcomes, p)

  -- The candidate side of a check, and what follows it. The records of its executions are popped when
  -- the outcome is made.
  abbrev pub run_candidate :
      CheckControl N
      → List (CheckControl N)
      → (Progress N W → List (CheckOutcome N) × Progress N W)
      → Option (Execution N)
      → Progress N W
      → List (CheckOutcome N) × Progress N W
  run_candidate control controls next baseline p =
      let (current, w) = runner.execute_check control Side.candidate p.world in
      let p' : Progress N W = record {
        records = p.records ++ (baseline_entries baseline ++ popped current.entry ∷ []);
        world = w;
      } in
      prepend (judge control.check baseline current)
        (if current.budget_exhausted then skip_checks controls p' else next p')

  -- A differential check whose base side exhausted the budget.
  abbrev pub stop_at_baseline :
      CheckControl N
      → List (CheckControl N)
      → Execution N
      → Progress N W
      → List (CheckOutcome N) × Progress N W
  stop_at_baseline control controls baseline p =
      prepend (skipped_check control.check budget_reason) (
        skip_checks controls (
          skip_rest
            (λ now.
              skipped_record control.check.id Phase.check Side.candidate
                (resolve runner.upper control.command runner.family) budget_reason now runner.family
              ∷ [])
            (adding (baseline.entry ∷ []) p)))

  abbrev pub run_differential :
      CheckControl N
      → List (CheckControl N)
      → (Progress N W → List (CheckOutcome N) × Progress N W)
      → Progress N W
      → List (CheckOutcome N) × Progress N W
  run_differential control controls next p =
      let (baseline, w) = runner.execute_check control Side.base p.world in
      let p' = record p { world = w } in
      if baseline.budget_exhausted
      then stop_at_baseline control controls baseline p'
      else run_candidate control controls next (some baseline) p'

  -- `_run_checks`
  unfoldable pub run_checks :
      List (CheckControl N) → Progress N W → List (CheckOutcome N) × Progress N W
  unfolding skipped_check combine_check evaluate_assertion
  run_checks [] p = ([], p)
  run_checks (control ∷ controls) p =
      let next = λ (p' : Progress N W). run_checks controls p' in
      if is_differential control.check.mode
      then run_differential control controls next p
      else run_candidate control controls next none p
