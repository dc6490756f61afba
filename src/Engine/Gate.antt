-- ===== src/Engine/Gate.antt =====
-- release-gate/src/release_gate/engine.py: `run_captured_gate`, from the captured candidate to the
-- decision. The documents, the telemetry and the files of a run are left out.
use blindspot_remediation.Prelude.{
  ℕ, String, Bool, not, List, [], ◌∷◌, ◌++◌, map, mem, is_empty, if◌then◌else◌,
}
use blindspot_remediation.Config.{Scope}
use blindspot_remediation.Policy.{
  Verdict, Matcher, CheckOutcome, GateDecision, evaluate_scope, skipped_check,
}
use blindspot_remediation.Policy.Aggregate.{aggregate_verdict, preflight_reasons}
use blindspot_remediation.Engine.Records.{
  CheckControl, GateConfig, skipped_schedule, skipped_checks,
}
use blindspot_remediation.Engine.Schedule.{Runner, Progress, skip_rest, run_preparation, run_checks}

-- What is known of a candidate before anything runs.
pub record Capture : Type 0 where
  pub changed_paths : List String
  pub policy_changed : Bool
  pub launcher_changed : Bool

-- The reasons of the run, the outcomes of the checks, and the records.
pub record Evaluation (N : Type 0) (W : Type 0) : Type 0 where
  pub run_reasons : List String
  pub checks : List (CheckOutcome N)
  pub progress : Progress N W

-- The exit code of a verdict.
abbrev pub exit_code_of : Verdict → ℕ
exit_code_of Verdict.pass = 0
exit_code_of Verdict.fail = 1
exit_code_of Verdict.needs_human = 2

module _ {N W : Type 0} (runner : Runner N W) where
  abbrev pub skip_all : List (CheckControl N) → List String → List (CheckOutcome N)
  skip_all controls reasons = map (λ c. skipped_check c.check reasons) controls

  -- The run was stopped before anything was prepared; `started` is the time of its start.
  abbrev pub stopped_before : GateConfig N → List String → ℕ → Progress N W → Evaluation N W
  stopped_before config reasons started p = record {
    run_reasons = reasons;
    checks = skip_all config.checks reasons;
    progress = record p {
      records = p.records ++ skipped_schedule runner.upper runner.family reasons started config;
    };
  }

  -- The run was stopped by its preparation.
  abbrev pub stopped_by : GateConfig N → Bool → List String → Progress N W → Evaluation N W
  stopped_by config exhausted failed p =
      let reason = if exhausted then "EVIDENCE_BUDGET_EXHAUSTED" else "PREPARATION_FAILED" in
      record {
        run_reasons = reason ∷ (if exhausted then [] else failed);
        checks = skip_all config.checks (reason ∷ []);
        progress =
            skip_rest runner
              (λ now. skipped_checks runner.upper runner.family (reason ∷ []) now config.checks) p;
      }

  abbrev pub checked : List (CheckOutcome N) × Progress N W → Evaluation N W
  checked (outcomes, p) = record { run_reasons = []; checks = outcomes; progress = p }

  abbrev pub after_preparation : GateConfig N → List String × Progress N W → Evaluation N W
  after_preparation config (failed, p) =
      if not (is_empty failed)
      then stopped_by config (mem "EVIDENCE_BUDGET_EXHAUSTED" failed) failed p
      else checked (run_checks runner config.checks p)

  unfoldable pub evaluate_gate : GateConfig N → Capture → ℕ → Progress N W → Evaluation N W
  unfolding run_preparation run_checks skipped_schedule skipped_checks preflight_reasons
      skipped_check
  evaluate_gate config capture started p =
      let reasons = preflight_reasons capture.policy_changed capture.launcher_changed in
      if not (is_empty reasons)
      then stopped_before config reasons started p
      else after_preparation config (run_preparation runner config p)

  abbrev pub decision_of : Matcher → Scope → Capture → Evaluation N W → GateDecision
  decision_of match_file scope capture e =
      aggregate_verdict (evaluate_scope match_file scope capture.changed_paths) e.checks
        e.run_reasons

  -- `run_captured_gate`: the decision and the exit code.
  unfoldable pub run_captured_gate :
      Matcher → Scope → GateConfig N → Capture → ℕ → W → GateDecision × ℕ
  unfolding evaluate_gate aggregate_verdict evaluate_scope
  run_captured_gate match_file scope config capture started w =
      let decision =
        decision_of match_file scope capture
          (evaluate_gate config capture started (record { records = []; world = w })) in
      (decision, exit_code_of decision.verdict)
