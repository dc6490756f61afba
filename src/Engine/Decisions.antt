-- ===== src/Engine/Decisions.antt =====
-- When a gate run passes, and the records of a run that stops early.
use blindspot_remediation.Prelude.{
  ℕ, String, Bool, true, false, not, List, [], ◌∷◌, ◌++◌, map, is_empty, ◌≡◌, refl, ap, ◌∙◌, arith,
  if◌then◌else◌, sorted_set, place,
}
use mathlib.Core.List.{map-append}
use blindspot_remediation.Config.{Scope}
use blindspot_remediation.Policy.{Verdict, Matcher, evaluate_scope, is_pass}
use blindspot_remediation.Policy.Aggregate.{preflight_reasons}
use blindspot_remediation.Policy.Verdicts.{aggregate_verdict-pass}
use blindspot_remediation.Engine.Records.{
  Phase, Side, PrepareStep, GateConfig, sides_of, skipped_record, skip_step, skip_steps,
}
use blindspot_remediation.Engine.Schedule.{
  Runner, Progress, run_step, prepare_from, run_preparation,
}
use blindspot_remediation.Engine.Gate.{
  Capture, exit_code_of, stopped_before, after_preparation, evaluate_gate, run_captured_gate,
}
use blindspot_remediation.Engine.Slots.{Slot, slots}

preflight_reasons-empty :
    (policy_changed launcher_changed : Bool)
    → is_empty (preflight_reasons policy_changed launcher_changed) ≡ true
    → (policy_changed ≡ false) × (launcher_changed ≡ false)
unfolding preflight_reasons sorted_set place
preflight_reasons-empty true true e = ground arith
preflight_reasons-empty true false e = ground arith
preflight_reasons-empty false true e = ground arith
preflight_reasons-empty false false e = (refl, refl)

exit_code_of-pass : (verdict : Verdict) → exit_code_of verdict ≡ 0 → verdict ≡ Verdict.pass
exit_code_of-pass Verdict.pass e = refl
exit_code_of-pass Verdict.fail e = ground arith
exit_code_of-pass Verdict.needs_human e = ground arith

module _ {N W : Type 0} (runner : Runner N W) (config : GateConfig N) where
  abbrev pub start_of : W → Progress N W
  start_of w = record { records = []; world = w }

  after_preparation-reasons :
      (x : List String × Progress N W)
      → (after_preparation runner config x).run_reasons ≡ []
      → x.0 ≡ []
  after_preparation-reasons ([], p) e = refl
  after_preparation-reasons (reason ∷ reasons, p) e = ground arith

  evaluate_gate-reasons :
      (capture : Capture) (started : ℕ) (p : Progress N W)
      → (evaluate_gate runner config capture started p).run_reasons ≡ []
      → (is_empty (preflight_reasons capture.policy_changed capture.launcher_changed) ≡ true)
        × ((run_preparation runner config p).0 ≡ [])
  unfolding evaluate_gate
  evaluate_gate-reasons capture started p e =
      reasons_of (preflight_reasons capture.policy_changed capture.launcher_changed)
        (run_preparation runner config p) e
    where
      reasons_of :
          (reasons : List String) (x : List String × Progress N W)
          → (if not (is_empty reasons)
              then stopped_before runner config reasons started p
              else after_preparation runner config x).run_reasons
            ≡ []
          → (is_empty reasons ≡ true) × (x.0 ≡ [])
      reasons_of [] x e' = (refl, after_preparation-reasons x e')
      reasons_of (reason ∷ reasons) x e' = ground arith

  -- A run exits with 0 only if the scope passed, neither the policy nor a launcher was changed by
  -- the candidate, and the preparation returned no reason.
  pub run_captured_gate-passed :
      (match_file : Matcher) (scope : Scope) (capture : Capture) (started : ℕ) (w : W)
      → (run_captured_gate runner match_file scope config capture started w).1 ≡ 0
      → ((evaluate_scope match_file scope capture.changed_paths).verdict ≡ Verdict.pass)
        × (capture.policy_changed ≡ false)
        × (capture.launcher_changed ≡ false)
        × ((run_preparation runner config (start_of w)).0 ≡ [])
  unfolding run_captured_gate
  run_captured_gate-passed match_file scope capture started w e =
      let evaluation = evaluate_gate runner config capture started (start_of w) in
      let (scope_passed, none_given, clear) =
        (aggregate_verdict-pass (evaluate_scope match_file scope capture.changed_paths)
            evaluation.checks evaluation.run_reasons).0
          (exit_code_of-pass _ e) in
      let (nothing, prepared) = evaluate_gate-reasons capture started (start_of w) none_given in
      let (policy, launcher) =
        preflight_reasons-empty capture.policy_changed capture.launcher_changed nothing in
      (scope_passed, policy, launcher, prepared)

module _ {N W : Type 0} (runner : Runner N W) where
  abbrev pub step_slots : List Side → List PrepareStep → List Slot
  step_slots sides [] = []
  step_slots sides (step ∷ steps) =
      map (λ side. (step.id, (Phase.prepare, side))) sides ++ step_slots sides steps

  skip_step-slots :
      (reasons : List String) (now : ℕ) (sides : List Side) (step : PrepareStep)
      → slots {N = N} (skip_step runner.upper runner.family reasons now sides step)
        ≡ map (λ side. (step.id, (Phase.prepare, side))) sides
  unfolding skipped_record
  skip_step-slots reasons now [] step = refl
  skip_step-slots reasons now (side ∷ sides) step =
      ap (λ xs. (step.id, (Phase.prepare, side)) ∷ xs) (skip_step-slots reasons now sides step)

  skip_steps-slots :
      (reasons : List String) (now : ℕ) (sides : List Side) (steps : List PrepareStep)
      → slots {N = N} (skip_steps runner.upper runner.family reasons now sides steps)
        ≡ step_slots sides steps
  skip_steps-slots reasons now sides [] = refl
  skip_steps-slots reasons now sides (step ∷ steps) =
      map-append _ (skip_step runner.upper runner.family reasons now sides step) _
      ∙ (ap
            (λ xs.
              xs ++ slots {N = N} (skip_steps runner.upper runner.family reasons now sides steps))
            (skip_step-slots reasons now sides step)
          ∙ ap (λ xs. map (λ side. (step.id, (Phase.prepare, side))) sides ++ xs)
              (skip_steps-slots reasons now sides steps))

  -- Where both sides are prepared and the base side of a step does not pass, the records that
  -- follow are that of this side and those of both sides of the later steps: the candidate side of
  -- the step that failed has none.
  pub prepare_from-gap :
      (step : PrepareStep) (steps : List PrepareStep) (p : Progress N W)
      → is_pass (runner.execute_step step Side.base p.world).0.result.classification ≡ false
      → slots (prepare_from runner (sides_of true) (step ∷ steps) p).1.records
        ≡ slots (p.records ++ (runner.execute_step step Side.base p.world).0.entry ∷ [])
          ++ step_slots (sides_of true) steps
  unfolding prepare_from run_step
  prepare_from-gap step steps p e =
      let execution = (runner.execute_step step Side.base p.world).0 in
      rw e (
        map-append _ (p.records ++ execution.entry ∷ []) _
        ∙ ap (λ xs. slots (p.records ++ execution.entry ∷ []) ++ xs)
            (skip_steps-slots _ _ (sides_of true) steps))
