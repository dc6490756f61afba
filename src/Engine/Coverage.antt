-- ===== src/Engine/Coverage.antt =====
-- Which controls the outcomes and the records of a run account for.
use blindspot_remediation.Prelude.{
  String, Bool, true, false, Option, none, some, List, [], ◌∷◌, map, ◌≡◌, refl, ap, Bool-cases, inl,
  inr, if◌then◌else◌,
}
use blindspot_remediation.Policy.{CheckOutcome, combine_check, skipped_check}
use blindspot_remediation.Engine.Records.{Side, CheckControl, Execution, is_differential}
use blindspot_remediation.Engine.Schedule.{
  Runner, Progress, budget_reason, skip_checks, run_candidate, run_differential, run_checks,
}

module _ {N W : Type 0} (runner : Runner N W) where
  abbrev outcome_ids : List (CheckOutcome N) → List String
  outcome_ids outcomes = map (λ o. o.id) outcomes

  abbrev check_ids : List (CheckControl N) → List String
  check_ids controls = map (λ c. c.check.id) controls

  skipped-ids :
      (controls : List (CheckControl N))
      → outcome_ids (map (λ c. skipped_check c.check budget_reason) controls) ≡ check_ids controls
  unfolding skipped_check
  skipped-ids [] = refl
  skipped-ids (control ∷ controls) = ap (λ ids. control.check.id ∷ ids) (skipped-ids controls)

  module _ (control : CheckControl N) (controls : List (CheckControl N))
      (next : Progress N W → List (CheckOutcome N) × Progress N W)
      (names : (p : Progress N W) → outcome_ids (next p).0 ≡ check_ids controls) where
    continue-ids :
        (exhausted : Bool) (p : Progress N W)
        → outcome_ids (if exhausted then skip_checks runner controls p else next p).0
          ≡ check_ids controls
    continue-ids true p = skipped-ids controls
    continue-ids false p = names p

    run_candidate-ids :
        (baseline : Option (Execution N)) (p : Progress N W)
        → outcome_ids (run_candidate runner control controls next baseline p).0
          ≡ check_ids (control ∷ controls)
    unfolding combine_check
    run_candidate-ids baseline p = ap (λ ids. control.check.id ∷ ids) (continue-ids _ _)

    run_differential-ids :
        (p : Progress N W)
        → outcome_ids (run_differential runner control controls next p).0
          ≡ check_ids (control ∷ controls)
    unfolding skipped_check
    run_differential-ids p =
        elim (Bool-cases (runner.execute_check control Side.base p.world).0.budget_exhausted) [
          | inl e ↦ rw e (ap (λ ids. control.check.id ∷ ids) (skipped-ids controls))
          | inr e ↦ rw e (
              run_candidate-ids (some (runner.execute_check control Side.base p.world).0)
                (record p { world = (runner.execute_check control Side.base p.world).1 }))
        ]

  -- The checks have one outcome each, in the order of the configuration, whatever was skipped.
  pub run_checks-ids :
      (controls : List (CheckControl N)) (p : Progress N W)
      → map (λ o. o.id) (run_checks runner controls p).0 ≡ map (λ c. c.check.id) controls
  unfolding run_checks
  run_checks-ids [] p = refl
  run_checks-ids (control ∷ controls) p = elim (Bool-cases (is_differential control.check.mode)) [
    | inl e ↦ rw e (
        run_differential-ids control controls (λ p'. run_checks runner controls p')
          (λ p'. run_checks-ids controls p') p)
    | inr e ↦ rw e (
        run_candidate-ids control controls (λ p'. run_checks runner controls p')
          (λ p'. run_checks-ids controls p') none p)
  ]
