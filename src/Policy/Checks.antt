-- ===== src/Policy/Checks.antt =====
-- `combine_check`: when a check passes, when it could not be judged, and what it reports.
use blindspot_remediation.Prelude.{
  String, Bool, true, false, not, ◌&&◌, ◌||◌, Option, none, some, List, ◌∷◌, ◌++◌, any, all, ◌≡◌,
  ◌↔◌, ◌∙◌, arith, any-not, all-sorted_set, all-keep,
}
use blindspot_remediation.Config.{Check, CheckMode, Severity}
use blindspot_remediation.Process.{ExecutionResult}
use blindspot_remediation.Assertions.{AssertionOutcome}
use blindspot_remediation.Policy.{
  Verdict, CheckStatus, ScopeOutcome, CheckOutcome, is_diagnostic, is_error, is_pass, is_fail,
  execution_status, final_status, combine_check, is_error_status, is_assertion_error,
  is_assertion_fail, retained,
}
use blindspot_remediation.Policy.Aggregate.{aggregate_verdict}
use blindspot_remediation.Policy.Verdicts.{says, aggregate_verdict-needs_human}

-- A control of the check could not be run to a result.
abbrev pub unjudged : CheckMode → Option ExecutionResult → ExecutionResult → Bool
unjudged CheckMode.candidate baseline candidate = is_error candidate.classification
unjudged CheckMode.differential none candidate = true
unjudged CheckMode.differential (some baseline) candidate =
    is_error baseline.classification || is_error candidate.classification

-- The executions alone let the candidate pass: a differential check blames it only for a
-- failure that the baseline does not have.
abbrev pub runs_clean : CheckMode → Option ExecutionResult → ExecutionResult → Bool
runs_clean CheckMode.candidate baseline candidate = is_pass candidate.classification
runs_clean CheckMode.differential none candidate = false
runs_clean CheckMode.differential (some baseline) candidate =
    not (is_error baseline.classification)
    && (not (is_error candidate.classification)
        && not (is_pass baseline.classification && is_fail candidate.classification))

abbrev is_pass_status : CheckStatus → Bool
is_pass_status CheckStatus.pass = true
is_pass_status _ = false

execution_status-unjudged :
    (mode : CheckMode) (baseline : Option ExecutionResult) (candidate : ExecutionResult)
    → is_error_status (execution_status mode baseline candidate).0
      ≡ unjudged mode baseline candidate
unfolding execution_status
execution_status-unjudged mode baseline candidate = ground arith

execution_status-clean :
    (mode : CheckMode) (baseline : Option ExecutionResult) (candidate : ExecutionResult)
    → is_pass_status (execution_status mode baseline candidate).0
      ≡ runs_clean mode baseline candidate
unfolding execution_status
execution_status-clean mode baseline candidate = ground arith

module _ {N : Type 0} where
  final_status-error :
      (status : CheckStatus) (assertions : List (AssertionOutcome N)) (diagnostics : List String)
      → (final_status status assertions diagnostics ≡ CheckStatus.error) ↔ (
          (is_error_status status
            || (any (λ r. not (is_diagnostic r)) diagnostics || any is_assertion_error assertions))
          ≡ true)
  unfolding final_status
  final_status-error status assertions diagnostics = ground arith

  final_status-pass :
      (status : CheckStatus) (assertions : List (AssertionOutcome N)) (diagnostics : List String)
      → (final_status status assertions diagnostics ≡ CheckStatus.pass) ↔ (
          (is_pass_status status
            && (all is_diagnostic diagnostics
                && not (any is_assertion_error assertions || any is_assertion_fail assertions)))
          ≡ true)
  unfolding final_status
  final_status-pass status assertions diagnostics =
      ground (arith, any-not is_diagnostic diagnostics)

retained-pass :
    (status : CheckStatus) (reasons : List String)
    → status ≡ CheckStatus.pass
    → all is_diagnostic (retained status reasons) ≡ true
retained-pass status reasons h = rw h (all-keep is_diagnostic reasons)

says-error :
    (status : CheckStatus) (severity : Severity)
    → status ≡ CheckStatus.error
    → says status severity ≡ Verdict.needs_human
says-error status severity h = ground arith

module _ {N : Type 0} (check : Check N) (candidate : ExecutionResult)
    (baseline : Option ExecutionResult) (assertions : List (AssertionOutcome N))
    (diagnostics : List String) where
  -- A check is an error exactly when a control of it could not be run to a result, a diagnostic
  -- other than the two harmless ones was reported, or an assertion could not be evaluated.
  pub combine_check-error :
      ((combine_check check candidate baseline assertions diagnostics).status ≡ CheckStatus.error)
      ↔ ((unjudged check.mode baseline candidate
            || (any (λ r. not (is_diagnostic r)) diagnostics || any is_assertion_error assertions))
          ≡ true)
  unfolding combine_check
  combine_check-error =
      rw (← execution_status-unjudged check.mode baseline candidate)
        (final_status-error _ assertions diagnostics)

  -- A check passes exactly when its executions let the candidate pass, all diagnostics are
  -- harmless, and no assertion failed or could not be evaluated.
  pub combine_check-pass :
      ((combine_check check candidate baseline assertions diagnostics).status ≡ CheckStatus.pass)
      ↔ ((runs_clean check.mode baseline candidate
            && (all is_diagnostic diagnostics
                && not (any is_assertion_error assertions || any is_assertion_fail assertions)))
          ≡ true)
  unfolding combine_check
  combine_check-pass =
      rw (← execution_status-clean check.mode baseline candidate)
        (final_status-pass _ assertions diagnostics)

  -- A check that passed reports no reasons but the two harmless diagnostics.
  pub combine_check-pass_reasons :
      (combine_check check candidate baseline assertions diagnostics).status ≡ CheckStatus.pass
      → all is_diagnostic
          (combine_check check candidate baseline assertions diagnostics).reason_codes
        ≡ true
  unfolding combine_check
  combine_check-pass_reasons h = all-sorted_set is_diagnostic _ ∙ retained-pass _ _ h

  -- A run in which a control of one check could not be run to a result asks for a human, whatever
  -- the scope, the run reasons and the other checks say.
  pub aggregate_verdict-unjudged :
      (scope : ScopeOutcome) (run_reasons : List String) (earlier later : List (CheckOutcome N))
      → unjudged check.mode baseline candidate ≡ true
      → (aggregate_verdict scope
          (earlier ++ combine_check check candidate baseline assertions diagnostics ∷ later)
          run_reasons).verdict
        ≡ Verdict.needs_human
  aggregate_verdict-unjudged scope run_reasons earlier later h =
      aggregate_verdict-needs_human scope run_reasons earlier later _
        (says-error _ _ (combine_check-error.1 (ground arith)))
