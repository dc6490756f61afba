-- ===== src/Policy/Tests.antt =====
-- Runs of the policy on small inputs.
use blindspot_remediation.Prelude.{ℕ, String, true, some, List, [], ◌∷◌, mem, ◌≡◌, refl, sorted_set}
use blindspot_remediation.Config.{Check, CheckMode, Severity, Scope}
use blindspot_remediation.Process.{ExecutionClass, ExecutionResult}
use blindspot_remediation.Policy.{
  Verdict, CheckStatus, ScopeOutcome, CheckOutcome, Matcher, combine_check,
}
use blindspot_remediation.Policy.Aggregate.{aggregate_verdict}
use blindspot_remediation.Policy.Verdicts.{aggregate_verdict-worst}
use blindspot_remediation.Policy.Reasons.{aggregate_verdict-mem}
use blindspot_remediation.Policy.Checks.{aggregate_verdict-unjudged}

abbrev clean_scope : ScopeOutcome
clean_scope = record {
  verdict = Verdict.pass;
  changed_paths = "src/a.py" ∷ [];
  outside_allowed_paths = [];
  forbidden_paths = [];
  review_required_paths = [];
  reason_codes = [];
}

abbrev outcome : String → Severity → CheckStatus → List String → CheckOutcome ℕ
outcome id severity status reasons = record {
  id = id;
  mode = CheckMode.candidate;
  severity = severity;
  status = status;
  reason_codes = reasons;
  assertions = [];
}

abbrev tests_failed : CheckOutcome ℕ
tests_failed = outcome "tests" Severity.blocking CheckStatus.fail ("COMMAND_FAILED" ∷ [])

abbrev style_failed : CheckOutcome ℕ
style_failed = outcome "style" Severity.advisory CheckStatus.fail ("COMMAND_FAILED" ∷ [])

abbrev metrics_failed : CheckOutcome ℕ
metrics_failed = outcome "metrics" Severity.informational CheckStatus.fail ("COMMAND_FAILED" ∷ [])

abbrev lint_error : CheckOutcome ℕ
lint_error =
    outcome "lint" Severity.blocking CheckStatus.error ("STREAM_TRUNCATED" ∷ "TIMEOUT" ∷ [])

aggregate_verdict-worst_example :
    (aggregate_verdict clean_scope (tests_failed ∷ (metrics_failed ∷ [])) []).verdict ≡ Verdict.fail
aggregate_verdict-worst_example =
    aggregate_verdict-worst clean_scope (tests_failed ∷ (metrics_failed ∷ [])) []

aggregate_verdict-mem_example :
    mem "TIMEOUT" (aggregate_verdict clean_scope (tests_failed ∷ (lint_error ∷ [])) []).reason_codes
    ≡ true
unfolding aggregate_verdict
aggregate_verdict-mem_example =
    aggregate_verdict-mem clean_scope (tests_failed ∷ (lint_error ∷ [])) [] "TIMEOUT"

-- A run reports its reasons sorted, without the mere diagnostics.
run_of_two :
    (aggregate_verdict clean_scope (tests_failed ∷ (lint_error ∷ [])) []).reason_codes
    ≡ "COMMAND_FAILED" ∷ "TIMEOUT" ∷ []
unfolding aggregate_verdict sorted_set
run_of_two = refl

abbrev differential : Check ℕ
differential = record {
  id = "types";
  mode = CheckMode.differential;
  severity = Severity.blocking;
  reports = [];
  assertions = [];
}

abbrev passed : ExecutionResult
passed = record { classification = ExecutionClass.pass; reason_codes = "STREAM_TRUNCATED" ∷ [] }

abbrev failed : ExecutionResult
failed = record { classification = ExecutionClass.fail; reason_codes = [] }

abbrev timed_out : ExecutionResult
timed_out = record { classification = ExecutionClass.error; reason_codes = "TIMEOUT" ∷ [] }

aggregate_verdict-unjudged_example :
    (aggregate_verdict clean_scope
      (tests_failed ∷ (combine_check differential timed_out (some passed) [] [] ∷ []))
      []).verdict
    ≡ Verdict.needs_human
aggregate_verdict-unjudged_example =
    aggregate_verdict-unjudged differential timed_out (some passed) [] [] clean_scope []
      (tests_failed ∷ []) [] refl

-- A matcher that compares whole paths.
abbrev exact : Matcher
exact lines path = mem path lines

abbrev small_scope : Scope
small_scope = record {
  allowed_paths = "a" ∷ "b" ∷ "c" ∷ [];
  forbidden_paths = "b" ∷ [];
  review_required_paths = "c" ∷ [];
}
