-- ===== src/Policy.antt =====
-- release-gate/src/release_gate/policy.py: pure scope, check, and three-way verdict policy.
-- A Python set of reason codes is a list read by membership; `sorted` makes it canonical.
pub mod Aggregate
pub mod Verdicts
pub mod Reasons
pub mod Checks
pub mod ScopePaths
pub mod Tests
use blindspot_remediation.Prelude.{
  String, Bool, true, false, not, ◌&&◌, ◌||◌, Option, none, some, List, [], ◌∷◌, ◌++◌, any, keep,
  mem, is_empty, sorted_set, from_keys, if◌then◌else◌,
}
use blindspot_remediation.Config.{Check, CheckMode, Severity, Scope}
use blindspot_remediation.Process.{ExecutionClass, ExecutionResult}
use blindspot_remediation.Assertions.{AssertionState, AssertionOutcome}

pub data Verdict : Type 0 where
  pass fail needs_human : Verdict

pub data CheckStatus : Type 0 where
  pass fail error skipped : CheckStatus

abbrev pub passes : Verdict → Bool
passes Verdict.pass = true
passes _ = false

pub record ScopeOutcome : Type 0 where
  pub verdict : Verdict
  pub changed_paths : List String
  pub outside_allowed_paths : List String
  pub forbidden_paths : List String
  pub review_required_paths : List String
  pub reason_codes : List String

pub record CheckOutcome (N : Type 0) : Type 0 where
  pub id : String
  pub mode : CheckMode
  pub severity : Severity
  pub status : CheckStatus
  pub reason_codes : List String
  pub assertions : List (AssertionOutcome N)

pub record GateDecision : Type 0 where
  pub verdict : Verdict
  pub reason_codes : List String

-- `PathSpec.from_lines("gitwildmatch", lines).match_file(path)` of the package pathspec.
abbrev pub Matcher : Type 0
Matcher = (lines : List String) (path : String) → Bool

abbrev pub reason_if : Bool → String → List String
reason_if true reason = reason ∷ []
reason_if false reason = []

-- The reasons of a scope, by which of its lists of paths are not empty.
abbrev pub scope_reasons : Bool → Bool → Bool → List String
scope_reasons forbidden outside review = sorted_set (
    reason_if forbidden "PATH_FORBIDDEN"
    ++ (reason_if outside "PATH_OUTSIDE_ALLOWED" ++ reason_if review "PATH_REVIEW_REQUIRED"))

unfoldable pub evaluate_scope : Matcher → Scope → List String → ScopeOutcome
evaluate_scope match_file scope changed_paths =
    let changed = from_keys changed_paths in
    let outside = keep (λ path. not (match_file scope.allowed_paths path)) changed in
    let forbidden = keep (match_file scope.forbidden_paths) changed in
    let review = keep (match_file scope.review_required_paths) changed in
    record {
      verdict =
          if not (is_empty review)
          then Verdict.needs_human
          else if not (is_empty outside) || not (is_empty forbidden)
          then Verdict.fail
          else Verdict.pass;
      changed_paths = changed;
      outside_allowed_paths = outside;
      forbidden_paths = forbidden;
      review_required_paths = review;
      reason_codes =
          scope_reasons (not (is_empty forbidden)) (not (is_empty outside)) (not (is_empty review));
    }

-- The reasons that are reported without blocking.
abbrev pub is_diagnostic : String → Bool
is_diagnostic reason = mem reason ("OPTIONAL_REPORT_MISSING" ∷ "STREAM_TRUNCATED" ∷ [])

-- `_status_from_execution`
unfoldable pub status_from_execution : ExecutionClass → CheckStatus
status_from_execution ExecutionClass.pass = CheckStatus.pass
status_from_execution ExecutionClass.fail = CheckStatus.fail
status_from_execution ExecutionClass.error = CheckStatus.error
status_from_execution ExecutionClass.skipped = CheckStatus.skipped

abbrev pub is_pass : ExecutionClass → Bool
is_pass ExecutionClass.pass = true
is_pass _ = false

abbrev pub is_fail : ExecutionClass → Bool
is_fail ExecutionClass.fail = true
is_fail _ = false

abbrev pub is_error : ExecutionClass → Bool
is_error ExecutionClass.error = true
is_error _ = false

-- `candidate.reason_codes or ("COMMAND_FAILED",)`
abbrev or_command_failed : List String → List String
or_command_failed [] = "COMMAND_FAILED" ∷ []
or_command_failed (r ∷ rs) = r ∷ rs

-- `_execution_status` of a differential check whose baseline ran.
unfoldable pub differential_status : ExecutionResult → ExecutionResult → CheckStatus × List String
differential_status baseline candidate =
    if is_error baseline.classification || is_error candidate.classification
    then (
      CheckStatus.error,
      (if is_error baseline.classification then baseline.reason_codes else [])
          ++ (if is_error candidate.classification then candidate.reason_codes else []),
    )
    else if is_pass baseline.classification && is_fail candidate.classification
    then (CheckStatus.fail, or_command_failed candidate.reason_codes)
    else (CheckStatus.pass, keep is_diagnostic (baseline.reason_codes ++ candidate.reason_codes))

-- `_execution_status`
unfoldable pub execution_status :
    CheckMode → Option ExecutionResult → ExecutionResult → CheckStatus × List String
unfolding status_from_execution differential_status
execution_status CheckMode.candidate baseline candidate =
    (status_from_execution candidate.classification, candidate.reason_codes)
execution_status CheckMode.differential none candidate =
    (CheckStatus.error, "REQUIRED_CONTROL_SKIPPED" ∷ [])
execution_status CheckMode.differential (some baseline) candidate =
    differential_status baseline candidate

abbrev pub is_error_status : CheckStatus → Bool
is_error_status CheckStatus.error = true
is_error_status _ = false

-- The reasons that an outcome keeps, by its status.
abbrev pub retained : CheckStatus → List String → List String
retained CheckStatus.pass reasons = keep is_diagnostic reasons
retained CheckStatus.error reasons =
    keep (λ r. not (mem r ("ASSERTION_FAILED" ∷ "COMMAND_FAILED" ∷ []))) reasons
retained _ reasons = reasons

-- `_verdict_reasons`
abbrev pub verdict_reasons : List String → List String
verdict_reasons reasons = keep (λ r. not (is_diagnostic r)) reasons

-- `if not reasons: reasons = ("REQUIRED_CONTROL_SKIPPED",)`
abbrev or_skipped : List String → List String
or_skipped [] = "REQUIRED_CONTROL_SKIPPED" ∷ []
or_skipped (r ∷ rs) = r ∷ rs

module _ {N : Type 0} where
  abbrev pub is_assertion_error : AssertionOutcome N → Bool
  is_assertion_error a = elim a.state [
    | AssertionState.error ↦ true
    | AssertionState.pass ↦ false
    | AssertionState.fail ↦ false
  ]

  abbrev pub is_assertion_fail : AssertionOutcome N → Bool
  is_assertion_fail a = elim a.state [
    | AssertionState.fail ↦ true
    | AssertionState.pass ↦ false
    | AssertionState.error ↦ false
  ]

  abbrev assertion_reasons : List (AssertionOutcome N) → List String
  assertion_reasons [] = []
  assertion_reasons (a ∷ rest) = a.reason_codes ++ assertion_reasons rest

  -- The status after the reports and the assertions of the check have been read.
  unfoldable pub final_status : CheckStatus → List (AssertionOutcome N) → List String → CheckStatus
  final_status status assertions diagnostics =
      if any (λ r. not (is_diagnostic r)) diagnostics || any is_assertion_error assertions
      then CheckStatus.error
      else if not (is_error_status status) && any is_assertion_fail assertions
      then CheckStatus.fail
      else status

  unfoldable pub combine_check :
      Check N
      → ExecutionResult
      → Option ExecutionResult
      → List (AssertionOutcome N)
      → List String
      → CheckOutcome N
  unfolding final_status execution_status
  combine_check check candidate baseline assertions diagnostics =
      let (status, reasons) = execution_status check.mode baseline candidate in
      let final = final_status status assertions diagnostics in
      record {
        id = check.id;
        mode = check.mode;
        severity = check.severity;
        status = final;
        reason_codes =
            sorted_set (retained final (reasons ++ (assertion_reasons assertions ++ diagnostics)));
        assertions = assertions;
      }

  unfoldable pub skipped_check : Check N → List String → CheckOutcome N
  skipped_check check reasons = record {
    id = check.id;
    mode = check.mode;
    severity = check.severity;
    status = CheckStatus.skipped;
    reason_codes = sorted_set (or_skipped reasons);
    assertions = [];
  }
