-- ===== src/Repair/Assessment.antt =====
-- release-gate/src/release_gate/repair/controller.py: whether a gate run may be repaired
-- automatically (`assess_attempt`). The explanations for the user are left out.
use blindspot_remediation.Prelude.{
  String, Bool, true, false, not, ◌&&◌, ◌||◌, Option, none, some, List, [], ◌∷◌, ◌++◌, any, mem,
  is_empty, if◌then◌else◌, ◌==◌,
}
use blindspot_remediation.Repair.Models.{RepairStopReason}

-- An entry of `result["checks"]`. What `get` reads without a default is an `Option`; a field with a
-- default holds the default where the key is missing.
pub record CheckDocument : Type 0 where
  pub id : String
  pub status : Option String
  pub severity : Option String
  pub reason_codes : List String

-- What the controller reads of result.json; `scope_status` is
-- `scope.get("status", scope.get("verdict", ""))`.
pub record ResultDocument : Type 0 where
  pub run_id : Option String
  pub verdict : String
  pub reason_codes : List String
  pub scope_status : String
  pub scope_reason_codes : List String
  pub checks : List CheckDocument
  pub base_commit : Option String
  pub candidate_tree : Option String
  pub patch_sha256 : Option String

-- `result_data` is `none` where the source has an empty dict.
pub record AttemptAssessment : Type 0 where
  pub eligible : Bool
  pub stop_reason : Option RepairStopReason
  pub verdict : String
  pub reason_codes : List String
  pub failed_check_ids : List String
  pub result_data : Option ResultDocument

-- `d.get(k) == s`
abbrev pub holds : Option String → String → Bool
holds none s = false
holds (some t) s = t == s

-- `_ALLOWED_FAIL_REASONS`
abbrev pub is_allowed_fail_reason : String → Bool
is_allowed_fail_reason r = mem r ("COMMAND_FAILED" ∷ "ASSERTION_FAILED" ∷ [])

abbrev pub is_scope_code : String → Bool
is_scope_code r = mem r ("PATH_FORBIDDEN" ∷ "PATH_OUTSIDE_ALLOWED" ∷ "PATH_REVIEW_REQUIRED" ∷ [])

-- What one turn of the loop over the checks does: return a refusal, note the check, or go on.
pub data CheckStep : Type 0 where
  refused noted passed_over : CheckStep

unfoldable pub check_step : CheckDocument → CheckStep
check_step c =
    if holds c.status "ERROR" || holds c.status "SKIPPED"
    then refused
    else if holds c.status "FAIL"
    then (if not (holds c.severity "blocking")
        then refused
        else if is_empty c.reason_codes || any (λ r. not (is_allowed_fail_reason r)) c.reason_codes
        then refused
        else noted)
    else passed_over

-- The loop over the checks: `none` where it returns early, else the failed checks in order.
unfoldable pub failed_checks : List CheckDocument → List String → Option (List String)
failed_checks [] failed = some failed
failed_checks (c ∷ checks) failed = elim (check_step c) [
  | refused ↦ none
  | noted ↦ failed_checks checks (failed ++ c.id ∷ [])
  | passed_over ↦ failed_checks checks failed
]

abbrev refuse : RepairStopReason → ResultDocument → AttemptAssessment
refuse reason doc = record {
  eligible = false;
  stop_reason = some reason;
  verdict = doc.verdict;
  reason_codes = doc.reason_codes;
  failed_check_ids = [];
  result_data = some doc;
}

-- The end of the function, on what the loop over the checks came to.
abbrev pub conclude : ResultDocument → Option (List String) → AttemptAssessment
conclude doc none = refuse RepairStopReason.ineligible_reason_codes doc
conclude doc (some []) = refuse RepairStopReason.ineligible_reason_codes doc
conclude doc (some (i ∷ ids)) = record {
  eligible = true;
  stop_reason = none;
  verdict = doc.verdict;
  reason_codes = doc.reason_codes;
  failed_check_ids = i ∷ ids;
  result_data = some doc;
}

-- The guards before the loop over the checks, in order.
unfoldable pub guard_stop : ResultDocument → Option RepairStopReason
guard_stop doc =
    if mem "POLICY_FILE_CHANGED" doc.reason_codes
      || mem "POLICY_FILE_CHANGED" doc.scope_reason_codes
    then some RepairStopReason.policy_changed
    else if mem "CONTROL_LAUNCHER_REVIEW" doc.reason_codes
    then some RepairStopReason.launcher_changed
    else if doc.verdict == "PASS"
    then some RepairStopReason.already_pass
    else if doc.verdict == "NEEDS_HUMAN"
    then some RepairStopReason.ineligible_verdict
    else if not (doc.verdict == "FAIL")
    then some RepairStopReason.ineligible_verdict
    else if not (doc.scope_status == "PASS") || any is_scope_code doc.reason_codes
    then some RepairStopReason.ineligible_reason_codes
    else none

-- The assessment of a document on what the guards came to.
abbrev pub assess_document : ResultDocument → Option RepairStopReason → AttemptAssessment
assess_document doc (some reason) = refuse reason doc
assess_document doc none = conclude doc (failed_checks doc.checks [])

-- The argument is `none` where `verify_run` or the reading of the two files raises.
unfoldable pub assess_attempt : Option ResultDocument → AttemptAssessment
unfolding guard_stop failed_checks check_step
assess_attempt none = record {
  eligible = false;
  stop_reason = some RepairStopReason.invalid_evidence;
  verdict = "ERROR";
  reason_codes = "INVALID_EVIDENCE" ∷ [];
  failed_check_ids = [];
  result_data = none;
}
assess_attempt (some doc) = assess_document doc (guard_stop doc)

-- `_evidence_matches_candidate`
unfoldable pub evidence_matches : AttemptAssessment → String → String → String → Bool
evidence_matches assessment base_commit candidate_tree patch_digest = elim assessment.result_data [
  | none ↦ false
  | some doc ↦
      holds doc.base_commit base_commit
      && (holds doc.candidate_tree candidate_tree && holds doc.patch_sha256 patch_digest)
]
