-- ===== src/Repair/Summary.antt =====
-- The reports of repair/controller.py: the summary of a session and the lesson of a repair.
use Prim.Native.String.{◌++◌, slice}
use blindspot_remediation.Prelude.{
  ℕ, String, Option, none, some, List, [], ◌∷◌, length, if◌then◌else◌, ◌==◌, join,
}
use mathlib.Core.List.{◌++◌ as append}
use blindspot_remediation.Repair.Models.{
  RepairState, RepairStopReason, RepairAttempt, RepairSession,
}

-- The values of the two `StrEnum`s.
unfoldable pub state_value : RepairState → String
state_value RepairState.awaiting_approval = "awaiting_approval"
state_value RepairState.repairing = "repairing"
state_value RepairState.awaiting_final_approval = "awaiting_final_approval"
state_value RepairState.stopped = "stopped"
state_value RepairState.cancelled = "cancelled"
state_value RepairState.applied = "applied"

unfoldable pub reason_value : RepairStopReason → String
reason_value RepairStopReason.already_pass = "already_pass"
reason_value RepairStopReason.ineligible_verdict = "ineligible_verdict"
reason_value RepairStopReason.ineligible_reason_codes = "ineligible_reason_codes"
reason_value RepairStopReason.policy_changed = "policy_changed"
reason_value RepairStopReason.launcher_changed = "launcher_changed"
reason_value RepairStopReason.harness_changed = "harness_changed"
reason_value RepairStopReason.invalid_evidence = "invalid_evidence"
reason_value RepairStopReason.attempt_budget_exhausted = "attempt_budget_exhausted"
reason_value RepairStopReason.repeated_candidate = "repeated_candidate"
reason_value RepairStopReason.source_changed = "source_changed"
reason_value RepairStopReason.rollback_failed = "rollback_failed"
reason_value RepairStopReason.cancelled_by_user = "cancelled_by_user"

abbrev or_none : String → String
or_none s = if s == "" then "none" else s

attempt_line : RepairAttempt → String
attempt_line attempt =
    "- **"
    ++ (attempt.candidate_label
        ++ ("** (Run `"
            ++ (attempt.gate_run_id
                ++ ("`): verdict **`"
                    ++ (attempt.verdict
                        ++ ("`**, failed checks: `"
                            ++ (or_none (join ", " attempt.failed_check_ids) ++ "`")))))))

attempt_lines : List RepairAttempt → List String
attempt_lines [] = []
attempt_lines (a ∷ attempts) = attempt_line a ∷ attempt_lines attempts

stop_text : Option RepairStopReason → String
stop_text none = "none"
stop_text (some reason) = reason_value reason

-- `_generate_summary_md`; the first argument is `str` of a number.
unfoldable pub generate_summary_md : (ℕ → String) → RepairSession → String
unfolding attempt_lines attempt_line stop_text state_value reason_value
generate_summary_md decimal session = join "\n" (
    append
      (("# Release Gate Repair Summary: " ++ session.session_id)
        ∷ ""
        ∷ ("- **Status**: `" ++ (state_value session.state ++ "`"))
        ∷ ("- **Base Ref**: `"
            ++ (session.base_ref ++ ("` (`" ++ (slice session.base_commit 0 8 ++ "`)"))))
        ∷ ("- **Attempts**: " ++ decimal (length session.attempts))
        ∷ ("- **Stop Reason**: `" ++ (stop_text session.stop_reason ++ "`"))
        ∷ ""
        ∷ "## Lineage"
        ∷ ""
        ∷ [])
      (append (attempt_lines session.attempts) ("" ∷ [])))

lesson_lines : List RepairAttempt → List String
lesson_lines [] = []
lesson_lines (a ∷ attempts) =
    if a.verdict == "PASS"
    then ("- Candidate `" ++ (a.candidate_label ++ "` resolved previous failures."))
      ∷ lesson_lines attempts
    else lesson_lines attempts

-- `_generate_lesson_md`
unfoldable pub generate_lesson_md : RepairSession → String
unfolding lesson_lines
generate_lesson_md session = join "\n" (
    append
      (("# Repair Lesson Proposal: " ++ session.session_id)
        ∷ ""
        ∷ "The following repair attempt succeeded and passed the gate:"
        ∷ ""
        ∷ [])
      (append (lesson_lines session.attempts)
        ("" ∷ "Consider updating local tests or playbooks to document this pattern." ∷ "" ∷ [])))
