-- ===== src/Repair/Transitions.antt =====
-- The sessions that repair/controller.py computes: each `replace(session, ...)`, and the choice of
-- the next state after a gate run.
use blindspot_remediation.Prelude.{
  ℕ, String, Bool, false, ◌&&◌, Option, none, some, [], ◌∷◌, ◌++◌, leb, if◌then◌else◌, contains,
}
use blindspot_remediation.Policy.{Verdict, passes}
use blindspot_remediation.Repair.Models.{
  RepairState, RepairStopReason, RepairAttempt, RepairSession,
}
use blindspot_remediation.Repair.Workspace.{WorkspaceError, message}
use blindspot_remediation.Repair.Assessment.{AttemptAssessment, ResultDocument}

unfoldable pub verdict_value : Verdict → String
verdict_value Verdict.pass = "PASS"
verdict_value Verdict.fail = "FAIL"
verdict_value Verdict.needs_human = "NEEDS_HUMAN"

-- What `run_gate` returns and leaves behind: the name of the run's directory, the verdict, the
-- evidence as `assess_attempt` reads it, and the digests of the two files that exist.
pub record GateRun : Type 0 where
  pub name : String
  pub verdict : Verdict
  pub evidence : Option ResultDocument
  pub result_digest : Option String
  pub manifest_digest : Option String

-- `"0" * 64`
abbrev pub zero_digest : String
zero_digest = "0000000000000000000000000000000000000000000000000000000000000000"

abbrev pub digest_or_zero : Option String → String
digest_or_zero none = zero_digest
digest_or_zero (some digest) = digest

unfoldable pub approved : String → RepairSession → RepairSession
approved now session = record session {
  state = RepairState.repairing;
  next_action = "edit_workspace";
  updated_at = now;
}

unfoldable pub with_workspace : String → RepairSession → RepairSession
with_workspace path session = record session { workspace_path = some path }

-- `"repeated" in str(error)`
unfoldable pub workspace_stop_reason : WorkspaceError → RepairStopReason
unfolding message contains
workspace_stop_reason error =
    if contains "repeated" (message error)
    then RepairStopReason.repeated_candidate
    else RepairStopReason.ineligible_reason_codes

unfoldable pub stopped_by : WorkspaceError → String → RepairSession → RepairSession
unfolding workspace_stop_reason
stopped_by error now session = record session {
  state = RepairState.stopped;
  next_action = "none";
  updated_at = now;
  stop_reason = some (workspace_stop_reason error);
}

-- The assessment of a gate run whose evidence is about another candidate.
abbrev pub displaced : RepairStopReason → String → GateRun → AttemptAssessment → AttemptAssessment
displaced reason code gate assessment = record {
  eligible = false;
  stop_reason = some reason;
  verdict = verdict_value gate.verdict;
  reason_codes = code ∷ [];
  failed_check_ids = [];
  result_data = assessment.result_data;
}

unfoldable pub new_attempt :
    String → GateRun → String → String → String → AttemptAssessment → RepairAttempt
unfolding verdict_value
new_attempt label gate base_commit candidate_tree patch_digest assessment = record {
  candidate_label = label;
  gate_run_id = gate.name;
  base_commit = base_commit;
  candidate_tree = candidate_tree;
  patch_digest = patch_digest;
  result_digest = digest_or_zero gate.result_digest;
  manifest_digest = digest_or_zero gate.manifest_digest;
  verdict = verdict_value gate.verdict;
  reason_codes = assessment.reason_codes;
  failed_check_ids = assessment.failed_check_ids;
}

-- `assessment.stop_reason or RepairStopReason.INELIGIBLE_VERDICT`
abbrev or_ineligible : Option RepairStopReason → RepairStopReason
or_ineligible none = RepairStopReason.ineligible_verdict
or_ineligible (some reason) = reason

-- The state, the stop reason and the next action after a gate run.
pub record Decision : Type 0 where
  pub state : RepairState
  pub stop_reason : Option RepairStopReason
  pub next_action : String

unfoldable pub decide : Verdict → Bool → ℕ → ℕ → AttemptAssessment → Decision
decide verdict matches repairs_performed attempt_cap assessment =
    if passes verdict && matches
    then record {
      state = RepairState.awaiting_final_approval;
      stop_reason = none;
      next_action = "final_approval_and_apply";
    }
    else if leb attempt_cap repairs_performed
    then record {
      state = RepairState.stopped;
      stop_reason = some RepairStopReason.attempt_budget_exhausted;
      next_action = "none";
    }
    else if assessment.eligible
    then record {
      state = RepairState.repairing;
      stop_reason = none;
      next_action = "edit_workspace";
    }
    else record {
      state = RepairState.stopped;
      stop_reason = some (or_ineligible assessment.stop_reason);
      next_action = "none";
    }

unfoldable pub evaluated : RepairAttempt → Decision → String → RepairSession → RepairSession
evaluated attempt decision now session = record session {
  attempts = session.attempts ++ attempt ∷ [];
  state = decision.state;
  next_action = decision.next_action;
  stop_reason = decision.stop_reason;
  updated_at = now;
}

unfoldable pub applied : String → RepairSession → RepairSession
applied now session = record session {
  state = RepairState.applied;
  next_action = "none";
  updated_at = now;
}

unfoldable pub cancelled : String → RepairSession → RepairSession
cancelled now session = record session {
  state = RepairState.cancelled;
  next_action = "none";
  stop_reason = some RepairStopReason.cancelled_by_user;
  updated_at = now;
}
