-- ===== src/Repair/Models.antt =====
-- release-gate/src/release_gate/repair/models.py: the states and records of a repair session.
use blindspot_remediation.Prelude.{ℕ, String, Bool, true, false, Option, List}

pub data RepairState : Type 0 where
  awaiting_approval repairing awaiting_final_approval stopped cancelled applied : RepairState

pub data RepairStopReason : Type 0 where
  already_pass ineligible_verdict ineligible_reason_codes policy_changed : RepairStopReason
  launcher_changed harness_changed invalid_evidence : RepairStopReason
  attempt_budget_exhausted repeated_candidate source_changed : RepairStopReason
  rollback_failed cancelled_by_user : RepairStopReason

pub record RepairAttempt : Type 0 where
  pub candidate_label : String
  pub gate_run_id : String
  pub base_commit : String
  pub candidate_tree : String
  pub patch_digest : String
  pub result_digest : String
  pub manifest_digest : String
  pub verdict : String
  pub reason_codes : List String
  pub failed_check_ids : List String

-- The text for the user, `explanation`, is left out.
pub record ApprovalRequest : Type 0 where
  pub session_id : String
  pub base_ref : String
  pub base_commit : String
  pub failed_check_ids : List String
  pub approved_paths : List String
  pub attempt_cap : ℕ

pub record FinalApproval : Type 0 where
  pub session_id : String
  pub final_candidate_tree : String
  pub final_patch_digest : String
  pub approved_at : String

pub record RepairSession : Type 0 where
  pub version : ℕ
  pub session_id : String
  pub repo_path : String
  pub base_ref : String
  pub base_commit : String
  pub approved_paths : List String
  pub attempt_cap : ℕ
  pub attempts : List RepairAttempt
  pub state : RepairState
  pub next_action : String
  pub created_at : String
  pub updated_at : String
  pub stop_reason : Option RepairStopReason
  pub workspace_path : Option String

-- `session.state in {APPLIED, CANCELLED, STOPPED}`
abbrev pub is_terminal : RepairState → Bool
is_terminal RepairState.stopped = true
is_terminal RepairState.cancelled = true
is_terminal RepairState.applied = true
is_terminal _ = false
