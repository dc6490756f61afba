-- ===== src/Repair/Apply.antt =====
-- release-gate/src/release_gate/repair/controller.py: `apply_repair`, which puts the candidate that
-- passed the gate into the source worktree.
use Prim.Native.String.{◌++◌}
use blindspot_remediation.Prelude.{String, Bool, ◌&&◌, Option, none, some, List, [], ◌∷◌, ◌==◌}
use blindspot_remediation.Repair.Models.{RepairAttempt, FinalApproval, RepairSession}
use blindspot_remediation.Repair.Assessment.{
  ResultDocument, holds, assess_attempt, evidence_matches,
}
use blindspot_remediation.Repair.Workspace.{Bytes, WorkspaceError}
use blindspot_remediation.Repair.Application.{Git, apply_candidate_to_source}
use blindspot_remediation.Repair.Store.{Codec}
use blindspot_remediation.Repair.Transitions.{applied}
use blindspot_remediation.Repair.Controller.{
  last, is_awaiting_final, save_session, cleanup_terminal_workspace,
}
use blindspot_remediation.Repair.Actions.{
  wrong_state, approval_malformed, session_id_mismatch, no_passing_candidate, evidence_mismatch,
  patch_missing, patch_digest_mismatch, workspace_failed, ok, err, Action, pure, ◌>>=◌, ◌>>◌,
  raise_unless, or_raise, Result, World, read_bytes, write_final_approval, write_manifest,
  read_session,
}

-- The evidence of the passing run as it is found again. A file that is missing has no digest.
pub record FoundEvidence : Type 0 where
  pub evidence : Option ResultDocument
  pub result_digest : Option String
  pub manifest_digest : Option String

abbrev run_id_of : Option ResultDocument → Option String
run_id_of none = none
run_id_of (some doc) = doc.run_id

-- The evidence is still that of the passing attempt, and of the session's base.
unfoldable pub is_evidence_of : RepairSession → RepairAttempt → FoundEvidence → Bool
unfolding assess_attempt evidence_matches
is_evidence_of session passing found =
    let assessment = assess_attempt found.evidence in
    assessment.verdict == "PASS"
    && (passing.base_commit == session.base_commit
        && (holds (run_id_of assessment.result_data) passing.gate_run_id
            && (evidence_matches assessment session.base_commit passing.candidate_tree
                  passing.patch_digest
                && (holds found.result_digest passing.result_digest
                    && holds found.manifest_digest passing.manifest_digest))))

module _ {T : Type 0} (codec : Codec) (cleanup : String → Option WorkspaceError) (git : Git T) where
  -- The result of the call, and the worktree that it left.
  abbrev pub outcome_of : World T → Option WorkspaceError × T → Result (Unit {0}) × World T
  outcome_of w (none, t) = (ok tt, record w { worktree = t })
  outcome_of w (some error, t) = (err (workspace_failed error), record w { worktree = t })

  -- `apply_candidate_to_source` on the worktree of the state.
  unfoldable pub apply_to_worktree :
      RepairAttempt → RepairAttempt → FinalApproval → Bytes → Bytes → Action T (Unit {0})
  apply_to_worktree c0_attempt passing approval original_patch final_patch w = outcome_of w (
      apply_candidate_to_source git original_patch final_patch codec.sha256_bytes c0_attempt passing
        approval w.worktree)

  -- The checks on a session that awaits its application, and the reads before the first write.
  unfoldable pub check_approved :
      RepairSession
      → Option FinalApproval
      → FoundEvidence
      → Action T (RepairAttempt × FinalApproval × Bytes × Bytes)
  check_approved session approval_file found = do
    approval ← or_raise approval_file approval_malformed
    raise_unless (approval.session_id == session.session_id) session_id_mismatch
    passing ← or_raise (last session.attempts) no_passing_candidate
    raise_unless (passing.verdict == "PASS") no_passing_candidate
    raise_unless (is_evidence_of session passing found) evidence_mismatch
    final_patch ← read_bytes (passing.candidate_label ++ ".patch") patch_missing
    raise_unless (codec.sha256_bytes final_patch == passing.patch_digest) patch_digest_mismatch
    original_patch ← read_bytes "C0.patch" patch_missing
    pure (passing, approval, original_patch, final_patch)

  -- The passing attempt, the approval and the two patches, where every check succeeds.
  unfoldable pub check_application :
      RepairSession
      → Option FinalApproval
      → FoundEvidence
      → Action T (RepairAttempt × FinalApproval × Bytes × Bytes)
  check_application session approval_file found =
      raise_unless (is_awaiting_final session.state) wrong_state
      >> check_approved session approval_file found

  abbrev pub first : List RepairAttempt → Option RepairAttempt
  first [] = none
  first (a ∷ attempts) = some a

  -- The end of `apply_repair`, once the source was changed.
  abbrev pub finish_application : String → RepairSession → Action T RepairSession
  finish_application now session = do
    save_session codec cleanup (applied now session)
    cleanup_terminal_workspace codec cleanup (applied now session)
    pure (applied now session)

  -- `apply_repair` after its checks.
  unfoldable pub apply_checked :
      String
      → RepairSession
      → RepairAttempt × FinalApproval × Bytes × Bytes
      → Action T RepairSession
  unfolding apply_to_worktree
  apply_checked now session (passing, approval, original_patch, final_patch) = do
    write_final_approval codec approval
    write_manifest codec session.session_id
    c0_attempt ← or_raise (first session.attempts) no_passing_candidate
    apply_to_worktree c0_attempt passing approval original_patch final_patch
    finish_application now session

  -- `apply_repair` on the session that it read.
  unfoldable pub apply_session :
      Option FinalApproval → FoundEvidence → String → RepairSession → Action T RepairSession
  apply_session approval_file found now session =
      check_application session approval_file found >>= apply_checked now session

  unfoldable pub apply_repair :
      String → Option FinalApproval → FoundEvidence → String → Action T RepairSession
  apply_repair session_id approval_file found now =
      read_session codec session_id >>= apply_session approval_file found now
