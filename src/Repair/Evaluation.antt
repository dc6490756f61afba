-- ===== src/Repair/Evaluation.antt =====
-- release-gate/src/release_gate/repair/controller.py: `evaluate_repair`, from the export of the
-- candidate to the session that the gate run leads to.
use Prim.Native.String.{◌++◌}
use blindspot_remediation.Prelude.{String, Option, length, if◌then◌else◌}
use blindspot_remediation.Repair.Models.{RepairStopReason, RepairSession}
use blindspot_remediation.Repair.Assessment.{AttemptAssessment, assess_attempt, evidence_matches}
use blindspot_remediation.Repair.Workspace.{
  WorkspaceError, Export, ExportedCandidate, exported, refused, ExportAnswers, export_candidate,
}
use blindspot_remediation.Repair.Store.{Codec}
use blindspot_remediation.Repair.Summary.{generate_lesson_md}
use blindspot_remediation.Repair.Transitions.{
  GateRun, with_workspace, stopped_by, displaced, new_attempt, decide, evaluated,
}
use blindspot_remediation.Repair.Actions.{
  wrong_state, command_failed, Action, pure, ◌>>=◌, ◌>>◌, raise_unless, or_raise, write_bytes,
  write_lesson_proposal, write_manifest, read_session,
}
use blindspot_remediation.Repair.Controller.{
  WorkspaceAnswers, seen_trees, seen_patches, is_repairing, is_awaiting_final, save_session,
  cleanup_terminal_workspace, get_workspace_path,
}

-- What the environment answers while `evaluate_repair` runs; `gate` is `none` where it raises.
pub record EvaluationAnswers : Type 0 where
  pub workspace : WorkspaceAnswers
  pub base_tree : Option String
  pub export : ExportAnswers
  pub gate : Option GateRun
  pub now : String

-- The assessment that `evaluate_repair` records.
unfoldable pub assess_candidate : RepairSession → ExportedCandidate → GateRun → AttemptAssessment
unfolding assess_attempt evidence_matches
assess_candidate session c gate =
    let assessment = assess_attempt gate.evidence in
    if evidence_matches assessment session.base_commit c.candidate_tree c.patch_sha256
    then assessment
    else displaced RepairStopReason.ineligible_reason_codes "WORKSPACE_CHANGED" gate assessment

-- The session after the gate has judged the candidate.
unfoldable pub judged :
    String → String → RepairSession → ExportedCandidate → GateRun → RepairSession
unfolding assess_candidate decide new_attempt evaluated
judged label now session c gate =
    let assessment = assess_candidate session c gate in
    let attempt =
      new_attempt label gate session.base_commit c.candidate_tree c.patch_sha256 assessment in
    let decision =
      decide gate.verdict
        (evidence_matches (assess_attempt gate.evidence) session.base_commit c.candidate_tree
          c.patch_sha256)
        (length session.attempts) session.attempt_cap assessment in
    evaluated attempt decision now session

module _ {T : Type 0} (codec : Codec) (cleanup : String → Option WorkspaceError) where
  -- The export was refused: the session stops.
  unfoldable pub stop_evaluation : WorkspaceError → String → RepairSession → Action T RepairSession
  unfolding cleanup_terminal_workspace
  stop_evaluation error now session = do
    let stopped = stopped_by error now session
    save_session codec cleanup stopped
    cleanup_terminal_workspace codec cleanup stopped
    pure stopped

  -- A lesson is proposed once the gate has passed.
  abbrev propose_lesson : RepairSession → Action T (Unit {0})
  propose_lesson session =
      if is_awaiting_final session.state
      then write_lesson_proposal codec (generate_lesson_md session)
      else pure tt

  -- The gate runs on the exported candidate, and the session goes on, ends or stops.
  unfoldable pub judge_candidate :
      EvaluationAnswers → String → RepairSession → ExportedCandidate → Action T RepairSession
  unfolding cleanup_terminal_workspace
  judge_candidate answers label session c = do
    write_bytes (label ++ ".patch") c.patch
    write_manifest codec session.session_id
    gate ← or_raise answers.gate command_failed
    let updated = judged label answers.now session c gate
    propose_lesson updated
    save_session codec cleanup updated
    cleanup_terminal_workspace codec cleanup updated
    pure updated

  -- `evaluate_repair` on what the export of the candidate came to.
  unfoldable pub evaluate_export :
      EvaluationAnswers → RepairSession → Export → Action T RepairSession
  evaluate_export answers session (refused error) = stop_evaluation error answers.now session
  evaluate_export answers session (exported c) =
      judge_candidate answers ("C" ++ codec.decimal (length session.attempts)) session c

  -- `evaluate_repair` once the workspace is there.
  unfoldable pub evaluate_in : EvaluationAnswers → RepairSession → Action T RepairSession
  evaluate_in answers session = do
    or_raise answers.base_tree command_failed
    evaluate_export answers session (
        export_candidate codec.sha256_bytes (seen_trees session.attempts)
          (seen_patches session.attempts) session.approved_paths answers.export)

  -- `evaluate_repair` on the session that it read.
  unfoldable pub evaluate_session : EvaluationAnswers → RepairSession → Action T RepairSession
  evaluate_session answers read = do
    raise_unless (is_repairing read.state) wrong_state
    path ← get_workspace_path codec cleanup answers.workspace read
    evaluate_in answers (with_workspace path read)

  unfoldable pub evaluate_repair : String → EvaluationAnswers → Action T RepairSession
  evaluate_repair session_id answers = read_session codec session_id >>= evaluate_session answers
