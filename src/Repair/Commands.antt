-- ===== src/Repair/Commands.antt =====
-- The commands of repair/controller.py against the steps of the life cycle.
use blindspot_remediation.Prelude.{
  String, true, false, Option, some, ◌≡◌, refl, arith, Option-cases, inl, inr,
}
use blindspot_remediation.Repair.Models.{
  RepairState, RepairAttempt, RepairSession, is_terminal, FinalApproval,
}
use blindspot_remediation.Repair.Workspace.{
  Bytes, WorkspaceError, Export, ExportedCandidate, exported, refused, export_candidate,
}
use blindspot_remediation.Repair.Application.{Git}
use blindspot_remediation.Repair.Store.{Codec}
use blindspot_remediation.Repair.Actions.{
  ok, World, Action, ◌>>=◌, raise_unless, or_raise, read_session, command_failed, wrong_state,
}
use blindspot_remediation.Repair.Transitions.{
  GateRun, approved, with_workspace, stopped_by, applied, cancelled,
}
use blindspot_remediation.Repair.Controller.{
  ApprovalFile, approve_session, approve_repair, cancel_session, cancel_repair, get_workspace_path,
  is_repairing, is_awaiting_approval, is_awaiting_final, seen_trees, seen_patches,
}
use blindspot_remediation.Repair.Evaluation.{
  EvaluationAnswers, evaluate_export, evaluate_in, evaluate_session, evaluate_repair,
  stop_evaluation, judge_candidate, judged,
}
use blindspot_remediation.Repair.Apply.{
  FoundEvidence, check_application, check_approved, apply_checked, apply_session, apply_repair,
}
use blindspot_remediation.Repair.Lifecycle.{
  approve, relocate, halt, judge, conclude, cancel, Reach, here, next,
}
use blindspot_remediation.Repair.Returns.{
  bind_inv, raise_unless-returns, state_of_awaiting, state_of_repairing, state_of_final,
  Reach-trans, Advances,
}
use blindspot_remediation.Repair.Boundary.{export_candidate-IsAcceptable}

module _ {T : Type 0} (codec : Codec) (cleanup : String → Option WorkspaceError) where
  abbrev in_workspace : EvaluationAnswers → RepairSession → Action T RepairSession
  in_workspace answers s = get_workspace_path codec cleanup answers.workspace s >>= λ path.
      evaluate_in codec cleanup answers (with_workspace path s)

  cancel_session-returns :
      (now : String) (s t : RepairSession) (w w' : World T)
      → cancel_session codec cleanup now s w ≡ (ok t, w')
      → (is_terminal s.state ≡ false) × (t ≡ cancelled now s)
  unfolding cancel_session
  cancel_session-returns now s t w w' h = ground arith

  -- A session that `cancel_repair` returns is reached by steps of the life cycle from the session
  -- that it read.
  pub cancel_repair-Advances :
      (session_id now : String) (w w' : World T) (t : RepairSession)
      → cancel_repair codec cleanup session_id now w ≡ (ok t, w')
      → Advances codec session_id w t
  unfolding cancel_repair
  cancel_repair-Advances session_id now w w' t h =
      let (s, w'', found, k) =
        bind_inv (read_session codec session_id) (cancel_session codec cleanup now) w t w' h in
      let (still_open, e) = cancel_session-returns now s t w'' w' k in
      (s, w'', found, rw e (next here (cancel s now still_open)))

  approve_session-returns :
      (approval : ApprovalFile) (now : String) (s t : RepairSession) (w w' : World T)
      → approve_session codec cleanup approval now s w ≡ (ok t, w')
      → (is_awaiting_approval s.state ≡ true) × (t ≡ approved now s)
  unfolding approve_session
  approve_session-returns approval now s t w w' h = ground arith

  -- A session that `approve_repair` returns is reached by steps of the life cycle from the session
  -- that it read.
  pub approve_repair-Advances :
      (session_id : String) (approval : ApprovalFile) (now : String) (w w' : World T)
      (t : RepairSession)
      → approve_repair codec cleanup session_id approval now w ≡ (ok t, w')
      → Advances codec session_id w t
  unfolding approve_repair
  approve_repair-Advances session_id approval now w w' t h =
      let (s, w'', found, k) =
        bind_inv (read_session codec session_id) (approve_session codec cleanup approval now) w t w'
          h in
      let (waiting, e) = approve_session-returns approval now s t w'' w' k in
      (s, w'', found, rw e (next here (approve s now (state_of_awaiting s.state waiting))))

  stop_evaluation-returns :
      (error : WorkspaceError) (now : String) (s t : RepairSession) (w w' : World T)
      → stop_evaluation codec cleanup error now s w ≡ (ok t, w')
      → t ≡ stopped_by error now s
  unfolding stop_evaluation
  stop_evaluation-returns error now s t w w' h = ground arith

  judge_candidate-returns :
      (answers : EvaluationAnswers) (label : String) (s t : RepairSession) (c : ExportedCandidate)
      (w w' : World T)
      → judge_candidate codec cleanup answers label s c w ≡ (ok t, w')
      → (gate : GateRun) × (answers.gate ≡ some gate) × (t ≡ judged label answers.now s c gate)
  unfolding judge_candidate
  judge_candidate-returns answers label s t c w w' h = elim (Option-cases answers.gate) [
    | inl e ↦ absurd (ground arith)
    | inr (gate, e) ↦ (gate, e, ground arith)
  ]

  evaluate_export-Reach :
      (answers : EvaluationAnswers) (s t : RepairSession) (w w' : World T) (e : Export)
      → s.state ≡ RepairState.repairing
      → export_candidate codec.sha256_bytes
          (seen_trees s.attempts)
          (seen_patches s.attempts)
          s.approved_paths
          answers.export
        ≡ e
      → evaluate_export codec cleanup answers s e w ≡ (ok t, w')
      → Reach s t
  unfolding evaluate_export
  evaluate_export-Reach answers s t w w' (refused error) st x h =
      rw (stop_evaluation-returns error answers.now s t w w' h)
        (next here (halt s error answers.now st))
  evaluate_export-Reach answers s t w w' (exported c) st x h =
      let (gate, g, e) = judge_candidate-returns answers _ s t c w w' h in
      let ok_candidate =
        export_candidate-IsAcceptable codec.sha256_bytes (seen_trees s.attempts)
          (seen_patches s.attempts) s.approved_paths answers.export c x in
      rw e
        (next here (judge s _ answers.now c gate st ok_candidate.new_tree ok_candidate.new_patch))

  evaluate_in-Reach :
      (answers : EvaluationAnswers) (s t : RepairSession) (w w' : World T)
      → s.state ≡ RepairState.repairing
      → evaluate_in codec cleanup answers s w ≡ (ok t, w')
      → Reach s t
  unfolding evaluate_in
  evaluate_in-Reach answers s t w w' st h =
      let (b, w'', _, k) =
        bind_inv (or_raise answers.base_tree command_failed)
          (λ _. evaluate_export codec cleanup answers s _) w t w' h in
      evaluate_export-Reach answers s t w'' w' _ st refl k

  evaluate_session-Reach :
      (answers : EvaluationAnswers) (s t : RepairSession) (w w' : World T)
      → evaluate_session codec cleanup answers s w ≡ (ok t, w')
      → Reach s t
  unfolding evaluate_session with_workspace
  evaluate_session-Reach answers s t w w' h =
      let (_, w1, guard, rest) =
        bind_inv (raise_unless (is_repairing s.state) wrong_state) (λ _. in_workspace answers s) w t
          w' h in
      let repairing =
        state_of_repairing s.state (raise_unless-returns _ wrong_state w w1 _ guard) in
      let (path, w2, _, last_part) =
        bind_inv (get_workspace_path codec cleanup answers.workspace s)
          (λ path. evaluate_in codec cleanup answers (with_workspace path s)) w1 t w' rest in
      Reach-trans (next here (relocate s path (rw repairing refl)))
        (evaluate_in-Reach answers (with_workspace path s) t w2 w' repairing last_part)

  -- A session that `evaluate_repair` returns is reached by steps of the life cycle from the
  -- session that it read.
  pub evaluate_repair-Advances :
      (session_id : String) (answers : EvaluationAnswers) (w w' : World T) (t : RepairSession)
      → evaluate_repair codec cleanup session_id answers w ≡ (ok t, w')
      → Advances codec session_id w t
  unfolding evaluate_repair
  evaluate_repair-Advances session_id answers w w' t h =
      let (s, w'', found, k) =
        bind_inv (read_session codec session_id) (evaluate_session codec cleanup answers) w t w'
          h in
      (s, w'', found, evaluate_session-Reach answers s t w'' w' k)

module _ {T : Type 0} (codec : Codec) (cleanup : String → Option WorkspaceError) (git : Git T) where
  check_application-is_awaiting_final :
      (s : RepairSession) (approval : Option FinalApproval) (found : FoundEvidence)
      (checked : RepairAttempt × FinalApproval × Bytes × Bytes) (w w' : World T)
      → check_application codec cleanup git s approval found w ≡ (ok checked, w')
      → is_awaiting_final s.state ≡ true
  unfolding check_application
  check_application-is_awaiting_final s approval found checked w w' h =
      let (_, w1, guard, _) =
        bind_inv (raise_unless (is_awaiting_final s.state) wrong_state)
          (λ _. check_approved codec cleanup git s approval found) w checked w' h in
      raise_unless-returns _ wrong_state w w1 _ guard

  apply_checked-returns :
      (now : String) (s t : RepairSession) (passing : RepairAttempt) (approval : FinalApproval)
      (original final : Bytes) (w w' : World T)
      → apply_checked codec cleanup git now s (passing, approval, original, final) w ≡ (ok t, w')
      → t ≡ applied now s
  unfolding apply_checked
  apply_checked-returns now s t passing approval original final w w' h = ground arith

  -- A session that `apply_repair` returns is reached by steps of the life cycle from the session
  -- that it read.
  pub apply_repair-Advances :
      (session_id : String) (approval : Option FinalApproval) (found : FoundEvidence) (now : String)
      (w w' : World T) (t : RepairSession)
      → apply_repair codec cleanup git session_id approval found now w ≡ (ok t, w')
      → Advances codec session_id w t
  unfolding apply_repair apply_session
  apply_repair-Advances session_id approval found now w w' t h =
      let (s, w1, read, k) =
        bind_inv (read_session codec session_id)
          (apply_session codec cleanup git approval found now) w t w' h in
      let ((passing, final_approval, original, final), w2, checked, k') =
        bind_inv (check_application codec cleanup git s approval found)
          (apply_checked codec cleanup git now s) w1 t w' k in
      let waiting = check_application-is_awaiting_final s approval found _ w1 w2 checked in
      (
        s,
        w1,
        read,
        rw (apply_checked-returns now s t passing final_approval original final w2 w' k')
            (next here (conclude s now (state_of_final s.state waiting))),
      )
