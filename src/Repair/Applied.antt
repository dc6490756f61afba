-- ===== src/Repair/Applied.antt =====
-- `apply_repair` of repair/controller.py: what a session that was applied rests on.
use blindspot_remediation.Prelude.{String, true, Option, none, some, ◌≡◌, arith, eq_iff}
use blindspot_remediation.Repair.Models.{RepairAttempt, RepairSession, FinalApproval}
use blindspot_remediation.Repair.Workspace.{Bytes, WorkspaceError}
use blindspot_remediation.Repair.Application.{
  Git, Reversible, is_candidate, apply_candidate_to_source,
}
use blindspot_remediation.Repair.Rollback.{IsTransaction, apply_candidate_to_source-IsTransaction}
use blindspot_remediation.Repair.Store.{Codec}
use blindspot_remediation.Repair.Actions.{
  ok, World, ◌>>◌, or_raise, no_passing_candidate, raise_unless, wrong_state, read_session,
}
use blindspot_remediation.Repair.Returns.{bind_inv}
use blindspot_remediation.Repair.Controller.{last, is_awaiting_final, cleanup_terminal_workspace}
use blindspot_remediation.Repair.Apply.{
  outcome_of, FoundEvidence, is_evidence_of, first, apply_to_worktree, check_approved,
  check_application, finish_application, apply_checked, apply_session, apply_repair,
}

module _ {T : Type 0} (codec : Codec) (cleanup : String → Option WorkspaceError) (git : Git T) where
  -- The capture of the worktree is the candidate of the attempt.
  abbrev pub HasCandidate : RepairAttempt → World T → Type 0
  HasCandidate passing w =
      (c : String × String) × (git.capture true w.worktree ≡ some c)
      × (is_candidate passing c ≡ true)

  apply_to_worktree-HasCandidate :
      (laws : Reversible git) (c0 passing : RepairAttempt) (approval : FinalApproval)
      (original final : Bytes) (w w' : World T) (u : Unit {0})
      → apply_to_worktree codec cleanup git c0 passing approval original final w ≡ (ok u, w')
      → HasCandidate passing w'
  unfolding apply_to_worktree
  apply_to_worktree-HasCandidate laws c0 passing approval original final w w' u h =
      split
        (apply_candidate_to_source git original final codec.sha256_bytes c0 passing approval
          w.worktree)
        (apply_candidate_to_source-IsTransaction git laws original final passing codec.sha256_bytes
          c0 approval w.worktree)
        h
    where
      split :
          (o : Option WorkspaceError × T)
          → IsTransaction git passing w.worktree o
          → outcome_of codec cleanup git w o ≡ (ok u, w')
          → HasCandidate passing w'
      split (none, t) (c, e, m) k =
          let same : t ≡ w'.worktree = ground arith in (c, rw (← same) e, m)
      split (some error, t) i k = cc

  finish_application-worktree :
      (now : String) (s t : RepairSession) (w w' : World T)
      → finish_application codec cleanup git now s w ≡ (ok t, w')
      → w'.worktree ≡ w.worktree
  unfolding cleanup_terminal_workspace
  finish_application-worktree now s t w w' h = ground arith

  apply_checked-HasCandidate :
      (laws : Reversible git) (now : String) (s t : RepairSession) (passing : RepairAttempt)
      (approval : FinalApproval) (original final : Bytes) (w w' : World T)
      → apply_checked codec cleanup git now s (passing, approval, original, final) w ≡ (ok t, w')
      → HasCandidate passing w'
  unfolding apply_checked
  apply_checked-HasCandidate laws now s t passing approval original final w w' h =
      let (c0, w1, _, k) =
        bind_inv (or_raise (first codec cleanup git s.attempts) no_passing_candidate)
          (λ c0.
            apply_to_worktree codec cleanup git c0 passing approval original final
            >> finish_application codec cleanup git now s)
          _ t w' h in
      let (_, w2, done, k') =
        bind_inv (apply_to_worktree codec cleanup git c0 passing approval original final)
          (λ _. finish_application codec cleanup git now s) w1 t w' k in
      let (c, e, m) =
        apply_to_worktree-HasCandidate laws c0 passing approval original final w1 w2 _ done in
      (c, rw (finish_application-worktree now s t w2 w' k') e, m)

  check_approved-evidence :
      (s : RepairSession) (file : Option FinalApproval) (found : FoundEvidence)
      (passing : RepairAttempt) (approval : FinalApproval) (original final : Bytes) (w w' : World T)
      → check_approved codec cleanup git s file found w
        ≡ (ok (passing, approval, original, final), w')
      → (last s.attempts ≡ some passing)
        × (passing.verdict ≡ "PASS")
        × (is_evidence_of s passing found ≡ true)
  unfolding check_approved
  check_approved-evidence s file found passing approval original final w w' h =
      ground (arith, eq_iff passing.verdict "PASS")

  -- Where `apply_repair` returns, and patches that git applied can be reversed and reversed ones
  -- applied, the session that it read has a last attempt that passed, the evidence that was found
  -- is that of this attempt, and the capture of the worktree is its candidate.
  pub apply_repair-HasCandidate :
      (laws : Reversible git) (session_id : String) (file : Option FinalApproval)
      (found : FoundEvidence) (now : String) (w w' : World T) (t : RepairSession)
      → apply_repair codec cleanup git session_id file found now w ≡ (ok t, w')
      → (s : RepairSession) × (w'' : World T) × (passing : RepairAttempt) × (read_session codec
            session_id w
          ≡ (ok s, w''))
        × (last s.attempts ≡ some passing)
        × (passing.verdict ≡ "PASS")
        × (is_evidence_of s passing found ≡ true)
        × HasCandidate passing w'
  unfolding apply_repair apply_session check_application
  apply_repair-HasCandidate laws session_id file found now w w' t h =
      let (s, w1, read, k) =
        bind_inv (read_session codec session_id) (apply_session codec cleanup git file found now) w
          t w' h in
      let ((passing, approval, original, final), w2, checked, k') =
        bind_inv (check_application codec cleanup git s file found)
          (apply_checked codec cleanup git now s) w1 t w' k in
      let (_, w3, _, rest) =
        bind_inv (raise_unless (is_awaiting_final s.state) wrong_state)
          (λ _. check_approved codec cleanup git s file found) w1
          (passing, approval, original, final) w2 checked in
      let (e, v, f) =
        check_approved-evidence s file found passing approval original final w3 w2 rest in
      (
        s,
        w1,
        passing,
        read,
        e,
        v,
        f,
        apply_checked-HasCandidate laws now s t passing approval original final w2 w' k',
      )
