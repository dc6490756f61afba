-- ===== src/Repair/CommandTests.antt =====
-- Runs of the commands and of the application of a candidate on the sample sessions.
use blindspot_remediation.Prelude.{
  true, none, some, [], ◌∷◌, contains, has_prefix, ◌≡◌, refl, arith,
}
use blindspot_remediation.Policy.{Verdict}
use blindspot_remediation.Repair.Models.{RepairSession}
use blindspot_remediation.Repair.Workspace.{export_candidate}
use blindspot_remediation.Repair.Application.{apply_candidate_to_source}
use blindspot_remediation.Repair.Rollback.{IsTransaction, apply_candidate_to_source-IsTransaction}
use blindspot_remediation.Repair.Store.{with_manifest, verify_manifest}
use blindspot_remediation.Repair.Actions.{read_session}
use blindspot_remediation.Repair.Transitions.{approved, applied, cancelled}
use blindspot_remediation.Repair.Controller.{get_workspace_path}
use blindspot_remediation.Repair.Evaluation.{
  EvaluationAnswers, evaluate_repair, evaluate_session, evaluate_in, evaluate_export,
  judge_candidate, judged,
}
use blindspot_remediation.Repair.Apply.{
  FoundEvidence, apply_session, check_application, check_approved, is_evidence_of, apply_checked,
  apply_repair,
}
use blindspot_remediation.Repair.Lifecycle.{here, next, approve, cancel, IsValid, Reach-IsValid}
use blindspot_remediation.Repair.Returns.{Advances}
use blindspot_remediation.Repair.Commands.{evaluate_repair-Advances}
use blindspot_remediation.Repair.Samples.{
  digest, c0, c1, waiting, repairing, accepted, codec, cleanup, git, approval, world, passing_run,
  git-Reversible,
}
use blindspot_remediation.Repair.Applied.{HasCandidate, apply_repair-HasCandidate}
use blindspot_remediation.Repair.Controller.{last, cleanup_terminal_workspace}
use blindspot_remediation.Repair.Actions.{World, ok}
use blindspot_remediation.Repair.Models.{RepairAttempt, RepairSession}
use blindspot_remediation.Prelude.{ℕ, true, ◌≡◌}

apply_candidate_to_source-IsTransaction_example :
    IsTransaction git c1 1
      (apply_candidate_to_source git (1 ∷ []) (1 ∷ (2 ∷ [])) digest c0 c1 approval 1)
apply_candidate_to_source-IsTransaction_example =
    apply_candidate_to_source-IsTransaction git git-Reversible (1 ∷ []) (1 ∷ (2 ∷ [])) c1 digest c0
      approval 1

-- The original patch, of length 1, makes way for the final one, of length 2.
apply_two :
    apply_candidate_to_source git (1 ∷ []) (1 ∷ (2 ∷ [])) digest c0 c1 approval 1 ≡ (none, 2)
unfolding apply_candidate_to_source
apply_two = refl

waiting-IsValid : IsValid waiting
waiting-IsValid = ground arith

Reach-IsValid_example : IsValid (cancelled "later" (approved "now" waiting))
unfolding approved
Reach-IsValid_example =
    Reach-IsValid waiting-IsValid
      (next (next here (approve waiting "now" refl)) (cancel (approved "now" waiting) "later" refl))

abbrev answers : EvaluationAnswers
answers = record {
  workspace = record { intact = λ p. true; rebuild = λ p. some "workspace" };
  base_tree = some "base-tree";
  export = record {
    written_tree = some "r";
    diff = some (1 ∷ (2 ∷ []));
    name_status = some ("a" ∷ []);
    error_text = "";
  };
  gate = some (record {
    name = "run";
    verdict = Verdict.pass;
    evidence = some passing_run;
    result_digest = some "result";
    manifest_digest = some "manifest";
  });
  now = "later";
}

abbrev evaluated_session : RepairSession
evaluated_session = record accepted { updated_at = "later"; workspace_path = some "workspace" }

evaluate_repair-Advances_example : Advances codec "rep-1" (world repairing) evaluated_session
unfolding evaluate_repair read_session verify_manifest with_manifest has_prefix contains
    evaluate_session get_workspace_path evaluate_in evaluate_export export_candidate judge_candidate
    judged
evaluate_repair-Advances_example =
    evaluate_repair-Advances codec cleanup "rep-1" answers (world repairing)
      ((evaluate_repair codec cleanup "rep-1" answers (world repairing)).1) evaluated_session refl

abbrev found : FoundEvidence
found = record {
  evidence = some passing_run;
  result_digest = some "result";
  manifest_digest = some "manifest";
}

abbrev after_apply : World ℕ
after_apply =
    (apply_repair codec cleanup git "rep-1" (some approval) found "later" (world accepted)).1

apply_repair-HasCandidate_example :
    (s : RepairSession) × (w : World ℕ) × (passing : RepairAttempt) × (read_session codec "rep-1"
        (world accepted)
      ≡ (ok s, w))
    × (last s.attempts ≡ some passing)
    × (passing.verdict ≡ "PASS")
    × (is_evidence_of s passing found ≡ true)
    × HasCandidate codec cleanup git passing after_apply
unfolding apply_repair read_session verify_manifest with_manifest has_prefix contains applied
    apply_session check_application check_approved is_evidence_of apply_checked
    apply_candidate_to_source cleanup_terminal_workspace
apply_repair-HasCandidate_example =
    apply_repair-HasCandidate codec cleanup git git-Reversible "rep-1" (some approval) found "later"
      (world accepted) after_apply (applied "later" accepted) refl
