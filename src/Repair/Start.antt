-- ===== src/Repair/Start.antt =====
-- release-gate/src/release_gate/repair/controller.py: `start_repair`, from the gate run on the
-- candidate C0 to the session that awaits approval or has stopped.
use Prim.Native.Char.{code}
use blindspot_remediation.Prelude.{
  ℕ, String, Bool, true, false, not, ◌&&◌, ◌||◌, Option, none, some, List, [], ◌∷◌, suc, leb,
  nat_beq, if◌then◌else◌,
}
use blindspot_remediation.Config.{Scope}
use blindspot_remediation.Policy.{Matcher}
use blindspot_remediation.Repair.Models.{
  RepairState, RepairStopReason, RepairAttempt, ApprovalRequest, RepairSession,
}
use blindspot_remediation.Repair.Assessment.{AttemptAssessment, assess_attempt, evidence_matches}
use blindspot_remediation.Repair.Workspace.{Bytes, WorkspaceError, failed, compute_approved_paths}
use blindspot_remediation.Repair.Store.{Codec, Directory}
use blindspot_remediation.Repair.Playbooks.{has_harness_changes}
use blindspot_remediation.Repair.Transitions.{GateRun, displaced, new_attempt}
use blindspot_remediation.Repair.Controller.{save_session}
use blindspot_remediation.Repair.Actions.{
  invalid_session_id, session_exists, workspace_failed, Action, pure, ◌>>=◌, ◌>>◌, raise_unless,
  or_raise, write_bytes, on_directory, write_approval_request,
}

-- `capture_candidate`: what is read of the candidate C0.
pub record Capture : Type 0 where
  pub base_commit : String
  pub candidate_tree : String
  pub patch : Bytes
  pub patch_sha256 : String
  pub changed_paths : List String
  pub scope : Option Scope

-- What the environment answers while `start_repair` runs.
pub record StartAnswers : Type 0 where
  pub gate : GateRun
  pub capture : Capture
  pub directory_exists : Bool
  pub playbook_paths : List String → List String
  pub new_workspace : Option String
  pub now : String

abbrev in_range : ℕ → ℕ → ℕ → Bool
in_range lo c hi = leb lo c && leb c hi

is_alphanumeric : ℕ → Bool
is_alphanumeric c = in_range b'A' c b'Z' || (in_range b'a' c b'z' || in_range b'0' c b'9')

is_followed : String → Bool
is_followed String.[] = false
is_followed (String.◌∷◌ d r) = true

-- What follows the first character of `_SESSION_ID` behind "rep-": at most so many characters of
-- `[A-Za-z0-9._-]`, the last of them no dot.
is_tail : ℕ → String → Bool
unfolding is_alphanumeric is_followed
is_tail n String.[] = true
is_tail ℕ.zero (String.◌∷◌ c s) = false
is_tail (suc n) (String.◌∷◌ c s) =
    (is_alphanumeric (code c)
      || (nat_beq (code c) b'_'
          || (nat_beq (code c) b'-' || nat_beq (code c) b'.' && is_followed s)))
    && is_tail n s

is_body : String → Bool
unfolding is_tail
is_body String.[] = false
is_body (String.◌∷◌ c s) = is_alphanumeric (code c) && is_tail 127 s

-- `_validate_session_id`
unfoldable pub is_session_id : String → Bool
unfolding is_body
is_session_id (String.◌∷◌ r (String.◌∷◌ e (String.◌∷◌ p (String.◌∷◌ d s)))) =
    nat_beq (code r) b'r'
    && (nat_beq (code e) b'e' && (nat_beq (code p) b'p' && (nat_beq (code d) b'-' && is_body s)))
is_session_id s = false

-- The assessment of C0, once the candidate has been captured again.
unfoldable pub assess_source : GateRun → Capture → AttemptAssessment
unfolding assess_attempt evidence_matches
assess_source gate capture =
    let assessment = assess_attempt gate.evidence in
    if evidence_matches assessment capture.base_commit capture.candidate_tree capture.patch_sha256
    then assessment
    else displaced RepairStopReason.source_changed "SOURCE_CHANGED" gate assessment

unfoldable pub c0_attempt : GateRun → Capture → RepairAttempt
unfolding assess_source new_attempt
c0_attempt gate capture =
    new_attempt "C0" gate capture.base_commit capture.candidate_tree capture.patch_sha256
      (assess_source gate capture)

-- The session of C0, in the given state.
unfoldable pub new_session :
    String
    → String
    → String
    → StartAnswers
    → List String
    → RepairState
    → String
    → Option RepairStopReason
    → Option String
    → RepairSession
unfolding c0_attempt
new_session session_id repo_path base answers approved_paths state next_action stop_reason
      workspace_path =
    record {
      version = 1;
      session_id = session_id;
      repo_path = repo_path;
      base_ref = base;
      base_commit = answers.capture.base_commit;
      approved_paths = approved_paths;
      attempt_cap = 2;
      attempts = c0_attempt answers.gate answers.capture ∷ [];
      state = state;
      next_action = next_action;
      created_at = answers.now;
      updated_at = answers.now;
      stop_reason = stop_reason;
      workspace_path = workspace_path;
    }

-- The paths that the repair may edit.
unfoldable pub approved_paths_of : Matcher → StartAnswers → List String
unfolding assess_source compute_approved_paths
approved_paths_of match_file answers =
    compute_approved_paths match_file answers.capture.changed_paths answers.capture.scope
      (answers.playbook_paths (assess_source answers.gate answers.capture).failed_check_ids)

abbrev request_of : Matcher → String → String → StartAnswers → ApprovalRequest
request_of match_file session_id base answers = record {
  session_id = session_id;
  base_ref = base;
  base_commit = answers.capture.base_commit;
  failed_check_ids = (assess_source answers.gate answers.capture).failed_check_ids;
  approved_paths = approved_paths_of match_file answers;
  attempt_cap = 2;
}

abbrev empty_directory : Directory
empty_directory = record { files = []; manifest = none }

module _ {T : Type 0} (codec : Codec) (cleanup : String → Option WorkspaceError)
    (match_file : Matcher) (session_id repo_path base : String) (answers : StartAnswers) where
  -- The session stops before any repair.
  abbrev pub stop_start : Option RepairStopReason → Action T RepairSession
  stop_start reason =
      let session =
        new_session session_id repo_path base answers answers.capture.changed_paths
          RepairState.stopped "none" reason none in
      do save_session codec cleanup session; pure session

  -- The session awaits the approval of its request, with a workspace of its own.
  abbrev pub await_approval : Action T RepairSession
  await_approval = do
    write_approval_request codec (request_of match_file session_id base answers)
    workspace ← or_raise answers.new_workspace (workspace_failed (failed ""))
    let session =
        new_session session_id repo_path base answers (approved_paths_of match_file answers)
          RepairState.awaiting_approval "approve_or_cancel" none (some workspace)
    save_session codec cleanup session
    pure session

  -- The session of the candidate, by its changes and its assessment.
  abbrev pub begin_session : Action T RepairSession
  begin_session =
      if has_harness_changes answers.capture.changed_paths
      then stop_start (some RepairStopReason.harness_changed)
      else if not (assess_source answers.gate answers.capture).eligible
      then stop_start (assess_source answers.gate answers.capture).stop_reason
      else await_approval

  -- The new directory and what follows.
  abbrev pub in_new_directory : Action T RepairSession
  in_new_directory = do
    on_directory (λ d. empty_directory)
    write_bytes "C0.patch" answers.capture.patch
    begin_session

  abbrev pub in_directory : Action T RepairSession
  in_directory = raise_unless (not answers.directory_exists) session_exists >> in_new_directory

  unfoldable pub start_repair : Action T RepairSession
  unfolding is_session_id
  start_repair = raise_unless (is_session_id session_id) invalid_session_id >> in_directory
