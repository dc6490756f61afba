-- ===== src/Repair/Controller.antt =====
-- release-gate/src/release_gate/repair/controller.py: the commands on a session that exists. What
-- git, the gate, the file system outside the session's directory and the clock answer is an
-- argument. A command returns the session that its outcome reports.
use Prim.Native.String.{◌++◌}
use blindspot_remediation.Prelude.{
  ℕ, length, String, Bool, true, false, not, ◌&&◌, Option, none, some, List, [], ◌∷◌, if◌then◌else◌,
  ◌==◌,
}
use blindspot_remediation.Repair.Models.{RepairState, RepairAttempt, RepairSession, is_terminal}
use blindspot_remediation.Repair.Assessment.{holds}
use blindspot_remediation.Repair.Workspace.{Bytes, WorkspaceError, failed}
use blindspot_remediation.Repair.Store.{Codec, read_file}
use blindspot_remediation.Repair.Playbooks.{LoadedPlaybooks, guidance_for_checks}
use blindspot_remediation.Repair.Summary.{state_value, generate_summary_md}
use blindspot_remediation.Repair.Transitions.{approved, with_workspace, cancelled}
use blindspot_remediation.Repair.Actions.{
  wrong_state, approval_malformed, session_id_mismatch, no_passing_candidate, patch_missing,
  workspace_failed, ok, err, World, Action, pure, raise, ◌>>=◌, ◌>>◌, raise_unless, or_raise,
  read_bytes, write_session, write_summary, write_manifest, read_session,
}

-- The approval file as JSON: no JSON or no object, or an object with this `session_id`.
pub data ApprovalFile : Type 0 where
  malformed : ApprovalFile
  object : Option String → ApprovalFile

abbrev pub last : {A : Type 0} → List A → Option A
last [] = none
last (a ∷ as') = elim as' [ [] ↦ some a | b ∷ bs ↦ last as' ]

abbrev pub is_awaiting_approval : RepairState → Bool
is_awaiting_approval RepairState.awaiting_approval = true
is_awaiting_approval _ = false

abbrev pub is_repairing : RepairState → Bool
is_repairing RepairState.repairing = true
is_repairing _ = false

abbrev pub is_awaiting_final : RepairState → Bool
is_awaiting_final RepairState.awaiting_final_approval = true
is_awaiting_final _ = false

-- A workspace that is no longer there is built again from the patch of the last attempt.
pub record WorkspaceAnswers : Type 0 where
  pub intact : String → Bool
  pub rebuild : Bytes → Option String

abbrev pub seen_trees : List RepairAttempt → List String
seen_trees [] = []
seen_trees (a ∷ attempts) = a.candidate_tree ∷ seen_trees attempts

abbrev pub seen_patches : List RepairAttempt → List String
seen_patches [] = []
seen_patches (a ∷ attempts) = a.patch_digest ∷ seen_patches attempts

-- What `request_repair` returns.
pub record RepairInstructions : Type 0 where
  pub session_id : String
  pub state : String
  pub next_action : String
  pub workspace_path : String
  pub approved_paths : List String
  pub failed_check_ids : List String
  pub attempt_number : ℕ
  pub attempt_cap : ℕ
  pub guidance : String

unfoldable pub instructions :
    (List String → LoadedPlaybooks) → RepairSession → String → RepairAttempt → RepairInstructions
unfolding state_value guidance_for_checks
instructions load_playbooks session path last_attempt = record {
  session_id = session.session_id;
  state = state_value session.state;
  next_action = session.next_action;
  workspace_path = path;
  approved_paths = session.approved_paths;
  failed_check_ids = last_attempt.failed_check_ids;
  attempt_number = length session.attempts;
  attempt_cap = session.attempt_cap;
  guidance =
      guidance_for_checks (load_playbooks last_attempt.failed_check_ids)
        last_attempt.failed_check_ids;
}

module _ {T : Type 0} (codec : Codec) (cleanup : String → Option WorkspaceError) where
  -- The last writes of a command.
  abbrev pub save_session : RepairSession → Action T (Unit {0})
  save_session session = do
    write_session codec session
    write_summary codec (generate_summary_md codec.decimal session)
    write_manifest codec session.session_id

  abbrev remove : String → Action T (Unit {0})
  remove path w = elim (cleanup path) [
    | none ↦ (ok tt, record w { removed = path ∷ w.removed })
    | some error ↦ (err (workspace_failed error), w)
  ]

  -- `_cleanup_terminal_workspace`
  unfoldable pub cleanup_terminal_workspace : RepairSession → Action T (Unit {0})
  cleanup_terminal_workspace session = elim session.workspace_path [
    | none ↦ pure tt
    | some path ↦ if not (path == "") && is_terminal session.state then remove path else pure tt
  ]

  -- `approve_repair` on the session that it read.
  unfoldable pub approve_session : ApprovalFile → String → RepairSession → Action T RepairSession
  approve_session approval now session = do
    raise_unless (is_awaiting_approval session.state) wrong_state
    elim approval [
      | malformed ↦ raise approval_malformed
      | object found ↦ do
        raise_unless (holds found session.session_id) session_id_mismatch
        write_session codec (approved now session)
        write_manifest codec session.session_id
        pure (approved now session)
    ]

  unfoldable pub approve_repair : String → ApprovalFile → String → Action T RepairSession
  approve_repair session_id approval now =
      read_session codec session_id >>= approve_session approval now

  -- The name of the patch from which the workspace is built again.
  abbrev latest_patch : String → World T → String
  latest_patch label w = elim (read_file (label ++ ".patch") w.directory.files) [
    | none ↦ "C0.patch"
    | some content ↦ label ++ ".patch"
  ]

  unfoldable pub rebuild_workspace : WorkspaceAnswers → RepairSession → Action T String
  rebuild_workspace workspace session w =
      (do
        attempt ← or_raise (last session.attempts) no_passing_candidate
        patch ← read_bytes (latest_patch attempt.candidate_label w) patch_missing
        path ← or_raise (workspace.rebuild patch) (workspace_failed (failed ""))
        write_session codec (with_workspace path session)
        write_manifest codec session.session_id
        pure path)
        w

  -- `_get_workspace_path`
  unfoldable pub get_workspace_path : WorkspaceAnswers → RepairSession → Action T String
  unfolding rebuild_workspace with_workspace
  get_workspace_path workspace session = elim session.workspace_path [
    | none ↦ rebuild_workspace workspace session
    | some path ↦
        if not (path == "") && workspace.intact path
        then pure path
        else rebuild_workspace workspace session
  ]

  unfoldable pub request_session :
      WorkspaceAnswers
      → (List String → LoadedPlaybooks)
      → RepairSession
      → Action T RepairInstructions
  unfolding instructions get_workspace_path
  request_session workspace load_playbooks session = do
    raise_unless (not (is_terminal session.state)) wrong_state
    path ← get_workspace_path workspace session
    last_attempt ← or_raise (last session.attempts) no_passing_candidate
    pure (instructions load_playbooks session path last_attempt)

  -- `request_repair`; `load_playbooks_from_base` is an argument.
  unfoldable pub request_repair :
      String → WorkspaceAnswers → (List String → LoadedPlaybooks) → Action T RepairInstructions
  request_repair session_id workspace load_playbooks =
      read_session codec session_id >>= request_session workspace load_playbooks

  unfoldable pub finalize_session : RepairSession → Action T RepairSession
  unfolding cleanup_terminal_workspace
  finalize_session session = do
    write_summary codec (generate_summary_md codec.decimal session)
    write_manifest codec session.session_id
    cleanup_terminal_workspace session
    pure session

  unfoldable pub finalize_repair : String → Action T RepairSession
  finalize_repair session_id = read_session codec session_id >>= finalize_session

  unfoldable pub cancel_session : String → RepairSession → Action T RepairSession
  unfolding cleanup_terminal_workspace
  cancel_session now session = do
    raise_unless (not (is_terminal session.state)) wrong_state
    save_session (cancelled now session)
    cleanup_terminal_workspace (cancelled now session)
    pure (cancelled now session)

  unfoldable pub cancel_repair : String → String → Action T RepairSession
  cancel_repair session_id now = read_session codec session_id >>= cancel_session now
