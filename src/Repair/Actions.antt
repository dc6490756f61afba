-- ===== src/Repair/Actions.antt =====
-- The state that the commands of repair/controller.py share, and their writes. A command returns or
-- raises, and what it wrote before it raised stays written.
use blindspot_remediation.Prelude.{String, Bool, true, false, Option, none, some, List}
use blindspot_remediation.Repair.Models.{RepairSession, ApprovalRequest, FinalApproval}
use blindspot_remediation.Repair.Workspace.{Bytes, WorkspaceError}
use blindspot_remediation.Repair.Store.{
  Codec, Directory, session_filename, read_file, write_file, with_manifest, verify_manifest,
}

-- The exceptions, by what they report.
pub data Failure : Type 0 where
  invalid_session_id session_exists : Failure
  invalid_evidence session_missing session_malformed : Failure
  wrong_state approval_malformed session_id_mismatch : Failure
  no_passing_candidate evidence_mismatch : Failure
  patch_missing patch_digest_mismatch : Failure
  workspace_failed : WorkspaceError → Failure
  command_failed : Failure

pub data Result (A : Type 0) : Type 0 where
  ok : A → Result A
  err : Failure → Result A

-- The directory of the session, the source worktree, and the workspaces that were removed.
pub record World (T : Type 0) : Type 0 where
  pub directory : Directory
  pub worktree : T
  pub removed : List String

abbrev pub Action : Type 0 → Type 0 → Type 0
Action T A = World T → Result A × World T

module _ {T : Type 0} where
  abbrev pub pure : {A : Type 0} → A → Action T A
  pure a w = (ok a, w)

  abbrev pub raise : {A : Type 0} → Failure → Action T A
  raise e w = (err e, w)

  infixl 5 ◌>>=◌ ◌>>◌
  abbrev pub ◌>>=◌ : {A B : Type 0} → Action T A → (A → Action T B) → Action T B
  ◌>>=◌ m f w = let (r, w') = m w in elim r [ ok a ↦ f a w' | err e ↦ (err e, w') ]

  abbrev pub ◌>>◌ : {A B : Type 0} → Action T A → Action T B → Action T B
  m >> k = m >>= λ _. k

  abbrev pub raise_unless : Bool → Failure → Action T (Unit {0})
  raise_unless true e w = (ok tt, w)
  raise_unless false e w = (err e, w)

  abbrev pub or_raise : {A : Type 0} → Option A → Failure → Action T A
  or_raise none e w = (err e, w)
  or_raise (some a) e w = (ok a, w)

  abbrev pub read_bytes : String → Failure → Action T Bytes
  read_bytes name e w = or_raise (read_file name w.directory.files) e w

  abbrev pub on_directory : (Directory → Directory) → Action T (Unit {0})
  on_directory f w = (ok tt, record w { directory = f w.directory })

  abbrev pub write_bytes : String → Bytes → Action T (Unit {0})
  write_bytes name content =
      on_directory (λ d. record d { files = write_file name content d.files })

module _ {T : Type 0} (codec : Codec) where
  abbrev pub write_session : RepairSession → Action T (Unit {0})
  write_session session = write_bytes session_filename (codec.encode_session session)

  abbrev pub write_approval_request : ApprovalRequest → Action T (Unit {0})
  write_approval_request request =
      write_bytes "approval-request.json" (codec.encode_request request)

  abbrev pub write_final_approval : FinalApproval → Action T (Unit {0})
  write_final_approval approval = write_bytes "final-approval.json" (codec.encode_approval approval)

  abbrev pub write_summary : String → Action T (Unit {0})
  write_summary text = write_bytes "repair-summary.md" (codec.utf8 text)

  abbrev pub write_lesson_proposal : String → Action T (Unit {0})
  write_lesson_proposal text = write_bytes "lesson-proposal.md" (codec.utf8 text)

  abbrev pub write_manifest : String → Action T (Unit {0})
  write_manifest session_id = on_directory (with_manifest codec.sha256_bytes session_id)

  -- `read_session`, on the session of the directory's name.
  unfoldable pub read_session : String → Action T RepairSession
  read_session session_id w =
      (do
        raise_unless (verify_manifest codec.sha256_bytes session_id w.directory) invalid_evidence
        content ← read_bytes session_filename session_missing
        or_raise (codec.decode_session content) session_malformed)
        w
