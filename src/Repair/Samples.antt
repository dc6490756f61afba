-- ===== src/Repair/Samples.antt =====
-- Sample data of the runs: a session is stored as the number of its state, a digest is one of three
-- texts by length, and the worktree is the sum of the lengths of the patches on it.
use blindspot_remediation.Prelude.{
  ℕ, String, Option, none, some, List, [], ◌∷◌, length, ◌+◌, ◌-◌, leb, zero, suc, arith,
  if◌then◌else◌,
}
use blindspot_remediation.Repair.Models.{RepairState, RepairAttempt, FinalApproval, RepairSession}
use blindspot_remediation.Repair.Assessment.{ResultDocument}
use blindspot_remediation.Repair.Workspace.{Bytes, WorkspaceError}
use blindspot_remediation.Repair.Application.{Git, Reversible}
use blindspot_remediation.Repair.Store.{Codec, with_manifest}
use blindspot_remediation.Repair.Actions.{World}

abbrev pub short_text : ℕ → String
short_text zero = "p"
short_text (suc zero) = "q"
short_text _ = "r"

abbrev pub digest : Bytes → String
digest content = short_text (length content)

abbrev pub attempt : String → String → String → String → RepairAttempt
attempt label tree patch verdict = record {
  candidate_label = label;
  gate_run_id = "run";
  base_commit = "base";
  candidate_tree = tree;
  patch_digest = patch;
  result_digest = "result";
  manifest_digest = "manifest";
  verdict = verdict;
  reason_codes = [];
  failed_check_ids = [];
}

abbrev pub c0 : RepairAttempt
c0 = attempt "C0" "q" "q" "FAIL"

abbrev pub c1 : RepairAttempt
c1 = attempt "C1" "r" "r" "PASS"

abbrev pub session : RepairState → String → List RepairAttempt → RepairSession
session state next_action attempts = record {
  version = 1;
  session_id = "rep-1";
  repo_path = "repo";
  base_ref = "HEAD";
  base_commit = "base";
  approved_paths = "a" ∷ [];
  attempt_cap = 2;
  attempts = attempts;
  state = state;
  next_action = next_action;
  created_at = "now";
  updated_at = "now";
  stop_reason = none;
  workspace_path = none;
}

abbrev pub waiting : RepairSession
waiting = session RepairState.awaiting_approval "approve_or_cancel" (c0 ∷ [])

abbrev pub repairing : RepairSession
repairing = session RepairState.repairing "edit_workspace" (c0 ∷ [])

abbrev pub accepted : RepairSession
accepted = session RepairState.awaiting_final_approval "final_approval_and_apply" (c0 ∷ (c1 ∷ []))

abbrev pub state_code : RepairState → ℕ
state_code RepairState.awaiting_approval = 0
state_code RepairState.repairing = 1
state_code RepairState.awaiting_final_approval = 2
state_code _ = 3

abbrev pub session_of : ℕ → RepairSession
session_of zero = waiting
session_of (suc zero) = repairing
session_of (suc (suc n)) = accepted

abbrev pub decode : Bytes → Option RepairSession
decode [] = none
decode (code ∷ rest) = some (session_of code)

abbrev pub codec : Codec
codec = record {
  encode_session = λ s. state_code s.state ∷ [];
  decode_session = decode;
  encode_request = λ r. [];
  encode_approval = λ a. [];
  utf8 = λ s. [];
  sha256_bytes = digest;
  decimal = λ n. "1";
}

abbrev pub cleanup : String → Option WorkspaceError
cleanup path = none

abbrev pub git : Git ℕ
git = record {
  apply = λ p n. some (length p + n);
  reverse = λ p n. if leb (length p) n then some (n - length p) else none;
  capture = λ b n. some (short_text n, short_text n);
}

pub git-Reversible : Reversible git
git-Reversible = record {
  reverse-apply = λ p t t' h. ground arith;
  apply-reverse = λ p t t' h. ground arith;
}

abbrev pub approval : FinalApproval
approval = record {
  session_id = "rep-1";
  final_candidate_tree = "r";
  final_patch_digest = "r";
  approved_at = "now";
}

-- The directory of a session as it is stored, with the two patches.
abbrev pub world : RepairSession → World ℕ
world s = record {
  directory = with_manifest digest "rep-1" (record {
    files =
        ("C0.patch", 1 ∷ [])
        ∷ (("C1.patch", 1 ∷ (2 ∷ [])) ∷ (("repair-session-v1.json", state_code s.state ∷ []) ∷ []));
    manifest = none;
  });
  worktree = 1;
  removed = [];
}

abbrev pub passing_run : ResultDocument
passing_run = record {
  run_id = some "run";
  verdict = "PASS";
  reason_codes = [];
  scope_status = "PASS";
  scope_reason_codes = [];
  checks = [];
  base_commit = some "base";
  candidate_tree = some "r";
  patch_sha256 = some "r";
}
