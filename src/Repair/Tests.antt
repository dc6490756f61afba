-- ===== src/Repair/Tests.antt =====
-- Runs of the repair workflow on small inputs. A digest is one of three texts, by length.
use blindspot_remediation.Prelude.{String, true, none, some, [], ◌∷◌, mem, ◌≡◌, refl, contains}
use blindspot_remediation.Config.{Scope}
use blindspot_remediation.Policy.{Matcher}
use blindspot_remediation.Repair.Models.{RepairStopReason}
use blindspot_remediation.Repair.Assessment.{CheckDocument, ResultDocument, assess_attempt}
use blindspot_remediation.Repair.Eligibility.{assess_attempt-eligible}
use blindspot_remediation.Repair.Workspace.{
  Bytes, outside_approved, ExportedCandidate, ExportAnswers, export_candidate,
}
use blindspot_remediation.Repair.Boundary.{
  IsAcceptable, export_candidate-IsAcceptable, workspace_stop_reason-repeated_path,
}
use blindspot_remediation.Repair.Store.{Manifest, Files, Directory}
use blindspot_remediation.Repair.Transitions.{workspace_stop_reason}

-- The digest of a patch: "p" for the empty one, else "q" or "r".
abbrev digest : Bytes → String
digest [] = "p"
digest (b ∷ []) = "q"
digest (b ∷ bs) = "r"

abbrev failed_check : CheckDocument
failed_check = record {
  id = "tests";
  status = some "FAIL";
  severity = some "blocking";
  reason_codes = "COMMAND_FAILED" ∷ [];
}

abbrev passed_check : CheckDocument
passed_check = record {
  id = "lint";
  status = some "PASS";
  severity = some "advisory";
  reason_codes = [];
}

abbrev failed_run : ResultDocument
failed_run = record {
  run_id = some "run-1";
  verdict = "FAIL";
  reason_codes = "COMMAND_FAILED" ∷ [];
  scope_status = "PASS";
  scope_reason_codes = [];
  checks = passed_check ∷ (failed_check ∷ []);
  base_commit = some "base";
  candidate_tree = some "tree-1";
  patch_sha256 = some "q";
}

assess_attempt-eligible_example : (assess_attempt (some failed_run)).eligible ≡ true
assess_attempt-eligible_example = assess_attempt-eligible failed_run

abbrev exact : Matcher
exact lines path = mem path lines

abbrev small_scope : Scope
small_scope = record {
  allowed_paths = "a" ∷ "b" ∷ [];
  forbidden_paths = "b" ∷ [];
  review_required_paths = [];
}

abbrev answers : ExportAnswers
answers = record {
  written_tree = some "tree-2";
  diff = some (1 ∷ []);
  name_status = some ("a" ∷ []);
  error_text = "";
}

abbrev candidate : ExportedCandidate
candidate = record {
  candidate_tree = "tree-2";
  patch = 1 ∷ [];
  patch_sha256 = "q";
  changed_paths = "a" ∷ [];
}

export_candidate-IsAcceptable_example :
    IsAcceptable digest ("tree-1" ∷ []) ("p" ∷ []) ("a" ∷ []) candidate
unfolding export_candidate
export_candidate-IsAcceptable_example =
    export_candidate-IsAcceptable digest ("tree-1" ∷ []) ("p" ∷ []) ("a" ∷ []) answers candidate
      refl

workspace_stop_reason-repeated_path_example :
    workspace_stop_reason (outside_approved ("docs/repeated.md" ∷ []))
    ≡ RepairStopReason.repeated_candidate
unfolding contains
workspace_stop_reason-repeated_path_example =
    workspace_stop_reason-repeated_path "docs/repeated.md" [] refl

abbrev files : Files
files = ("C0.patch", 1 ∷ []) ∷ (("repair-session-v1.json", 2 ∷ (3 ∷ [])) ∷ [])

abbrev directory : Directory
directory = record { files = files; manifest = none }

abbrev recorded : Manifest
recorded = record {
  version = 1;
  session_id = "rep-1";
  artifacts =
      record { path = "C0.patch"; size_bytes = 1; sha256 = "q" }
      ∷ (record { path = "repair-session-v1.json"; size_bytes = 2; sha256 = "r" } ∷ []);
}
