-- ===== src/Evidence/Tests.antt =====
-- A package on sample bytes, and the instances of the theorems on it.
use blindspot_remediation.Prelude.{
  ◌+◌, ◌≤◌, String, true, none, some, [], ◌∷◌, All, if◌then◌else◌, ◌==◌, ◌≡◌, ◌⊎◌, inl, inr, refl,
  arith,
}
use blindspot_remediation.Repair.Workspace.{Bytes}
use blindspot_remediation.Repair.Store.{Files, write_file}
use blindspot_remediation.Evidence.Verification.{Identity, RunManifest, Readers, verify_run}
use blindspot_remediation.Evidence.Verification.Inventory.{
  IsAccounted, verify_run-IsAccounted, verify_run-extra,
}
use blindspot_remediation.Evidence.Paths.{Unicode, validate_run_id, validate_artifact_path}
use blindspot_remediation.Evidence.Package.{
  Artifact, artifact_of, EvidenceRun, bad_path, path_collides, ensure_preflight_feasible,
  finalization_reserve, whole, write_reserving, write_artifact, stored,
}
use blindspot_remediation.Evidence.Lifetime.{Documents, sealed, finalize, create, empty_run}
use blindspot_remediation.Evidence.Budget.{retained, same, by_write}
use blindspot_remediation.Evidence.Finalization.{finalize-sealed}
use blindspot_remediation.Evidence.Completion.{Complete}
use blindspot_remediation.Evidence.Creation.{Grown-retained}
use blindspot_remediation.Evidence.Recorded.{Kept}
use blindspot_remediation.Evidence.Settled.{Unmarked}
use blindspot_remediation.Evidence.Retention.{finalize-Recorded}

-- Texts of lower-case ASCII are what both operations leave as they are.
abbrev plain : Unicode
plain = record { nfc = λ s. s; casefold = λ s. s }

abbrev sha : Bytes → String
sha bytes = "digest"

abbrev fresh : EvidenceRun ⊎ EvidenceRun → EvidenceRun
fresh (inl run) = run
fresh (inr run) = run

abbrev created_run : EvidenceRun
created_run = stored plain sha "effective-config.json" (3 ∷ []) (whole "application/json") (
    stored plain sha "candidate.patch" (1 ∷ 2 ∷ []) (whole "text/x-diff")
      (empty_run plain sha 10_000_000))

creates : create plain sha ("other" ∷ []) "run-1" 10_000_000 (1 ∷ 2 ∷ []) (3 ∷ []) ≡ inr created_run
unfolding create validate_run_id ensure_preflight_feasible write_reserving validate_artifact_path
    write_file
creates = refl

refuses_path :
    (write_artifact plain sha "controls/aux.log" [] (whole "text/plain") created_run).0
    ≡ some bad_path
unfolding write_reserving validate_artifact_path
refuses_path = refl

refuses_twice :
    (write_artifact plain sha "candidate.patch" [] (whole "text/plain") created_run).0
    ≡ some path_collides
unfolding write_reserving validate_artifact_path
refuses_twice = refl

abbrev logged : EvidenceRun
logged =
    (write_artifact plain sha "controls/unit/base/stdout.log" (7 ∷ 8 ∷ [])
      (whole "application/octet-stream") created_run).1

Grown-retained_example :
    (logged.retained_bytes ≡ retained logged.artifacts)
    × (logged.retained_bytes + finalization_reserve ≤ logged.total_bytes)
Grown-retained_example =
    Grown-retained plain sha ("other" ∷ []) "run-1" 10_000_000 (1 ∷ 2 ∷ []) (3 ∷ []) created_run
      logged creates
      (by_write "controls/unit/base/stdout.log" (7 ∷ 8 ∷ []) (whole "application/octet-stream")
        same)

abbrev documents : Documents
documents = record {
  trace = 1 ∷ [];
  result = 2 ∷ 3 ∷ [];
  result_is_valid = true;
  manifest = λ artifacts. 4 ∷ 5 ∷ [];
  manifest_is_valid = λ artifacts. true;
}

finalize-sealed_example : finalize plain sha documents created_run ≡ (
  none,
  sealed (4 ∷ 5 ∷ []) (
      stored plain sha "result.json"
        (2 ∷ 3 ∷ [])
        (whole "application/json")
        (stored plain sha "trace.json" (1 ∷ []) (whole "application/json") created_run)),
)
finalize-sealed_example =
    finalize-sealed plain sha documents created_run (refl, refl, omega arith) (refl, refl)
      (refl, refl) refl refl (omega arith) (omega arith) refl refl (omega arith)

finalizes : (finalize plain sha documents created_run).0 ≡ none
unfolding finalize write_reserving validate_artifact_path
finalizes = refl

abbrev identity : Identity
identity = record {
  run_id = "run-1";
  base_commit = "base";
  candidate_tree = "tree";
  patch_sha256 = "digest";
  config_sha256 = "digest";
}

abbrev inventoried : String → Artifact
inventoried path = artifact_of plain sha path (1 ∷ []) (whole "text/plain")

abbrev manifest : RunManifest
manifest = record {
  identity = identity;
  artifacts =
      inventoried "candidate.patch"
      ∷ inventoried "effective-config.json"
      ∷ inventoried "result.json"
      ∷ [];
}

abbrev readers : Readers
readers = record {
  read_result = λ content. some identity;
  read_manifest = λ content. some manifest;
}

abbrev accepted_files : Files
accepted_files =
    ("candidate.patch", 1 ∷ [])
    ∷ ("effective-config.json", 1 ∷ [])
    ∷ ("result.json", 1 ∷ [])
    ∷ ("manifest.json", 4 ∷ [])
    ∷ []

verifies : verify_run plain sha readers accepted_files ≡ true
unfolding verify_run
verifies = refl

verify_run-IsAccounted_example : All (IsAccounted plain sha manifest.artifacts) accepted_files
verify_run-IsAccounted_example =
    verify_run-IsAccounted plain sha readers accepted_files (4 ∷ []) manifest refl refl verifies

-- Folds the case of the one name that is used.
abbrev folding : Unicode
folding = record plain { casefold = λ s. if s == "Manifest.json" then "manifest.json" else s }

verify_run-extra_example :
    verify_run folding sha readers (("Manifest.json", 9 ∷ []) ∷ accepted_files)
    ≡ verify_run folding sha readers accepted_files
verify_run-extra_example =
    verify_run-extra folding sha readers "Manifest.json" (9 ∷ []) accepted_files refl refl refl

logged-Unmarked : Unmarked logged
unfolding write_reserving validate_artifact_path
logged-Unmarked = refl

logged_finalizes : (finalize plain sha documents logged).0 ≡ none
unfolding finalize write_reserving validate_artifact_path
logged_finalizes = refl

finalize-Recorded_example :
    Complete documents (finalize plain sha documents logged).1
    × All
        (Kept plain sha (finalize plain sha documents logged).1.files)
        (finalize plain sha documents logged).1.artifacts
finalize-Recorded_example =
    finalize-Recorded plain sha (λ path h. refl) (refl, refl) ("other" ∷ []) "run-1" 10_000_000
      (1 ∷ 2 ∷ []) (3 ∷ []) documents created_run logged creates
      (by_write "controls/unit/base/stdout.log" (7 ∷ 8 ∷ []) (whole "application/octet-stream")
        same)
      logged-Unmarked logged_finalizes
