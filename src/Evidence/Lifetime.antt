-- ===== src/Evidence/Lifetime.antt =====
-- release-gate/src/release_gate/evidence.py: the creation of a run's package and its finalization. The
-- documents are given by their canonical JSON and by whether their schemas and timestamps validate.
use blindspot_remediation.Prelude.{
  ℕ, ◌+◌, String, Bool, true, false, not, Option, none, some, List, [], ◌∷◌, any, keep, length, ltb,
  if◌then◌else◌, ◌==◌, ◌⊎◌, inl, inr,
}
use blindspot_remediation.Repair.Workspace.{Bytes}
use blindspot_remediation.Repair.Store.{Files, write_file}
use blindspot_remediation.Evidence.Paths.{Unicode, validate_run_id}
use blindspot_remediation.Evidence.Package.{
  EvidenceFailure, bad_run_id, run_exists, trace_too_large, result_too_large, manifest_too_large,
  completed_too_large, bad_result, bad_manifest, EvidenceRun, Artifact, whole,
  ensure_preflight_feasible, write_reserving, write_artifact, result_limit, manifest_limit,
  trace_limit,
}

-- What `finalize` writes; the manifest is made of the inventory.
pub record Documents : Type 0 where
  pub trace : Bytes
  pub result : Bytes
  pub result_is_valid : Bool
  pub manifest : List Artifact → Bytes
  pub manifest_is_valid : List Artifact → Bool

abbrev pub Written : Type 0
Written = Option EvidenceFailure × EvidenceRun

-- What follows a write that did not raise.
abbrev pub after : (EvidenceRun → Written) → Written → Written
after k (none, run) = k run
after k (some failure, run) = (some failure, run)

abbrev pub remove_file : String → Files → Files
remove_file name files = keep (λ file. not (name == file.0)) files

-- The directory with the manifest and without the mark of an incomplete run.
abbrev pub sealed : Bytes → EvidenceRun → EvidenceRun
sealed manifest run = record run {
  files = remove_file ".incomplete" (write_file "manifest.json" manifest run.files);
  complete = true;
}

-- `finalize`, from the manifest on.
unfoldable pub seal : Documents → EvidenceRun → Written
seal documents run =
    let manifest = documents.manifest run.artifacts in
    if not (documents.manifest_is_valid run.artifacts)
    then (some bad_manifest, run)
    else if ltb manifest_limit (length manifest)
    then (some manifest_too_large, run)
    else if ltb run.total_bytes (run.retained_bytes + length manifest)
    then (some completed_too_large, run)
    else (none, sealed manifest run)

module _ (unicode : Unicode) (sha256_bytes : Bytes → String) where
  -- `finalize`, from the result on.
  unfoldable pub write_result : Documents → EvidenceRun → Written
  unfolding seal write_reserving
  write_result documents run =
      if ltb result_limit (length documents.result)
      then (some result_too_large, run)
      else if not documents.result_is_valid
      then (some bad_result, run)
      else after (seal documents) (
          write_reserving unicode sha256_bytes 0 "result.json" documents.result
            (whole "application/json") run)

  -- `finalize`
  unfoldable pub finalize : Documents → EvidenceRun → Written
  unfolding write_result
  finalize documents run =
      if ltb trace_limit (length documents.trace)
      then (some trace_too_large, run)
      else after (write_result documents) (
          write_reserving unicode sha256_bytes 0 "trace.json" documents.trace
            (whole "application/json") run)

  -- A new directory with the mark of an incomplete run.
  abbrev pub empty_run : ℕ → EvidenceRun
  empty_run total_bytes = record {
    total_bytes = total_bytes;
    files = (".incomplete", []) ∷ [];
    artifacts = [];
    retained_bytes = 0;
    complete = false;
  }

  abbrev pub first_writes : ℕ → Bytes → Bytes → Written
  first_writes total_bytes patch config =
      after
        (write_artifact unicode sha256_bytes "effective-config.json" config
          (whole "application/json"))
        (write_artifact unicode sha256_bytes "candidate.patch" patch (whole "text/x-diff")
          (empty_run total_bytes))

  abbrev pub or_failure : Written → EvidenceFailure ⊎ EvidenceRun
  or_failure (none, run) = inr run
  or_failure (some failure, run) = inl failure

  abbrev pub create_feasible :
      Option EvidenceFailure
      → List String
      → String
      → ℕ
      → Bytes
      → Bytes
      → EvidenceFailure ⊎ EvidenceRun
  create_feasible (some failure) siblings run_id total_bytes patch config = inl failure
  create_feasible none siblings run_id total_bytes patch config =
      if any (λ sibling. unicode.casefold sibling == unicode.casefold run_id) siblings
      then inl run_exists
      else or_failure (first_writes total_bytes patch config)

  -- `EvidenceRun.create` in a root with the given entries.
  unfoldable pub create : List String → String → ℕ → Bytes → Bytes → EvidenceFailure ⊎ EvidenceRun
  unfolding validate_run_id ensure_preflight_feasible write_reserving
  create siblings run_id total_bytes patch config =
      if not (validate_run_id run_id)
      then inl bad_run_id
      else create_feasible (ensure_preflight_feasible total_bytes patch config) siblings run_id
          total_bytes patch config
