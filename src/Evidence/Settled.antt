-- ===== src/Evidence/Settled.antt =====
-- What the finalization of a package keeps of its artifacts.
use blindspot_remediation.Prelude.{
  ℕ, ◌+◌, String, Bool, true, false, not, Option, none, some, List, [], ◌∷◌, All, any, any-append,
  length, ltb, if◌then◌else◌, ◌==◌, ◌≡◌, refl, ◌∙◌, arith,
}
use blindspot_remediation.Repair.Workspace.{Bytes}
use blindspot_remediation.Repair.Store.{Files, write_file}
use blindspot_remediation.Repair.Store.Files.{read_file-write_file}
use blindspot_remediation.Evidence.Paths.{Unicode}
use blindspot_remediation.Evidence.Package.{
  EvidenceFailure, EvidenceRun, Artifact, Facts, whole, artifact_of, store_unless, write_reserving,
  result_limit, manifest_limit, trace_limit,
}
use blindspot_remediation.Evidence.Lifetime.{
  Documents, Written, after, remove_file, seal, write_result, finalize,
}
use blindspot_remediation.Evidence.Finalization.{KeepsName}
use blindspot_remediation.Evidence.Completion.{read_file-remove_file}
use blindspot_remediation.Evidence.Recorded.{
  NormalizesParts, Kept, Recorded, write_reserving-Recorded,
}

-- No artifact has the name of the mark of an incomplete run.
abbrev pub Unmarked : EvidenceRun → Type 0
Unmarked run = any (λ a. a.path == ".incomplete") run.artifacts ≡ false

module _ (unicode : Unicode) (sha256_bytes : Bytes → String) where
  store_unless-Unmarked :
      (failure : Option EvidenceFailure) (path : String) (content : Bytes) (facts : Facts)
      (run : EvidenceRun)
      → (path == ".incomplete") ≡ false
      → Unmarked run
      → Unmarked (store_unless unicode sha256_bytes failure path content facts run).1
  store_unless-Unmarked (some failure) path content facts run other h = h
  store_unless-Unmarked none path content facts run other h =
      any-append (λ a. a.path == ".incomplete") run.artifacts
        (artifact_of unicode sha256_bytes path content facts ∷ [])
      ∙ rw (h, other) refl

  write_reserving-Unmarked :
      (reserve : ℕ) (path : String) (content : Bytes) (facts : Facts) (run : EvidenceRun)
      → (path == ".incomplete") ≡ false
      → Unmarked run
      → Unmarked (write_reserving unicode sha256_bytes reserve path content facts run).1
  unfolding write_reserving
  write_reserving-Unmarked reserve path content facts run other h =
      store_unless-Unmarked _ path content facts run other h

  module _ (normal : NormalizesParts unicode) (keeps : KeepsName unicode "manifest.json") where
    abbrev IsRecorded : EvidenceRun → Type 0
    IsRecorded = Recorded unicode sha256_bytes

    -- The mark is removed, and the manifest is no artifact.
    sealed-All :
        (manifest : Bytes) (files : Files) (artifacts : List Artifact)
        → any (λ a. a.path == ".incomplete") artifacts ≡ false
        → All (Kept unicode sha256_bytes files) artifacts
        → All
            (Kept unicode sha256_bytes
              (remove_file ".incomplete" (write_file "manifest.json" manifest files)))
            artifacts
    sealed-All manifest files [] other kept = tt
    sealed-All manifest files (a ∷ artifacts) other ((old, there, size, digest, free), kept) = (
      (
        old,
        read_file-remove_file a.path ".incomplete" (write_file "manifest.json" manifest files)
              (ground arith)
            ∙ (read_file-write_file a.path "manifest.json" manifest files ∙ rw free there),
        size,
        digest,
        free,
      ),
      sealed-All manifest files artifacts (ground arith) kept,
    )

    -- What `finalize` needs of a run, and keeps.
    abbrev Settled : EvidenceRun → Type 0
    Settled run = IsRecorded run × Unmarked run

    abbrev Settles : Written → Type 0
    Settles x = x.0 ≡ none → IsRecorded x.1

    -- A test that raises, or what comes after it.
    else_Settles :
        (b : Bool) (failure : EvidenceFailure) (run : EvidenceRun) (x : Written)
        → Settles x
        → Settles (if b then (some failure, run) else x)
    else_Settles true failure run x next = λ e. ground arith
    else_Settles false failure run x next = next

    after-Settles :
        (k : EvidenceRun → Written) (x : Written)
        → ((run : EvidenceRun) → Settled run → Settles (k run))
        → Settled x.1
        → Settles (after k x)
    after-Settles k (none, run) next h = next run h
    after-Settles k (some failure, run) next h = λ e. ground arith

    write_reserving-Settled :
        (path : String) (content : Bytes) (facts : Facts) (run : EvidenceRun)
        → (path == ".incomplete") ≡ false
        → Settled run
        → Settled (write_reserving unicode sha256_bytes 0 path content facts run).1
    write_reserving-Settled path content facts run other (kept, unmarked) = (
      write_reserving-Recorded unicode sha256_bytes normal keeps 0 path content facts run kept,
      write_reserving-Unmarked 0 path content facts run other unmarked,
    )

    seal-Settles :
        (documents : Documents) (run : EvidenceRun) → Settled run → Settles (seal documents run)
    unfolding seal
    seal-Settles documents run (kept, unmarked) =
        else_Settles (not (documents.manifest_is_valid run.artifacts)) _ run _ (
          else_Settles (ltb manifest_limit (length (documents.manifest run.artifacts))) _ run _ (
            else_Settles
              (ltb run.total_bytes (run.retained_bytes + length (documents.manifest run.artifacts)))
              _ run _
              (λ e.
                sealed-All (documents.manifest run.artifacts) run.files run.artifacts unmarked
                  kept)))

    write_result-Settles :
        (documents : Documents) (run : EvidenceRun)
        → Settled run
        → Settles (write_result unicode sha256_bytes documents run)
    unfolding write_result
    write_result-Settles documents run h =
        else_Settles (ltb result_limit (length documents.result)) _ run _ (
          else_Settles (not documents.result_is_valid) _ run _ (
            after-Settles (seal documents) _ (seal-Settles documents) (
              write_reserving-Settled "result.json" documents.result (whole "application/json") run
                refl h)))

    pub finalize-Settles :
        (documents : Documents) (run : EvidenceRun)
        → Settled run
        → Settles (finalize unicode sha256_bytes documents run)
    unfolding finalize
    finalize-Settles documents run h =
        else_Settles (ltb trace_limit (length documents.trace)) _ run _ (
          after-Settles (write_result unicode sha256_bytes documents) _
            (write_result-Settles documents)
            (write_reserving-Settled "trace.json" documents.trace (whole "application/json") run
              refl h))
