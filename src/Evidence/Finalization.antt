-- ===== src/Evidence/Finalization.antt =====
-- That the reserve is enough for the finalization of a package, and what the finalized one holds.
use blindspot_remediation.Prelude.{
  ℕ, ◌+◌, ◌≤◌, String, true, false, none, List, [], ◌∷◌, ◌++◌, any-append, length, ltb, ◌≡◌, refl,
  ap, ◌∙◌, arith,
}
use blindspot_remediation.Repair.Workspace.{Bytes}
use blindspot_remediation.Evidence.Paths.{Unicode, key_of, validate_artifact_path}
use blindspot_remediation.Evidence.Package.{
  EvidenceRun, Artifact, whole, artifact_of, collides, stored, write_failure, write_reserving,
  result_limit, manifest_limit, trace_limit,
}
use blindspot_remediation.Evidence.Lifetime.{Documents, after, sealed, seal, write_result, finalize}
use blindspot_remediation.Evidence.Budget.{Open}

-- The two names are what `unicodedata.normalize` and `str.casefold` leave as they are.
abbrev pub KeepsName : Unicode → String → Type 0
KeepsName unicode name = (unicode.nfc name ≡ name) × (unicode.casefold name ≡ name)

module _ (unicode : Unicode) (sha256_bytes : Bytes → String) where
  -- The inventory of the manifest.
  abbrev pub final_artifacts : Documents → EvidenceRun → List Artifact
  final_artifacts documents run =
      (run.artifacts
        ++ artifact_of unicode sha256_bytes "trace.json" documents.trace (whole "application/json")
          ∷ [])
      ++ artifact_of unicode sha256_bytes "result.json" documents.result (whole "application/json")
        ∷ []

  key_of-kept : (name : String) → KeepsName unicode name → key_of unicode name ≡ name
  key_of-kept name (nfc, casefold) = ap unicode.casefold nfc ∙ casefold

  trace_path : KeepsName unicode "trace.json" → validate_artifact_path unicode "trace.json" ≡ true
  unfolding validate_artifact_path
  trace_path keeps = rw (keeps.0, key_of-kept "trace.json" keeps) refl

  result_path :
      KeepsName unicode "result.json" → validate_artifact_path unicode "result.json" ≡ true
  unfolding validate_artifact_path
  result_path keeps = rw (keeps.0, key_of-kept "result.json" keeps) refl

  write_failure-none :
      (reserve : ℕ) (path : String) (content : Bytes) (run : EvidenceRun)
      → run.complete ≡ false
      → validate_artifact_path unicode path ≡ true
      → collides unicode sha256_bytes path run.artifacts ≡ false
      → run.retained_bytes + length content + reserve ≤ run.total_bytes
      → write_failure unicode sha256_bytes reserve path content (whole "application/json") run
        ≡ none
  unfolding write_failure
  write_failure-none reserve path content run e valid free room = rw (e, valid, free) (ground arith)

  write_reserving-stored :
      (path : String) (content : Bytes) (run : EvidenceRun)
      → write_failure unicode sha256_bytes 0 path content (whole "application/json") run ≡ none
      → write_reserving unicode sha256_bytes 0 path content (whole "application/json") run
        ≡ (none, stored unicode sha256_bytes path content (whole "application/json") run)
  unfolding write_reserving
  write_reserving-stored path content run e = rw e refl

  seal-done :
      (documents : Documents) (run : EvidenceRun)
      → documents.manifest_is_valid run.artifacts ≡ true
      → length (documents.manifest run.artifacts) ≤ manifest_limit
      → run.retained_bytes + length (documents.manifest run.artifacts) ≤ run.total_bytes
      → seal documents run ≡ (none, sealed (documents.manifest run.artifacts) run)
  unfolding seal
  seal-done documents run valid short room = rw valid (ground arith)

  result_free :
      (documents : Documents) (run : EvidenceRun)
      → KeepsName unicode "trace.json"
      → KeepsName unicode "result.json"
      → collides unicode sha256_bytes "result.json" run.artifacts ≡ false
      → collides unicode sha256_bytes "result.json" (
          run.artifacts
          ++ artifact_of unicode sha256_bytes "trace.json" documents.trace
              (whole "application/json")
            ∷ [])
        ≡ false
  result_free documents run trace result free =
      any-append _ run.artifacts _ ∙ rw (free, trace.1, key_of-kept "result.json" result) refl

  abbrev with_trace : Documents → EvidenceRun → EvidenceRun
  with_trace documents run =
      stored unicode sha256_bytes "trace.json" documents.trace (whole "application/json") run

  abbrev with_result : Documents → EvidenceRun → EvidenceRun
  with_result documents run =
      stored unicode sha256_bytes "result.json" documents.result (whole "application/json")
        (with_trace documents run)

  finalize-write_result :
      (documents : Documents) (run : EvidenceRun)
      → length documents.trace ≤ trace_limit
      → write_reserving unicode sha256_bytes 0 "trace.json" documents.trace
          (whole "application/json")
          run
        ≡ (none, with_trace documents run)
      → finalize unicode sha256_bytes documents run
        ≡ write_result unicode sha256_bytes documents (with_trace documents run)
  unfolding finalize
  finalize-write_result documents run short e =
      let fits : ltb trace_limit (length documents.trace) ≡ false = ground arith in
      rw fits (ap (after (write_result unicode sha256_bytes documents)) e)

  write_result-seal :
      (documents : Documents) (run : EvidenceRun)
      → length documents.result ≤ result_limit
      → documents.result_is_valid ≡ true
      → write_reserving unicode sha256_bytes 0 "result.json" documents.result
          (whole "application/json")
          (with_trace documents run)
        ≡ (none, with_result documents run)
      → write_result unicode sha256_bytes documents (with_trace documents run)
        ≡ seal documents (with_result documents run)
  unfolding write_result
  write_result-seal documents run short valid e =
      let fits : ltb result_limit (length documents.result) ≡ false = ground arith in
      rw (fits, valid) (ap (after (seal documents)) e)

  -- Where the package is open and its reserve fits, neither reserved name is taken or changed by
  -- Unicode, and the documents are valid and within their limits, `finalize` succeeds: the trace
  -- and the result join the inventory, the manifest of all of it is written and the mark of an
  -- incomplete run removed.
  pub finalize-sealed :
      (documents : Documents) (run : EvidenceRun)
      → Open run
      → KeepsName unicode "trace.json"
      → KeepsName unicode "result.json"
      → collides unicode sha256_bytes "trace.json" run.artifacts ≡ false
      → collides unicode sha256_bytes "result.json" run.artifacts ≡ false
      → length documents.trace ≤ trace_limit
      → length documents.result ≤ result_limit
      → documents.result_is_valid ≡ true
      → documents.manifest_is_valid (final_artifacts documents run) ≡ true
      → length (documents.manifest (final_artifacts documents run)) ≤ manifest_limit
      → finalize unicode sha256_bytes documents run ≡ (
        none,
        sealed (documents.manifest (final_artifacts documents run)) (with_result documents run),
      )
  finalize-sealed documents run (opened, bytes, room) keeps_trace keeps_result free_trace
        free_result short_trace short_result valid_result valid_manifest short_manifest =
      finalize-write_result documents run short_trace (
        write_reserving-stored "trace.json" documents.trace run (
          write_failure-none 0 "trace.json" documents.trace run opened (trace_path keeps_trace)
            free_trace (omega arith)))
      ∙ (write_result-seal documents run short_result valid_result (
            write_reserving-stored "result.json" documents.result (with_trace documents run) (
              write_failure-none 0 "result.json" documents.result (with_trace documents run) opened
                (result_path keeps_result)
                (result_free documents run keeps_trace keeps_result free_result) (omega arith)))
          ∙ seal-done documents (with_result documents run) valid_manifest short_manifest
              (omega arith))
