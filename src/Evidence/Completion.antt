-- ===== src/Evidence/Completion.antt =====
-- What a package holds when its finalization returned.
use blindspot_remediation.Prelude.{
  ◌+◌, ◌≤◌, String, Bool, true, false, not, Option, none, some, [], ◌∷◌, length, ltb, if◌then◌else◌,
  ◌==◌, ◌≡◌, refl, arith, eq_iff, ◌∙◌,
}
use blindspot_remediation.Repair.Workspace.{Bytes}
use blindspot_remediation.Repair.Store.{Files, read_file, write_file}
use blindspot_remediation.Repair.Store.Files.{read_file-write_file}
use blindspot_remediation.Evidence.Paths.{Unicode}
use blindspot_remediation.Evidence.Package.{
  EvidenceFailure, EvidenceRun, Facts, whole, artifact_of, store_unless, write_reserving,
  trace_limit, result_limit, manifest_limit,
}
use blindspot_remediation.Evidence.Lifetime.{
  Documents, Written, after, remove_file, sealed, seal, write_result, finalize,
}
use blindspot_remediation.Evidence.Budget.{retained, retained-append}

pub read_file-remove_file :
    (x name : String) (files : Files)
    → (x == name) ≡ false
    → read_file x (remove_file name files) ≡ read_file x files
read_file-remove_file x name [] h = refl
read_file-remove_file x name ((n, content) ∷ files) h =
    ground (arith, eq_iff name n, eq_iff x n, eq_iff x name, read_file-remove_file x name files)

remove_file-gone : (name : String) (files : Files) → read_file name (remove_file name files) ≡ none
remove_file-gone name [] = refl
remove_file-gone name ((n, content) ∷ files) = ground (arith, remove_file-gone name files)

-- The run retains the bytes of its artifacts.
abbrev pub Accounted : EvidenceRun → Type 0
Accounted run = run.retained_bytes ≡ retained run.artifacts

-- A directory with the manifest of the whole inventory, without the mark of an incomplete run, and
-- within the total.
abbrev pub Complete : Documents → EvidenceRun → Type 0
Complete documents run =
    (run.complete ≡ true)
    × (read_file "manifest.json" run.files ≡ some (documents.manifest run.artifacts))
    × (read_file ".incomplete" run.files ≡ none)
    × (retained run.artifacts + length (documents.manifest run.artifacts) ≤ run.total_bytes)

abbrev Completes : Documents → Written → Type 0
Completes documents x = x.0 ≡ none → Complete documents x.1

module _ (documents : Documents) where
  sealed-Complete :
      (run : EvidenceRun)
      → Accounted run
      → run.retained_bytes + length (documents.manifest run.artifacts) ≤ run.total_bytes
      → Complete documents (sealed (documents.manifest run.artifacts) run)
  sealed-Complete run bytes room = (
    refl,
    read_file-remove_file "manifest.json" ".incomplete"
          (write_file "manifest.json" (documents.manifest run.artifacts) run.files) refl
        ∙ read_file-write_file "manifest.json" "manifest.json" (documents.manifest run.artifacts)
            run.files,
    remove_file-gone ".incomplete"
        (write_file "manifest.json" (documents.manifest run.artifacts) run.files),
    omega arith,
  )

  -- A test that raises, or what comes after it.
  else_Completes :
      (b : Bool) (failure : EvidenceFailure) (run : EvidenceRun) (x : Written)
      → (b ≡ false → Completes documents x)
      → Completes documents (if b then (some failure, run) else x)
  else_Completes true failure run x next = λ e. ground arith
  else_Completes false failure run x next = next refl

  seal-Completes : (run : EvidenceRun) → Accounted run → Completes documents (seal documents run)
  unfolding seal
  seal-Completes run bytes =
      else_Completes (not (documents.manifest_is_valid run.artifacts)) _ run _ (λ valid.
        else_Completes (ltb manifest_limit (length (documents.manifest run.artifacts))) _ run _
          (λ short.
            else_Completes
              (ltb run.total_bytes (run.retained_bytes + length (documents.manifest run.artifacts)))
              _ run _ (λ fits e. sealed-Complete run bytes (ground arith))))

  after-Completes :
      (k : EvidenceRun → Written) (x : Written)
      → ((run : EvidenceRun) → Accounted run → Completes documents (k run))
      → Accounted x.1
      → Completes documents (after k x)
  after-Completes k (none, run) next h = next run h
  after-Completes k (some failure, run) next h = λ e. ground arith

module _ (unicode : Unicode) (sha256_bytes : Bytes → String) where
  store_unless-Accounted :
      (failure : Option EvidenceFailure) (path : String) (content : Bytes) (facts : Facts)
      (run : EvidenceRun)
      → Accounted run
      → Accounted (store_unless unicode sha256_bytes failure path content facts run).1
  store_unless-Accounted (some failure) path content facts run h = h
  store_unless-Accounted none path content facts run h = omega (
    arith,
    retained-append run.artifacts (artifact_of unicode sha256_bytes path content facts),
    h,
  )

  write_reserving-Accounted :
      (path : String) (content : Bytes) (run : EvidenceRun)
      → Accounted run
      → Accounted
          (write_reserving unicode sha256_bytes 0 path content (whole "application/json") run).1
  unfolding write_reserving
  write_reserving-Accounted path content run h =
      store_unless-Accounted _ path content (whole "application/json") run h

  write_result-Completes :
      (documents : Documents) (run : EvidenceRun)
      → Accounted run
      → Completes documents (write_result unicode sha256_bytes documents run)
  unfolding write_result
  write_result-Completes documents run h =
      else_Completes documents (ltb result_limit (length documents.result)) _ run _ (λ short.
        else_Completes documents (not documents.result_is_valid) _ run _ (λ valid.
          after-Completes documents (seal documents) _ (seal-Completes documents)
            (write_reserving-Accounted "result.json" documents.result run h)))

  -- Where `finalize` returns and the package retained the bytes of its artifacts, the manifest
  -- file is that of the whole inventory, the mark of an incomplete run is gone, and artifacts and
  -- manifest together are within the total.
  pub finalize-Complete :
      (documents : Documents) (run : EvidenceRun)
      → Accounted run
      → (finalize unicode sha256_bytes documents run).0 ≡ none
      → Complete documents (finalize unicode sha256_bytes documents run).1
  unfolding finalize
  finalize-Complete documents run h =
      else_Completes documents (ltb trace_limit (length documents.trace)) _ run _ (λ short.
        after-Completes documents (write_result unicode sha256_bytes documents) _
          (write_result-Completes documents)
          (write_reserving-Accounted "trace.json" documents.trace run h))
