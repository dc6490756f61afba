-- ===== src/Evidence/Budget.antt =====
-- The bytes that a package retains, the records of its artifacts, and the room that is kept for its
-- finalization.
use blindspot_remediation.Prelude.{
  ℕ, ◌+◌, ◌≤◌, String, false, Option, none, some, List, [], ◌∷◌, ◌++◌, length, ◌≡◌, refl, arith,
}
use blindspot_remediation.Repair.Workspace.{Bytes}
use blindspot_remediation.Evidence.Paths.{Unicode}
use blindspot_remediation.Evidence.Package.{
  EvidenceFailure, EvidenceRun, Artifact, Facts, whole, artifact_of, write_failure, store_unless,
  write_reserving, write_artifact, forgiven, try_write_optional_artifact, finalization_reserve,
}

abbrev pub retained : List Artifact → ℕ
retained [] = 0
retained (a ∷ artifacts) = a.size_bytes + retained artifacts

pub retained-append :
    (artifacts : List Artifact) (a : Artifact)
    → retained (artifacts ++ a ∷ []) ≡ retained artifacts + a.size_bytes
retained-append [] a = omega arith
retained-append (b ∷ artifacts) a = omega (arith, retained-append artifacts a)

-- The run is h, it retains the bytes of its artifacts, and what is reserved still fits.
abbrev pub Open : EvidenceRun → Type 0
Open run =
    (run.complete ≡ false)
    × (run.retained_bytes ≡ retained run.artifacts)
    × (run.retained_bytes + finalization_reserve ≤ run.total_bytes)

module _ (unicode : Unicode) (sha256_bytes : Bytes → String) where
  -- A write that is not refused keeps the given reserve.
  write_failure-fits :
      (reserve : ℕ) (path : String) (content : Bytes) (facts : Facts) (run : EvidenceRun)
      → write_failure unicode sha256_bytes reserve path content facts run ≡ none
      → run.retained_bytes + length content + reserve ≤ run.total_bytes
  unfolding write_failure
  write_failure-fits reserve path content facts run e = ground arith

  store_unless-Open :
      (failure : Option EvidenceFailure) (path : String) (content : Bytes) (facts : Facts)
      (run : EvidenceRun)
      → (failure ≡ none
          → run.retained_bytes + length content + finalization_reserve ≤ run.total_bytes)
      → Open run
      → Open (store_unless unicode sha256_bytes failure path content facts run).1
  store_unless-Open (some failure) path content facts run fits h = h
  store_unless-Open none path content facts run fits (opened, bytes, room) = (
    opened,
    omega (
      arith,
      retained-append run.artifacts (artifact_of unicode sha256_bytes path content facts),
      bytes,
    ),
    fits refl,
  )

  pub write_artifact-Open :
      (path : String) (content : Bytes) (facts : Facts) (run : EvidenceRun)
      → Open run
      → Open (write_artifact unicode sha256_bytes path content facts run).1
  unfolding write_reserving
  write_artifact-Open path content facts run h =
      store_unless-Open _ path content facts run
        (write_failure-fits finalization_reserve path content facts run) h

  forgiven-Open :
      (x : Option EvidenceFailure × EvidenceRun)
      → Open x.1
      → Open (forgiven unicode sha256_bytes x).1
  forgiven-Open (none, run) h = h
  forgiven-Open (some failure, run) h = ground arith

  try_write_optional_artifact-Open :
      (path : String) (content : Bytes) (media_type : String) (maximum_bytes : Option ℕ)
      (run : EvidenceRun)
      → Open run
      → Open
          (try_write_optional_artifact unicode sha256_bytes path content media_type maximum_bytes
            run).1
  unfolding try_write_optional_artifact
  try_write_optional_artifact-Open path content media_type maximum_bytes run h = ground (
    arith,
    forgiven-Open (write_artifact unicode sha256_bytes path content (whole media_type) run)
        (write_artifact-Open path content (whole media_type) run h),
  )

  -- The runs that writes lead to, refused or not.
  pub data Grown : EvidenceRun → EvidenceRun → Type 0 where
    same : {run : EvidenceRun} → Grown run run
    by_write :
        {run next : EvidenceRun} (path : String) (content : Bytes) (facts : Facts)
        → Grown run next
        → Grown run (write_artifact unicode sha256_bytes path content facts next).1
    by_optional :
        {run next : EvidenceRun} (path : String) (content : Bytes) (media_type : String)
        (maximum_bytes : Option ℕ)
        → Grown run next
        → Grown run
            (try_write_optional_artifact unicode sha256_bytes path content media_type maximum_bytes
              next).1

  pub Grown-Open : {run next : EvidenceRun} → Grown run next → Open run → Open next
  Grown-Open same h = h
  Grown-Open (by_write path content facts grown) h =
      write_artifact-Open path content facts _ (Grown-Open grown h)
  Grown-Open (by_optional path content media_type maximum_bytes grown) h =
      try_write_optional_artifact-Open path content media_type maximum_bytes _ (Grown-Open grown h)
