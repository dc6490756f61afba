-- ===== src/Evidence/Retention.antt =====
-- What a package still holds when its finalization returned, over all writes since its creation.
use blindspot_remediation.Prelude.{
  ℕ, String, not, Option, none, some, List, All, any, ◌==◌, ◌≡◌, ap, arith, inr,
}
use blindspot_remediation.Repair.Workspace.{Bytes}
use blindspot_remediation.Evidence.Paths.{Unicode, validate_run_id}
use blindspot_remediation.Evidence.Package.{
  EvidenceFailure, bad_run_id, run_exists, EvidenceRun, whole, write_artifact, forgiven,
  try_write_optional_artifact, ensure_preflight_feasible, finalization_reserve,
}
use blindspot_remediation.Evidence.Lifetime.{
  Documents, Written, after, finalize, empty_run, first_writes, or_failure, create_feasible, create,
}
use blindspot_remediation.Evidence.Budget.{Grown, same, by_write, by_optional}
use blindspot_remediation.Evidence.Finalization.{KeepsName}
use blindspot_remediation.Evidence.Completion.{Complete, finalize-Complete}
use blindspot_remediation.Evidence.Creation.{run_or, else_inr, Grown-retained}
use blindspot_remediation.Evidence.Recorded.{
  NormalizesParts, Kept, Recorded, write_reserving-Recorded,
}
use blindspot_remediation.Evidence.Settled.{Unmarked, finalize-Settles}

module _ (unicode : Unicode) (sha256_bytes : Bytes → String) where
  module _ (normal : NormalizesParts unicode) (keeps : KeepsName unicode "manifest.json") where
    abbrev IsRecorded : EvidenceRun → Type 0
    IsRecorded = Recorded unicode sha256_bytes

    forgiven-Recorded :
        (x : Written) → IsRecorded x.1 → IsRecorded (forgiven unicode sha256_bytes x).1
    forgiven-Recorded (none, run) h = h
    forgiven-Recorded (some failure, run) h = ground arith

    try_write_optional_artifact-Recorded :
        (path : String) (content : Bytes) (media_type : String) (maximum_bytes : Option ℕ)
        (run : EvidenceRun)
        → IsRecorded run
        → IsRecorded
            (try_write_optional_artifact unicode sha256_bytes path content media_type maximum_bytes
              run).1
    unfolding try_write_optional_artifact
    try_write_optional_artifact-Recorded path content media_type maximum_bytes run h = ground (
      arith,
      h,
      forgiven-Recorded (write_artifact unicode sha256_bytes path content (whole media_type) run) (
          write_reserving-Recorded unicode sha256_bytes normal keeps finalization_reserve path
            content (whole media_type) run h),
    )

    Grown-Recorded :
        {run next : EvidenceRun}
        → Grown unicode sha256_bytes run next
        → IsRecorded run
        → IsRecorded next
    Grown-Recorded same h = h
    Grown-Recorded (by_write path content facts grown) h =
        write_reserving-Recorded unicode sha256_bytes normal keeps finalization_reserve path content
          facts _ (Grown-Recorded grown h)
    Grown-Recorded (by_optional path content media_type maximum_bytes grown) h =
        try_write_optional_artifact-Recorded path content media_type maximum_bytes _
          (Grown-Recorded grown h)

    or_failure-Recorded :
        (x : Written) (run : EvidenceRun)
        → IsRecorded x.1
        → or_failure unicode sha256_bytes x ≡ inr run
        → IsRecorded run
    or_failure-Recorded (none, r) run h e = rw (← ap (run_or r) e) h
    or_failure-Recorded (some failure, r) run h e = ground arith

    after-Recorded :
        (k : EvidenceRun → Written) (x : Written)
        → ((run : EvidenceRun) → IsRecorded run → IsRecorded (k run).1)
        → IsRecorded x.1
        → IsRecorded (after k x).1
    after-Recorded k (none, run) next h = next run h
    after-Recorded k (some failure, run) next h = h

    module _ (siblings : List String) (run_id : String) (total_bytes : ℕ)
        (patch config : Bytes) where
      first_writes-Recorded :
          IsRecorded (first_writes unicode sha256_bytes total_bytes patch config).1
      first_writes-Recorded =
          after-Recorded
            (write_artifact unicode sha256_bytes "effective-config.json" config
              (whole "application/json"))
            (write_artifact unicode sha256_bytes "candidate.patch" patch (whole "text/x-diff")
              (empty_run unicode sha256_bytes total_bytes))
            (write_reserving-Recorded unicode sha256_bytes normal keeps finalization_reserve
              "effective-config.json" config (whole "application/json"))
            (write_reserving-Recorded unicode sha256_bytes normal keeps finalization_reserve
              "candidate.patch" patch (whole "text/x-diff")
              (empty_run unicode sha256_bytes total_bytes) tt)

      create_feasible-Recorded :
          (failure : Option EvidenceFailure) (run : EvidenceRun)
          → create_feasible unicode sha256_bytes failure siblings run_id total_bytes patch config
            ≡ inr run
          → IsRecorded run
      create_feasible-Recorded (some failure) run e = ground arith
      create_feasible-Recorded none run e =
          or_failure-Recorded (first_writes unicode sha256_bytes total_bytes patch config) run
            first_writes-Recorded
            (else_inr
              (any (λ sibling. unicode.casefold sibling == unicode.casefold run_id) siblings)
              run_exists _ run e)

      create-Recorded :
          (run : EvidenceRun)
          → create unicode sha256_bytes siblings run_id total_bytes patch config ≡ inr run
          → IsRecorded run
      unfolding create
      create-Recorded run e =
          create_feasible-Recorded (ensure_preflight_feasible total_bytes patch config) run
            (else_inr (not (validate_run_id run_id)) bad_run_id _ run e)

      -- Where `finalize` returns after any writes since the creation of the package, refused or
      -- not, no artifact has the name of the mark of an incomplete run, a path is normalized where
      -- its parts are, and Unicode leaves the manifest's name as it is, the package is complete,
      -- and each artifact of its inventory reads at its path a content of the recorded size and
      -- digest.
      pub finalize-Recorded :
          (documents : Documents) (created run : EvidenceRun)
          → create unicode sha256_bytes siblings run_id total_bytes patch config ≡ inr created
          → Grown unicode sha256_bytes created run
          → Unmarked run
          → (finalize unicode sha256_bytes documents run).0 ≡ none
          → Complete documents (finalize unicode sha256_bytes documents run).1
            × All
                (Kept unicode sha256_bytes (finalize unicode sha256_bytes documents run).1.files)
                (finalize unicode sha256_bytes documents run).1.artifacts
      finalize-Recorded documents created run e grown unmarked done = (
        finalize-Complete unicode sha256_bytes documents run
            (Grown-retained unicode sha256_bytes siblings run_id total_bytes patch config created
              run e grown).0
            done,
        finalize-Settles unicode sha256_bytes normal keeps documents run
            (Grown-Recorded grown (create-Recorded created e), unmarked) done,
      )
