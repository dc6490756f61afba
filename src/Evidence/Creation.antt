-- ===== src/Evidence/Creation.antt =====
-- What a package is when it was created, and what a completed one takes up.
use blindspot_remediation.Prelude.{
  ℕ, ◌+◌, ◌≤◌, String, Bool, true, false, not, Option, none, some, List, any, if◌then◌else◌, ◌==◌,
  ◌≡◌, ◌⊎◌, inl, inr, refl, ap, arith,
}
use blindspot_remediation.Repair.Workspace.{Bytes}
use blindspot_remediation.Evidence.Paths.{Unicode, validate_run_id}
use blindspot_remediation.Evidence.Package.{
  EvidenceFailure, bad_run_id, run_exists, EvidenceRun, whole, ensure_preflight_feasible,
  finalization_reserve, write_artifact,
}
use blindspot_remediation.Evidence.Lifetime.{
  Written, after, empty_run, first_writes, or_failure, create_feasible, create,
}
use blindspot_remediation.Evidence.Budget.{Open, retained, Grown, Grown-Open, write_artifact-Open}

abbrev pub run_or : EvidenceRun → EvidenceFailure ⊎ EvidenceRun → EvidenceRun
run_or default (inl failure) = default
run_or default (inr run) = run

pub else_inr :
    (b : Bool) (failure : EvidenceFailure) (x : EvidenceFailure ⊎ EvidenceRun) (run : EvidenceRun)
    → (if b then inl failure else x) ≡ inr run
    → x ≡ inr run
else_inr true failure x run e = ground arith
else_inr false failure x run e = e

module _ (unicode : Unicode) (sha256_bytes : Bytes → String) where
  or_failure-Open :
      (x : Written) (run : EvidenceRun)
      → Open x.1
      → or_failure unicode sha256_bytes x ≡ inr run
      → Open run
  or_failure-Open (none, r) run h e = rw (← ap (run_or r) e) h
  or_failure-Open (some failure, r) run h e = ground arith

  after-Open :
      (k : EvidenceRun → Written) (x : Written)
      → ((run : EvidenceRun) → Open run → Open (k run).1)
      → Open x.1
      → Open (after k x).1
  after-Open k (none, run) keeps h = keeps run h
  after-Open k (some failure, run) keeps h = h

  module _ (siblings : List String) (run_id : String) (total_bytes : ℕ) (patch config : Bytes) where
    first_writes-Open :
        finalization_reserve ≤ total_bytes
        → Open (first_writes unicode sha256_bytes total_bytes patch config).1
    first_writes-Open room =
        after-Open
          (write_artifact unicode sha256_bytes "effective-config.json" config
            (whole "application/json"))
          _
          (λ run h.
            write_artifact-Open unicode sha256_bytes "effective-config.json" config
              (whole "application/json") run h)
          (write_artifact-Open unicode sha256_bytes "candidate.patch" patch (whole "text/x-diff")
            (empty_run unicode sha256_bytes total_bytes) (refl, refl, omega arith))

    feasible_room :
        ensure_preflight_feasible total_bytes patch config ≡ none
        → finalization_reserve ≤ total_bytes
    unfolding ensure_preflight_feasible
    feasible_room e = ground arith

    create_feasible-Open :
        (failure : Option EvidenceFailure) (run : EvidenceRun)
        → (failure ≡ none → finalization_reserve ≤ total_bytes)
        → create_feasible unicode sha256_bytes failure siblings run_id total_bytes patch config
          ≡ inr run
        → Open run
    create_feasible-Open (some failure) run room e = ground arith
    create_feasible-Open none run room e = or_failure-Open _ run (first_writes-Open (room refl)) (
        else_inr (any (λ sibling. unicode.casefold sibling == unicode.casefold run_id) siblings)
          run_exists _ run e)

    pub create-Open :
        (run : EvidenceRun)
        → create unicode sha256_bytes siblings run_id total_bytes patch config ≡ inr run
        → Open run
    unfolding create
    create-Open run e =
        create_feasible-Open (ensure_preflight_feasible total_bytes patch config) run feasible_room
          (else_inr (not (validate_run_id run_id)) bad_run_id _ run e)

    -- From its creation over any writes, refused or not, a package of evidence retains exactly the
    -- bytes of its artifacts, and the reserve for its finalization still fits the total.
    pub Grown-retained :
        (created run : EvidenceRun)
        → create unicode sha256_bytes siblings run_id total_bytes patch config ≡ inr created
        → Grown unicode sha256_bytes created run
        → (run.retained_bytes ≡ retained run.artifacts)
          × (run.retained_bytes + finalization_reserve ≤ run.total_bytes)
    Grown-retained created run e grown =
        let (opened, bytes, room) = Grown-Open unicode sha256_bytes grown (create-Open created e) in
        (bytes, room)
