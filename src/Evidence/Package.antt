-- ===== src/Evidence/Package.antt =====
-- release-gate/src/release_gate/evidence.py: `EvidenceRun`. A file write succeeds; the directory of
-- the run is the list of its files.
use blindspot_remediation.Prelude.{
  ℕ, ◌+◌, String, Bool, true, false, not, ◌&&◌, ◌||◌, Option, none, some, List, [], ◌∷◌, ◌++◌, any,
  length, ltb, if◌then◌else◌, ◌==◌,
}
use blindspot_remediation.Repair.Workspace.{Bytes}
use blindspot_remediation.Repair.Store.{Files, write_file}
use blindspot_remediation.Evidence.Paths.{Unicode, key_of, validate_artifact_path}

abbrev pub finalization_reserve : ℕ
finalization_reserve = 7_340_032

abbrev pub result_limit : ℕ
result_limit = 2_097_152

abbrev pub manifest_limit : ℕ
manifest_limit = 4_194_304

abbrev pub trace_limit : ℕ
trace_limit = 1_048_576

abbrev pub manifest_artifact_limit : ℕ
manifest_artifact_limit = 4_740

abbrev pub max_total : ℕ
max_total = 209_715_200

-- `EvidenceBudgetExhausted`, and the other uses of `EvidenceError`.
pub data EvidenceFailure : Type 0 where
  budget_exhausted : EvidenceFailure
  total_too_large reserve_exceeded bad_run_id run_exists : EvidenceFailure
  append_only bad_path path_collides facts_missing : EvidenceFailure
  trace_too_large result_too_large manifest_too_large completed_too_large : EvidenceFailure
  bad_result bad_manifest : EvidenceFailure

pub record Artifact : Type 0 where
  pub path : String
  pub media_type : String
  pub size_bytes : ℕ
  pub sha256 : String
  pub truncated : Bool
  pub original_size_bytes : Option ℕ
  pub full_sha256 : Option String

pub record EvidenceRun : Type 0 where
  pub total_bytes : ℕ
  pub files : Files
  pub artifacts : List Artifact
  pub retained_bytes : ℕ
  pub complete : Bool

-- `ensure_preflight_feasible`; what it returns is read by no caller.
unfoldable pub ensure_preflight_feasible : ℕ → Bytes → Bytes → Option EvidenceFailure
ensure_preflight_feasible total_bytes patch config =
    if ltb max_total total_bytes
    then some total_too_large
    else if ltb total_bytes (length patch + length config + finalization_reserve)
    then some reserve_exceeded
    else none

-- What a write is given beside the bytes.
pub record Facts : Type 0 where
  pub media_type : String
  pub truncated : Bool
  pub original_size_bytes : Option ℕ
  pub full_sha256 : Option String

abbrev is_none : {A : Type 0} → Option A → Bool
is_none none = true
is_none (some a) = false

-- The facts of an artifact that was not truncated.
abbrev pub whole : String → Facts
whole media_type = record {
  media_type = media_type;
  truncated = false;
  original_size_bytes = none;
  full_sha256 = none;
}

module _ (unicode : Unicode) (sha256_bytes : Bytes → String) where
  abbrev pub artifact_of : String → Bytes → Facts → Artifact
  artifact_of path content facts = record {
    path = path;
    media_type = facts.media_type;
    size_bytes = length content;
    sha256 = sha256_bytes content;
    truncated = facts.truncated;
    original_size_bytes = if facts.truncated then facts.original_size_bytes else none;
    full_sha256 = if facts.truncated then facts.full_sha256 else none;
  }

  -- The path collides with one that was written.
  abbrev pub collides : String → List Artifact → Bool
  collides path artifacts = any (λ a. unicode.casefold a.path == key_of unicode path) artifacts

  -- The run after a write.
  abbrev pub stored : String → Bytes → Facts → EvidenceRun → EvidenceRun
  stored path content facts run = record run {
    files = write_file path content run.files;
    artifacts = run.artifacts ++ artifact_of path content facts ∷ [];
    retained_bytes = run.retained_bytes + length content;
  }

  -- What `_write_artifact` raises, if it does; `reserve` is kept free.
  unfoldable pub write_failure : ℕ → String → Bytes → Facts → EvidenceRun → Option EvidenceFailure
  unfolding validate_artifact_path
  write_failure reserve path content facts run =
      if run.complete
      then some append_only
      else if not (validate_artifact_path unicode path)
      then some bad_path
      else if collides path run.artifacts
      then some path_collides
      else if ltb run.total_bytes (run.retained_bytes + length content + reserve)
      then some budget_exhausted
      else if facts.truncated && (is_none facts.original_size_bytes || is_none facts.full_sha256)
      then some facts_missing
      else none

  abbrev pub store_unless :
      Option EvidenceFailure
      → String
      → Bytes
      → Facts
      → EvidenceRun
      → Option EvidenceFailure × EvidenceRun
  store_unless none path content facts run = (none, stored path content facts run)
  store_unless (some failure) path content facts run = (some failure, run)

  -- `_write_artifact`
  unfoldable pub write_reserving :
      ℕ → String → Bytes → Facts → EvidenceRun → Option EvidenceFailure × EvidenceRun
  unfolding write_failure
  write_reserving reserve path content facts run =
      store_unless (write_failure reserve path content facts run) path content facts run

  -- `write_artifact`
  abbrev pub write_artifact :
      String → Bytes → Facts → EvidenceRun → Option EvidenceFailure × EvidenceRun
  write_artifact = write_reserving finalization_reserve

  abbrev is_too_long : Option ℕ → Bytes → Bool
  is_too_long none content = false
  is_too_long (some maximum_bytes) content = ltb maximum_bytes (length content)

  -- The exhausted budget of an optional write is no failure.
  abbrev pub forgiven : Option EvidenceFailure × EvidenceRun → Option EvidenceFailure × EvidenceRun
  forgiven (some budget_exhausted, run) = (none, run)
  forgiven (failure, run) = (failure, run)

  -- `try_write_optional_artifact`
  unfoldable pub try_write_optional_artifact :
      String → Bytes → String → Option ℕ → EvidenceRun → Option EvidenceFailure × EvidenceRun
  unfolding write_reserving
  try_write_optional_artifact path content media_type maximum_bytes run =
      if is_too_long maximum_bytes content
      then (none, run)
      else if ltb manifest_artifact_limit (length run.artifacts + 3)
      then (none, run)
      else forgiven (write_artifact path content (whole media_type) run)
