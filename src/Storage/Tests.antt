-- ===== src/Storage/Tests.antt =====
-- The storage on a small artifact, and the instances of the theorems on it.
use blindspot_remediation.Prelude.{
  String, true, false, none, some, List, [], ◌∷◌, All, any, length, ◌≡◌, refl, arith,
}
use blindspot_remediation.Repair.Workspace.{Bytes}
use blindspot_remediation.Repair.Store.{read_file}
use blindspot_remediation.Storage.Keys.{is_digest, object_key, resolve_object_key, safe_run_id}
use blindspot_remediation.Storage.KeyShapes.{IsKey, resolve_object_key-IsKey}
use blindspot_remediation.Storage.Models.{
  RunPhase, ArtifactManifestEntry, RunManifest, ManifestVerificationResult,
}
use blindspot_remediation.Storage.Store.Actions.{
  StorageFailure, attribute_error, ok, err, Store, interleave,
}
use blindspot_remediation.Storage.Store.{
  Library, has_identity, put_object, get_object, publish_manifest,
}
use blindspot_remediation.Storage.Store.Growth.{Grows, Grows-refl}
use blindspot_remediation.Storage.Recorder.{
  ArtifactReference, GateRequest, ExecutionResult, GateResult, Sources, Ingest, ingest_all, ingest,
  ingest_artifact, read_artifact, has_run_identity, ingest_run,
}
use blindspot_remediation.Storage.Store.Objects.{get_object-put_object}
use blindspot_remediation.Storage.Store.Publication.{publish_manifest_once, publish_manifest-lost}
use blindspot_remediation.Storage.Recorder.Ingested.{Ingested}
use blindspot_remediation.Storage.Verifier.Completeness.{verify_run-published}
use blindspot_remediation.Storage.Verifier.Acceptance.{IsIntact, verify_manifest-valid}
use blindspot_remediation.Storage.Verifier.Malformed.{is_malformed, verify_manifest-malformed}
use blindspot_remediation.Storage.Histories.{start, put, publish, History-Grows}
use blindspot_remediation.Storage.Verifier.{verify_manifest, verify_run}

-- Of one digest, for the one content that is used.
abbrev digest : String
digest = "0123456789abcdef0123456789abcdef0123456789abcdef0123456789abcdef"

abbrev report : Bytes
report = 1 ∷ 2 ∷ 3 ∷ []

abbrev entry : ArtifactManifestEntry
entry = record {
  artifact_id = "report";
  kind = "test_results";
  phase = RunPhase.task_input;
  sha256 = digest;
  size_bytes = 3;
  media_type = "text/plain";
  object_key = object_key digest;
  source_uri = some "file:///report";
  producer_component = "task-package";
  producer_version = "1.0.0";
  metadata = [];
}

abbrev manifest : RunManifest (Unit {0})
manifest = record {
  core = record {
    run_id = "run-1";
    artifacts = entry ∷ [];
    started_at = 1;
    completed_at = 2;
    details = tt;
  };
  manifest_sha256 = digest;
  published_at = 3;
  storage_format = "canonical-json-sha256";
}

abbrev library : Library (Unit {0})
library = record {
  sha256_bytes = λ content. digest;
  lower = λ text. text;
  canonical_json_bytes = λ m. 7 ∷ [];
  canonical_core = λ core. 8 ∷ [];
  pretty_json_bytes = λ m. 9 ∷ [];
  model_validate_json = λ text. some manifest;
  as_uri = λ run_id. run_id;
}

abbrev sources : Sources
sources = record {
  urlparse = λ uri. record { scheme = "file"; netloc = ""; path = "/report" };
  unquote = λ path. path;
  is_windows = false;
  read_bytes = λ path. some report;
  accepts_entry = λ e. true;
}

abbrev reference : ArtifactReference
reference = record {
  artifact_id = "report";
  kind = "test_results";
  uri = "file:///report";
  sha256 = some digest;
  media_type = "text/plain";
  size_bytes = some 3;
  created_at = 0;
  immutable = true;
  metadata = [];
}

abbrev ingests : List Ingest
ingests =
    record {
      reference = some reference;
      phase = RunPhase.task_input;
      producer_component = "task-package";
      producer_version = "1.0.0";
    }
    ∷ []

abbrev empty : Store
empty = record { verify_after_write = true; objects = []; manifests = []; rivals = [] }

abbrev after_ingestion : Store
after_ingestion = record empty { objects = (object_key digest, report) ∷ [] }

abbrev after_publication : Store
after_publication = record after_ingestion { manifests = ("run-1", 9 ∷ []) ∷ [] }

digests : (content : Bytes) → is_digest (library.sha256_bytes content) ≡ true
digests content = refl

ingests_report : ingest_all library sources ingests [] empty ≡ (ok (entry ∷ []), after_ingestion)
unfolding ingest_all put_object
ingests_report = refl

publishes : publish_manifest library manifest after_ingestion ≡ (ok "run-1", after_publication)
unfolding publish_manifest
publishes = refl

abbrev no_text : String → StorageFailure → String
no_text artifact_id failure = ""

one_object :
    (path name : String) (a b : Bytes)
    → sources.read_bytes path ≡ some a
    → read_file name after_publication.objects ≡ some b
    → library.sha256_bytes a ≡ library.sha256_bytes b
    → length a ≡ length b
one_object path name a b p q e = ground arith

verify_run-published_example :
    (result : ManifestVerificationResult) × (verify_run library no_text "run-1" after_publication
      ≡ (ok result, after_publication))
    × (result.valid ≡ true)
verify_run-published_example =
    verify_run-published library no_text sources digests ingests manifest empty after_ingestion
      after_ingestion after_publication after_publication "run-1" refl ingests_report
      (Grows-refl after_ingestion) publishes (Grows-refl after_publication) one_object
      (λ text stored parsed same. ground arith)

abbrev accepted : ManifestVerificationResult
accepted = record {
  run_id = "run-1";
  valid = true;
  manifest_digest_valid = true;
  all_artifacts_present = true;
  all_artifact_digests_valid = true;
  verified_artifact_count = 1;
  missing_artifacts = [];
  corrupted_artifacts = [];
  errors = [];
}

accepts : verify_manifest library no_text manifest after_ingestion ≡ (ok accepted, after_ingestion)
unfolding verify_manifest object_key
accepts = refl

verify_manifest-valid_example :
    (has_identity library manifest ≡ true)
    × All (IsIntact library no_text after_ingestion) (entry ∷ [])
verify_manifest-valid_example =
    verify_manifest-valid library no_text manifest after_ingestion after_ingestion accepted accepts
      refl

History-Grows_example :
    Grows after_ingestion
      (publish_manifest library manifest (put_object library report none after_ingestion).1).1
History-Grows_example = History-Grows library sources (publish manifest (put report none start))

abbrev republished : RunManifest (Unit {0})
republished = record manifest { published_at = 4 }

republishes :
    publish_manifest library republished after_publication ≡ (ok "run-1", after_publication)
unfolding publish_manifest
republishes = refl

publish_manifest_once_example :
    library.canonical_json_bytes manifest ≡ library.canonical_json_bytes republished
publish_manifest_once_example =
    publish_manifest_once library manifest republished after_ingestion after_publication
      after_publication after_publication "run-1" "run-1" refl refl publishes
      (Grows-refl after_publication) republishes

puts : put_object library report (some digest) empty ≡ (ok (object_key digest), after_ingestion)
unfolding put_object
puts = refl

get_object-put_object_example :
    (found : Bytes) × (get_object library (object_key digest) after_ingestion
      ≡ (ok found, after_ingestion))
    × (library.sha256_bytes found ≡ library.sha256_bytes report)
get_object-put_object_example =
    get_object-put_object library digests report (some digest) empty after_ingestion after_ingestion
      (object_key digest) refl puts (Grows-refl after_ingestion)

resolves : resolve_object_key (object_key digest) ≡ some (object_key digest)
unfolding resolve_object_key object_key
resolves = refl

resolve_object_key-IsKey_example : IsKey (object_key digest)
resolve_object_key-IsKey_example =
    resolve_object_key-IsKey (object_key digest) (object_key digest) resolves

escapes :
    resolve_object_key
      "objects/sha256/../0123456789abcdef0123456789abcdef0123456789abcdef0123456789abcdef"
    ≡ none
unfolding resolve_object_key
escapes = refl

abbrev request : GateRequest
request = record {
  run_id = "run-1";
  task_package_version = "1.0.0";
  base_commit = "a";
  candidate_commit = "b";
  requirement_contract = reference;
  evaluation_specification = reference;
  release_policy = reference;
}

abbrev execution : ExecutionResult
execution = record {
  run_id = "run-1";
  executor_version = "1.0.0";
  base_commit = "a";
  candidate_commit = some "b";
  patch_artifact = none;
  execution_artifacts = some (reference ∷ []);
}

abbrev gate : GateResult
gate = record {
  run_id = "run-1";
  gate_version = "1.0.0";
  base_commit = "a";
  candidate_commit = "b";
  evidence_package = reference;
  hard_control_results = (reference ∷ []) ∷ [];
}

-- An execution without the attribute.
lacks_attribute :
    (ingest_run library sources request
      (record execution { execution_artifacts = none })
      gate
      empty).0
    ≡ err attribute_error
unfolding ingest_run ingest_all ingest ingest_artifact read_artifact put_object has_run_identity
lacks_attribute = refl

abbrev misplaced : RunManifest (Unit {0})
misplaced = record manifest {
  core = record manifest.core { artifacts = record entry { object_key = "report.json" } ∷ [] };
}

refuses_key : any is_malformed misplaced.core.artifacts ≡ true
unfolding resolve_object_key
refuses_key = refl

verify_manifest-malformed_example :
    (e : StorageFailure) × ((verify_manifest library no_text misplaced after_ingestion).0 ≡ err e)
verify_manifest-malformed_example =
    verify_manifest-malformed library no_text misplaced after_ingestion refuses_key

-- Another writer publishes a manifest of the run first.
abbrev raced : Store
raced = record {
  verify_after_write = false;
  objects = [];
  manifests = [];
  rivals = record { objects = []; manifests = ("run-1", 5 ∷ []) ∷ [] } ∷ [];
}

taken : read_file "run-1" (interleave raced).manifests ≡ some (5 ∷ [])
unfolding interleave
taken = refl

run_is_safe : safe_run_id "run-1" ≡ true
unfolding safe_run_id
run_is_safe = refl

lost_race :
    ((publish_manifest library manifest raced).0 ≡ ok "run-1")
    × (read_file "run-1" (publish_manifest library manifest raced).1.manifests ≡ some (5 ∷ []))
lost_race = publish_manifest-lost library manifest raced (5 ∷ []) refl refl run_is_safe refl taken
