-- ===== src/Storage/Models.antt =====
-- A4-evidence-storage/src/ai_engineering_evidence/models.py: the manifest of a run. `D` is the type
-- of the fields that the store and the verifier encode but do not read. Texts are as pydantic's
-- patterns leave them, times are numbers.
use blindspot_remediation.Prelude.{ℕ, String, Bool, Option, List}

pub data RunPhase : Type 0 where
  task_input change_execution release_gate pipeline_evaluation operational business other : RunPhase

pub record ArtifactManifestEntry : Type 0 where
  pub artifact_id : String
  pub kind : String
  pub phase : RunPhase
  pub sha256 : String
  pub size_bytes : ℕ
  pub media_type : String
  pub object_key : String
  pub source_uri : Option String
  pub producer_component : String
  pub producer_version : String
  pub metadata : List (String × String)

pub record RunManifestCore (D : Type 0) : Type 0 where
  pub run_id : String
  pub artifacts : List ArtifactManifestEntry
  pub started_at : ℕ
  pub completed_at : ℕ
  pub details : D

pub record RunManifest (D : Type 0) : Type 0 where
  pub core : RunManifestCore D
  pub manifest_sha256 : String
  pub published_at : ℕ
  pub storage_format : String

pub record ManifestVerificationResult : Type 0 where
  pub run_id : String
  pub valid : Bool
  pub manifest_digest_valid : Bool
  pub all_artifacts_present : Bool
  pub all_artifact_digests_valid : Bool
  pub verified_artifact_count : ℕ
  pub missing_artifacts : List String
  pub corrupted_artifacts : List String
  pub errors : List String
