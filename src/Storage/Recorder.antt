-- ===== src/Storage/Recorder.antt =====
-- A4-evidence-storage/src/ai_engineering_evidence/recorder.py: the ingestion of artifacts by
-- `record_run`, up to the manifest that it makes of them. Of the contracts the fields are here that
-- are read there; `execution_result.execution_artifacts` is read too, which no ExecutionResult of
-- A1-shared-contracts has.
pub mod Ingestion
pub mod Ingested
pub mod Covered
pub mod Collected
use Prim.Native.Char.{code}
use Prim.Native.String.{◌∷◌}
use blindspot_remediation.Prelude.{
  ℕ, String, Bool, true, false, not, ◌&&◌, ◌||◌, Option, none, some, List, [], ◌++◌, any, length,
  map, nat_beq, if◌then◌else◌, ◌==◌,
}
use blindspot_remediation.Prelude as P
use blindspot_remediation.Repair.Workspace.{Bytes}
use blindspot_remediation.Storage.Models.{RunPhase, ArtifactManifestEntry}
use blindspot_remediation.Storage.Store.Actions.{
  StorageFailure, integrity_error, validation_error, unsupported_location, attribute_error, Action,
  pure, raise, ◌>>=◌, ◌>>◌, require,
}
use blindspot_remediation.Storage.Store.{Library, put_object}

pub record ArtifactReference : Type 0 where
  pub artifact_id : String
  pub kind : String
  pub uri : String
  pub sha256 : Option String
  pub media_type : String
  pub size_bytes : Option ℕ
  pub created_at : ℕ
  pub immutable : Bool
  pub metadata : List (String × String)

pub record GateRequest : Type 0 where
  pub run_id : String
  pub task_package_version : String
  pub base_commit : String
  pub candidate_commit : String
  pub requirement_contract : ArtifactReference
  pub evaluation_specification : ArtifactReference
  pub release_policy : ArtifactReference

pub record ExecutionResult : Type 0 where
  pub run_id : String
  pub executor_version : String
  pub base_commit : String
  pub candidate_commit : Option String
  pub patch_artifact : Option ArtifactReference
  -- `none` where the object has no such attribute: the contract has none.
  pub execution_artifacts : Option (List ArtifactReference)

pub record GateResult : Type 0 where
  pub run_id : String
  pub gate_version : String
  pub base_commit : String
  pub candidate_commit : String
  pub evidence_package : ArtifactReference
  -- The `evidence_artifacts` of each of them.
  pub hard_control_results : List (List ArtifactReference)

pub record Url : Type 0 where
  pub scheme : String
  pub netloc : String
  pub path : String

-- What the recorder takes from urllib, the filesystem of the artifacts and pydantic, which checks
-- the patterns of an entry.
pub record Sources : Type 0 where
  pub urlparse : String → Url
  pub unquote : String → String
  pub is_windows : Bool
  pub read_bytes : String → Option Bytes
  pub accepts_entry : ArtifactManifestEntry → Bool

-- The arguments of `ingest`.
pub record Ingest : Type 0 where
  pub reference : Option ArtifactReference
  pub phase : RunPhase
  pub producer_component : String
  pub producer_version : String

-- A path with a drive, without its first slash.
unfoldable pub without_slash : String → String
without_slash (c ∷ (d ∷ (e ∷ rest))) =
    if nat_beq (code c) b'/' && nat_beq (code e) b':' then d ∷ (e ∷ rest) else c ∷ (d ∷ (e ∷ rest))
without_slash path = path

abbrev pub find_entry : String → List ArtifactManifestEntry → Option ArtifactManifestEntry
find_entry artifact_id P.[] = none
find_entry artifact_id (P.◌∷◌ entry entries) =
    if entry.artifact_id == artifact_id then some entry else find_entry artifact_id entries

abbrev pub is_size : Option ℕ → Bytes → Bool
is_size none content = true
is_size (some size) content = nat_beq size (length content)

abbrev pub is_text : Option String → String → Bool
is_text none text = false
is_text (some expected) text = expected == text

module _ {D : Type 0} (lib : Library D) (sources : Sources) where
  open sources use {urlparse, unquote, is_windows, read_bytes, accepts_entry}

  abbrev pub read_path : Option Bytes → Action Bytes
  read_path none = raise integrity_error
  read_path (some content) = pure content

  -- `_read_artifact`
  unfoldable pub read_artifact : ArtifactReference → Action Bytes
  unfolding without_slash
  read_artifact reference = do
    let parsed = urlparse reference.uri
    require (parsed.scheme == "file") unsupported_location
    require (parsed.netloc == "" || parsed.netloc == "localhost") unsupported_location
    let path = unquote parsed.path
    read_path (read_bytes (if is_windows then without_slash path else path))

  abbrev pub entry_of :
      ArtifactReference → RunPhase → String → String → Bytes → String → ArtifactManifestEntry
  entry_of reference phase producer_component producer_version content object_key = record {
    artifact_id = reference.artifact_id;
    kind = reference.kind;
    phase = phase;
    sha256 = lib.sha256_bytes content;
    size_bytes = length content;
    media_type = reference.media_type;
    object_key = object_key;
    source_uri = some reference.uri;
    producer_component = producer_component;
    producer_version = producer_version;
    metadata = reference.metadata;
  }

  abbrev pub stored_entry :
      ArtifactReference → RunPhase → String → String → String → Action ArtifactManifestEntry
  stored_entry reference phase component version sha256 = do
    content ← read_artifact reference
    require (lib.sha256_bytes content == lib.lower sha256) integrity_error
    require (is_size reference.size_bytes content) integrity_error
    object_key ← put_object lib content (some sha256)
    require (accepts_entry (entry_of reference phase component version content object_key))
        validation_error
    pure (entry_of reference phase component version content object_key)

  abbrev pub digested_entry :
      ArtifactReference → RunPhase → String → String → Option String → Action ArtifactManifestEntry
  digested_entry reference phase component version none = raise integrity_error
  digested_entry reference phase component version (some sha256) =
      stored_entry reference phase component version sha256

  -- `_ingest_artifact`
  unfoldable pub ingest_artifact :
      ArtifactReference → RunPhase → String → String → Action ArtifactManifestEntry
  unfolding read_artifact put_object
  ingest_artifact reference phase component version = do
    require reference.immutable integrity_error
    digested_entry reference phase component version reference.sha256

  abbrev pub ingest_new :
      Option ArtifactManifestEntry
      → ArtifactReference
      → Ingest
      → List ArtifactManifestEntry
      → Action (List ArtifactManifestEntry)
  ingest_new (some existing) reference i artifacts = do
    require (is_text reference.sha256 existing.sha256) validation_error
    pure artifacts
  ingest_new none reference i artifacts = do
    entry ← ingest_artifact reference i.phase i.producer_component i.producer_version
    pure (artifacts ++ P.◌∷◌ entry P.[])

  abbrev pub ingest_reference :
      Option ArtifactReference
      → Ingest
      → List ArtifactManifestEntry
      → Action (List ArtifactManifestEntry)
  ingest_reference none i artifacts = pure artifacts
  ingest_reference (some reference) i artifacts =
      ingest_new (find_entry reference.artifact_id artifacts) reference i artifacts

  -- `ingest`: `seen_artifact_ids` are the identifiers of `artifacts`.
  unfoldable pub ingest : Ingest → List ArtifactManifestEntry → Action (List ArtifactManifestEntry)
  unfolding ingest_artifact
  ingest i artifacts = ingest_reference i.reference i artifacts

  -- The calls of `ingest` one after the other.
  unfoldable pub ingest_all :
      List Ingest → List ArtifactManifestEntry → Action (List ArtifactManifestEntry)
  unfolding ingest
  ingest_all P.[] artifacts = pure artifacts
  ingest_all (P.◌∷◌ i rest) artifacts = ingest i artifacts >>= ingest_all rest

  abbrev pub is_candidate : Option String → String → Bool
  is_candidate none commit = false
  is_candidate (some candidate) commit = lib.lower candidate == lib.lower commit

  -- `_validate_run_identity`: whether it returns.
  unfoldable pub has_run_identity : GateRequest → ExecutionResult → GateResult → Bool
  has_run_identity request execution gate =
      execution.run_id == request.run_id
      && (gate.run_id == request.run_id
          && (lib.lower execution.base_commit == lib.lower request.base_commit
              && (lib.lower gate.base_commit == lib.lower request.base_commit
                  && (is_candidate execution.candidate_commit request.candidate_commit
                      && lib.lower gate.candidate_commit == lib.lower request.candidate_commit))))

  abbrev pub task_input : ArtifactReference → GateRequest → Ingest
  task_input reference request = record {
    reference = some reference;
    phase = RunPhase.task_input;
    producer_component = "task-package";
    producer_version = request.task_package_version;
  }

  -- The artifacts of the task package, and the patch.
  abbrev pub first_ingests : GateRequest → ExecutionResult → List Ingest
  first_ingests request execution = P.◌∷◌ (task_input request.requirement_contract request) (
      P.◌∷◌ (task_input request.evaluation_specification request) (
        P.◌∷◌ (task_input request.release_policy request) (
          P.◌∷◌
            (record {
              reference = execution.patch_artifact;
              phase = RunPhase.change_execution;
              producer_component = "ChangeExecutionService";
              producer_version = execution.executor_version;
            })
            P.[])))

  abbrev execution_ingest : ExecutionResult → ArtifactReference → Ingest
  execution_ingest execution reference = record {
    reference = some reference;
    phase = RunPhase.change_execution;
    producer_component = "ChangeExecutionService";
    producer_version = execution.executor_version;
  }

  abbrev gate_ingest : GateResult → ArtifactReference → Ingest
  gate_ingest gate reference = record {
    reference = some reference;
    phase = RunPhase.release_gate;
    producer_component = "ReleaseGateService";
    producer_version = gate.gate_version;
  }

  abbrev control_ingests : GateResult → List (List ArtifactReference) → List Ingest
  control_ingests gate P.[] = P.[]
  control_ingests gate (P.◌∷◌ references controls) =
      map (gate_ingest gate) references ++ control_ingests gate controls

  -- The artifacts of the execution, the package of the gate and the evidence of its controls.
  abbrev pub later_ingests : ExecutionResult → List ArtifactReference → GateResult → List Ingest
  later_ingests execution references gate =
      map (execution_ingest execution) references
      ++ P.◌∷◌ (gate_ingest gate gate.evidence_package)
          (control_ingests gate gate.hard_control_results)

  -- The read of `execution_artifacts`, and the calls of `ingest` from there on.
  abbrev pub ingest_later :
      Option (List ArtifactReference)
      → ExecutionResult
      → GateResult
      → List ArtifactManifestEntry
      → Action (List ArtifactManifestEntry)
  ingest_later none execution gate artifacts = raise attribute_error
  ingest_later (some references) execution gate artifacts =
      ingest_all (later_ingests execution references gate) artifacts

  -- `record_run` up to the artifacts that it collects.
  unfoldable pub ingest_run :
      GateRequest → ExecutionResult → GateResult → Action (List ArtifactManifestEntry)
  unfolding has_run_identity ingest_all
  ingest_run request execution gate = do
    require (has_run_identity request execution gate) validation_error
    artifacts ← ingest_all (first_ingests request execution) P.[]
    ingest_later execution.execution_artifacts execution gate artifacts
