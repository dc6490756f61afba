-- ===== src/Storage/Recorder/Ingestion.antt =====
-- What the ingestion of artifacts leaves in the store.
use blindspot_remediation.Prelude.{
  String, ◌||◌, if◌then◌else◌, Option, none, some, List, [], ◌∷◌, ◌++◌, ◌==◌,
}
use blindspot_remediation.Repair.Workspace.{Bytes}
use blindspot_remediation.Storage.Models.{RunPhase, ArtifactManifestEntry}
use blindspot_remediation.Storage.Store.Actions.{
  integrity_error, validation_error, unsupported_location, attribute_error,
}
use blindspot_remediation.Storage.Store.Growth.{
  Grown, pure-Grown, raise-Grown, require-Grown, bind-Grown,
}
use blindspot_remediation.Storage.Store.Objects.{put_object-Grown}
use blindspot_remediation.Storage.Store.{Library}
use blindspot_remediation.Storage.Recorder.{
  ArtifactReference, GateRequest, ExecutionResult, GateResult, Sources, Ingest, read_path,
  read_artifact, entry_of, digested_entry, ingest_artifact, ingest_new, ingest_reference, ingest,
  ingest_all, find_entry, first_ingests, later_ingests, ingest_later, ingest_run, is_size, is_text,
  without_slash,
}

module _ {D : Type 0} (lib : Library D) (sources : Sources) where
  open sources use {read_bytes}

  read_path-Grown : (found : Option Bytes) → Grown (read_path lib sources found)
  read_path-Grown none = raise-Grown integrity_error
  read_path-Grown (some content) = pure-Grown content

  read_artifact-Grown :
      (reference : ArtifactReference) → Grown (read_artifact lib sources reference)
  unfolding read_artifact
  read_artifact-Grown reference =
      let parsed = sources.urlparse reference.uri in
      let path = sources.unquote parsed.path in
      bind-Grown _ _ (require-Grown (parsed.scheme == "file") unsupported_location) (λ _.
        bind-Grown _ _
          (require-Grown (parsed.netloc == "" || parsed.netloc == "localhost") unsupported_location)
          (λ _.
            read_path-Grown (read_bytes (if sources.is_windows then without_slash path else path))))

  digested_entry-Grown :
      (reference : ArtifactReference) (phase : RunPhase) (component version : String)
      (sha256 : Option String)
      → Grown (digested_entry lib sources reference phase component version sha256)
  digested_entry-Grown reference phase component version none = raise-Grown integrity_error
  digested_entry-Grown reference phase component version (some sha256) =
      bind-Grown _ _ (read_artifact-Grown reference) (λ content.
        bind-Grown _ _
          (require-Grown (lib.sha256_bytes content == lib.lower sha256) integrity_error)
          (λ _.
            bind-Grown _ _ (require-Grown (is_size reference.size_bytes content) integrity_error)
              (λ _. bind-Grown _ _ (put_object-Grown lib content (some sha256)) (λ object_key.
                let entry =
                  entry_of lib sources reference phase component version content object_key in
                bind-Grown _ _ (require-Grown (sources.accepts_entry entry) validation_error)
                  (λ _. pure-Grown entry)))))

  pub ingest_artifact-Grown :
      (reference : ArtifactReference) (phase : RunPhase) (component version : String)
      → Grown (ingest_artifact lib sources reference phase component version)
  unfolding ingest_artifact
  ingest_artifact-Grown reference phase component version =
      bind-Grown _ _ (require-Grown _ integrity_error)
        (λ _. digested_entry-Grown reference phase component version reference.sha256)

  ingest_new-Grown :
      (found : Option ArtifactManifestEntry) (reference : ArtifactReference) (i : Ingest)
      (artifacts : List ArtifactManifestEntry)
      → Grown (ingest_new lib sources found reference i artifacts)
  ingest_new-Grown none reference i artifacts =
      bind-Grown _ _
        (ingest_artifact-Grown reference i.phase i.producer_component i.producer_version)
        (λ entry. pure-Grown (artifacts ++ entry ∷ []))
  ingest_new-Grown (some existing) reference i artifacts =
      bind-Grown _ _ (require-Grown (is_text reference.sha256 existing.sha256) validation_error)
        (λ _. pure-Grown artifacts)

  ingest_reference-Grown :
      (reference : Option ArtifactReference) (i : Ingest) (artifacts : List ArtifactManifestEntry)
      → Grown (ingest_reference lib sources reference i artifacts)
  ingest_reference-Grown none i artifacts = pure-Grown artifacts
  ingest_reference-Grown (some reference) i artifacts =
      ingest_new-Grown (find_entry reference.artifact_id artifacts) reference i artifacts

  pub ingest-Grown :
      (i : Ingest) (artifacts : List ArtifactManifestEntry) → Grown (ingest lib sources i artifacts)
  unfolding ingest
  ingest-Grown i artifacts = ingest_reference-Grown i.reference i artifacts

  pub ingest_all-Grown :
      (is : List Ingest) (artifacts : List ArtifactManifestEntry)
      → Grown (ingest_all lib sources is artifacts)
  unfolding ingest_all
  ingest_all-Grown [] artifacts = pure-Grown artifacts
  ingest_all-Grown (i ∷ is) artifacts =
      bind-Grown _ _ (ingest-Grown i artifacts) (ingest_all-Grown is)

  ingest_later-Grown :
      (references : Option (List ArtifactReference)) (execution : ExecutionResult)
      (gate : GateResult) (artifacts : List ArtifactManifestEntry)
      → Grown (ingest_later lib sources references execution gate artifacts)
  ingest_later-Grown none execution gate artifacts = raise-Grown attribute_error
  ingest_later-Grown (some references) execution gate artifacts =
      ingest_all-Grown (later_ingests lib sources execution references gate) artifacts

  pub ingest_run-Grown :
      (request : GateRequest) (execution : ExecutionResult) (gate : GateResult)
      → Grown (ingest_run lib sources request execution gate)
  unfolding ingest_run
  ingest_run-Grown request execution gate = bind-Grown _ _ (require-Grown _ validation_error) (λ _.
      bind-Grown _ _ (ingest_all-Grown (first_ingests lib sources request execution) [])
        (ingest_later-Grown execution.execution_artifacts execution gate))
