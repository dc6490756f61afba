-- ===== src/Storage/Recorder/Collected.antt =====
-- What `record_run` has collected when its ingestion returned.
use blindspot_remediation.Prelude.{true, Option, some, List, ◌++◌, All, ◌≡◌}
use blindspot_remediation.Repair.Workspace.{Bytes}
use blindspot_remediation.Storage.Keys.{is_digest}
use blindspot_remediation.Storage.Models.{ArtifactManifestEntry}
use blindspot_remediation.Storage.Store.Actions.{Store}
use blindspot_remediation.Storage.Store.Returns.{Returns}
use blindspot_remediation.Storage.Store.{Library}
use blindspot_remediation.Storage.Recorder.{
  ArtifactReference, ExecutionResult, GateResult, Sources, Ingest, later_ingests,
}
use blindspot_remediation.Storage.Recorder.Ingested.{Ingested}
use blindspot_remediation.Storage.Recorder.Covered.{Covers}

module _ {D : Type 0} (lib : Library D) (sources : Sources) where
  module _ (digests : (content : Bytes) → is_digest (lib.sha256_bytes content) ≡ true) where
    -- The references were there, each is covered, and each entry is of a file that was read.
    abbrev Collected :
        ExecutionResult
        → GateResult
        → List Ingest
        → Option (List ArtifactReference)
        → List ArtifactManifestEntry
        → Store
        → Type 0
    Collected execution gate is found entries t =
        (references : List ArtifactReference) × (found ≡ some references)
        × All (Covers lib sources entries)
            (is ++ later_ingests lib sources execution references gate)
        × All (Ingested lib sources t) entries
