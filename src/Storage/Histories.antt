-- ===== src/Storage/Histories.antt =====
-- The calls of the storage one after the other, with what other writers link between them.
use blindspot_remediation.Prelude.{String, Option}
use blindspot_remediation.Repair.Workspace.{Bytes}
use blindspot_remediation.Storage.Models.{RunManifest}
use blindspot_remediation.Storage.Store.Actions.{Store, interleave}
use blindspot_remediation.Storage.Store.Growth.{Grows, Grows-refl, Grows-trans, interleave-Grows}
use blindspot_remediation.Storage.Store.Objects.{put_object-Grown}
use blindspot_remediation.Storage.Store.Publication.{publish_manifest-Grown}
use blindspot_remediation.Storage.Store.{Library, put_object, publish_manifest}
use blindspot_remediation.Storage.Recorder.{
  Sources, GateRequest, ExecutionResult, GateResult, ingest_run,
}
use blindspot_remediation.Storage.Recorder.Ingestion.{ingest_run-Grown}

module _ {D : Type 0} (lib : Library D) (sources : Sources) where
  -- What the store may become, each call returning or raising.
  pub data History (s : Store) : Store → Type 0 where
    start : History s s
    put :
        {t : Store} (content : Bytes) (expected : Option String)
        → History s t
        → History s (put_object lib content expected t).1
    publish :
        {t : Store} (manifest : RunManifest D)
        → History s t
        → History s (publish_manifest lib manifest t).1
    recorded :
        {t : Store} (request : GateRequest) (execution : ExecutionResult) (gate : GateResult)
        → History s t
        → History s (ingest_run lib sources request execution gate t).1
    others : {t : Store} → History s t → History s (interleave t)

  -- Over any calls of `put_object` and `publish_manifest` and any ingestions of `record_run`,
  -- whether they return or raise, and any links of other writers, each object and each manifest
  -- that was stored keeps its bytes.
  pub History-Grows : {s t : Store} → History s t → Grows s t
  History-Grows start = Grows-refl _
  History-Grows (put content expected h) =
      Grows-trans (History-Grows h) ((put_object-Grown lib content expected).at _)
  History-Grows (publish manifest h) =
      Grows-trans (History-Grows h) ((publish_manifest-Grown lib manifest).at _)
  History-Grows (recorded request execution gate h) =
      Grows-trans (History-Grows h) ((ingest_run-Grown lib sources request execution gate).at _)
  History-Grows (others h) = Grows-trans (History-Grows h) (interleave-Grows _)
