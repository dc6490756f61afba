-- ===== src/Storage/Verifier/Completeness.antt =====
-- That the verifier accepts what was ingested and published.
use blindspot_remediation.Prelude.{
  ℕ, ◌+◌, String, true, some, List, [], ◌∷◌, All, length, ◌≡◌, refl, ap, sym, ◌∙◌, arith, eq_iff,
}
use blindspot_remediation.Repair.Workspace.{Bytes}
use blindspot_remediation.Repair.Store.{read_file}
use blindspot_remediation.Storage.Keys.{is_digest, object_key}
use blindspot_remediation.Storage.KeyShapes.{resolve_object_key-object_key}
use blindspot_remediation.Storage.Models.{
  ArtifactManifestEntry, RunManifest, ManifestVerificationResult,
}
use blindspot_remediation.Storage.Store.Actions.{StorageFailure, ok, Store}
use blindspot_remediation.Storage.Store.Returns.{Returns-at}
use blindspot_remediation.Storage.Store.{Library, has_identity, get_object, object_exists}
use blindspot_remediation.Storage.Keys.{safe_run_id}
use blindspot_remediation.Storage.Store.{publish_manifest, get_manifest}
use blindspot_remediation.Storage.Store.Growth.{Grows, Grows-trans}
use blindspot_remediation.Storage.Store.Publication.{
  HasManifest, Published-Grows, publish_manifest-Grown, publish_manifest-Published,
  publish_manifest-safe,
}
use blindspot_remediation.Storage.Recorder.Ingestion.{ingest_all-Grown}
use blindspot_remediation.Storage.Recorder.{Sources, Ingest, ingest_all}
use blindspot_remediation.Storage.Recorder.Ingested.{
  Ingested, All-Ingested-Grows, ingest_all-Ingested,
}
use blindspot_remediation.Storage.Verifier.{
  Findings, no_findings, is_intact, check_artifact, check_artifacts, conclude, verify_manifest,
  verify_run,
}

module _ {D : Type 0} (lib : Library D) (error_text : String → StorageFailure → String) where
  -- Everything that was ingested is found: with no clash, one more is verified.
  module _ (sources : Sources) where
    open sources use {read_bytes}

    -- A file and an object with the same digest have the same length.
    abbrev pub NoClash : Store → Type 0
    NoClash s =
        (path name : String) (a b : Bytes)
        → read_bytes path ≡ some a
        → read_file name s.objects ≡ some b
        → lib.sha256_bytes a ≡ lib.sha256_bytes b
        → length a ≡ length b

    module _ (digests : (content : Bytes) → is_digest (lib.sha256_bytes content) ≡ true) where
      Ingested-exists :
          (s : Store) (artifact : ArtifactManifestEntry)
          → Ingested lib sources s artifact
          → object_exists lib artifact.object_key s ≡ (ok true, s)
      unfolding object_exists
      Ingested-exists s artifact i =
          let found = i.object.0 in
          let resolved =
            rw i.digest at
              (resolve_object_key-object_key (lib.sha256_bytes i.content) (digests i.content)) in
          rw (i.key, resolved, i.object.1) refl

      Ingested-read :
          (s : Store) (artifact : ArtifactManifestEntry) (i : Ingested lib sources s artifact)
          → get_object lib artifact.object_key s ≡ (ok i.object.0, s)
      unfolding get_object
      Ingested-read s artifact i =
          let resolved =
            rw i.digest at
              (resolve_object_key-object_key (lib.sha256_bytes i.content) (digests i.content)) in
          rw (i.key, resolved, i.object.1) refl

      Ingested-is_intact :
          (s : Store) (artifact : ArtifactManifestEntry) (i : Ingested lib sources s artifact)
          → NoClash s
          → is_intact lib error_text artifact i.object.0 ≡ true
      Ingested-is_intact s artifact i clash =
          let same_length =
            clash i.path (object_key artifact.sha256) i.content i.object.0 i.read i.object.1
              (i.digest ∙ sym i.object.2) in
          rw ((eq_iff (lib.sha256_bytes i.object.0) artifact.sha256).1 i.object.2)
            (ground (arith, i.size, same_length))

      check_artifact-intact :
          (artifact : ArtifactManifestEntry) (f : Findings) (s : Store)
          → NoClash s
          → Ingested lib sources s artifact
          → check_artifact lib error_text artifact f s
            ≡ (ok (record f { verified_count = f.verified_count + 1 }), s)
      unfolding check_artifact
      check_artifact-intact artifact f s clash i =
          rw (Ingested-exists s artifact i)
            (rw (Ingested-read s artifact i, Ingested-is_intact s artifact i clash) refl)

      pub check_artifacts-intact :
          (artifacts : List ArtifactManifestEntry) (f : Findings) (s : Store)
          → NoClash s
          → All (Ingested lib sources s) artifacts
          → check_artifacts lib error_text artifacts f s
            ≡ (ok (record f { verified_count = f.verified_count + length artifacts }), s)
      unfolding check_artifacts
      check_artifacts-intact [] f s clash h =
          ap (λ (n : ℕ). (ok (record f { verified_count = n }), s)) (omega arith)
      check_artifacts-intact (artifact ∷ artifacts) f s clash (i, h) =
          rw (check_artifact-intact artifact f s clash i) (
            check_artifacts-intact artifacts (record f { verified_count = f.verified_count + 1 }) s
              clash h
            ∙ ap (λ (n : ℕ). (ok (record f { verified_count = n }), s)) (omega arith))

      conclude-intact :
          (manifest : RunManifest D)
          → has_identity lib manifest ≡ true
          → (conclude lib error_text manifest
              (record no_findings { verified_count = 0 + length manifest.core.artifacts })).valid
            ≡ true
      unfolding conclude
      conclude-intact manifest h = rw h (ground arith)

      -- A manifest with its own digest, of artifacts that were ingested, is valid.
      verify_manifest-intact :
          (manifest : RunManifest D) (s : Store)
          → NoClash s
          → has_identity lib manifest ≡ true
          → All (Ingested lib sources s) manifest.core.artifacts
          → (result : ManifestVerificationResult) × (verify_manifest lib error_text manifest s
              ≡ (ok result, s))
            × (result.valid ≡ true)
      unfolding verify_manifest
      verify_manifest-intact manifest s clash identity h = (
        conclude lib error_text manifest
            (record no_findings { verified_count = 0 + length manifest.core.artifacts }),
        rw (check_artifacts-intact manifest.core.artifacts no_findings s clash h) refl,
        conclude-intact manifest identity,
      )

      get_manifest-found :
          (run_id : String) (manifest : RunManifest D) (s : Store)
          → safe_run_id run_id ≡ true
          → HasManifest lib run_id manifest s
          → get_manifest lib run_id s ≡ (ok manifest, s)
      unfolding get_manifest
      get_manifest-found run_id manifest s safe (text, there, h) = rw (safe, there, h.0, h.1) refl

      -- Where digests have their form, writes are verified, no file that was read clashes with an
      -- object and validated documents with the same canonical JSON have the same artifacts: when
      -- all of a manifest's artifacts were ingested and it was then published, with any growth of
      -- the store between and after, `verify_run` returns a result that says valid.
      pub verify_run-published :
          (is : List Ingest) (m : RunManifest D) (s t u w x : Store) (uri : String)
          → s.verify_after_write ≡ true
          → ingest_all lib sources is [] s ≡ (ok m.core.artifacts, t)
          → Grows t u
          → publish_manifest lib m u ≡ (ok uri, w)
          → Grows w x
          → NoClash x
          → ((text : Bytes) (stored : RunManifest D)
              → lib.model_validate_json text ≡ some stored
              → lib.canonical_json_bytes stored ≡ lib.canonical_json_bytes m
              → stored.core.artifacts ≡ m.core.artifacts)
          → (result : ManifestVerificationResult) × (verify_run lib error_text m.core.run_id x
              ≡ (ok result, x))
            × (result.valid ≡ true)
      unfolding verify_run
      verify_run-published is m s t u w x uri v ingested g published g' clash faithful =
          let first : Grows s t = rw ingested at ((ingest_all-Grown lib sources is []).at s) in
          let second : Grows u w = rw published at ((publish_manifest-Grown lib m).at u) in
          let verifies : u.verify_after_write ≡ true = g.verifies ∙ first.verifies ∙ v in
          let entries =
            All-Ingested-Grows lib sources m.core.artifacts (Grows-trans g (Grows-trans second g'))
              (Returns-at _ (ingest_all lib sources is [] s) m.core.artifacts t
                (ingest_all-Ingested lib sources digests is [] s v tt) ingested) in
          let (stored, has, same) = Published-Grows lib m g' (
            Returns-at _ (publish_manifest lib m u) uri w
              (publish_manifest-Published lib m u verifies) published) in
          let safe = publish_manifest-safe lib m u uri w published in
          let (result, done, valid) =
            verify_manifest-intact stored x clash (has.2.1)
              (rw (← faithful has.0 stored has.2.0 same) at entries) in
          (result, rw (get_manifest-found m.core.run_id stored x safe has) done, valid)
