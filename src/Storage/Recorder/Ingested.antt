-- ===== src/Storage/Recorder/Ingested.antt =====
-- That each entry that the ingestion returned has an object with the digest of the artifact.
use blindspot_remediation.Prelude.{
  String, true, ◌||◌, if◌then◌else◌, Option, none, some, List, [], ◌∷◌, ◌++◌, All, length, ◌==◌,
  ◌≡◌, refl, ap, ◌∙◌,
}
use blindspot_remediation.Repair.Workspace.{Bytes}
use blindspot_remediation.Storage.Keys.{is_digest, object_key}
use blindspot_remediation.Storage.Models.{RunPhase, ArtifactManifestEntry}
use blindspot_remediation.Storage.Store.Actions.{
  integrity_error, validation_error, unsupported_location, Store,
}
use blindspot_remediation.Storage.Store.Growth.{Grows}
use blindspot_remediation.Storage.Store.Returns.{
  Returns, returned, raised, bind, require-Returns, also,
}
use blindspot_remediation.Storage.Store.Objects.{put_object-HasObject, HasObject, HasObject-Grows}
use blindspot_remediation.Storage.Store.{Library}
use blindspot_remediation.Storage.Recorder.{
  ArtifactReference, Sources, Ingest, read_path, read_artifact, entry_of, stored_entry,
  digested_entry, ingest_artifact, ingest_new, ingest_reference, ingest, ingest_all, find_entry,
  is_size, is_text, without_slash,
}
use blindspot_remediation.Storage.Recorder.Ingestion.{ingest_artifact-Grown, ingest-Grown}

module _ {D : Type 0} (lib : Library D) (sources : Sources) where
  open sources use {read_bytes}

  -- The entry is that of a file that was read, and the store has an object of its digest.
  pub record Ingested (s : Store) (entry : ArtifactManifestEntry) : Type 0 where
    pub object : HasObject lib entry.sha256 s
    pub key : entry.object_key ≡ object_key entry.sha256
    pub path : String
    pub content : Bytes
    pub read : read_bytes path ≡ some content
    pub digest : lib.sha256_bytes content ≡ entry.sha256
    pub size : length content ≡ entry.size_bytes

  pub Ingested-Grows :
      {s t : Store} (entry : ArtifactManifestEntry)
      → Grows s t
      → Ingested s entry
      → Ingested t entry
  Ingested-Grows entry g i = record {
    object = HasObject-Grows lib entry.sha256 g i.object;
    key = i.key;
    path = i.path;
    content = i.content;
    read = i.read;
    digest = i.digest;
    size = i.size;
  }

  pub All-Ingested-Grows :
      {s t : Store} (entries : List ArtifactManifestEntry)
      → Grows s t
      → All (Ingested s) entries
      → All (Ingested t) entries
  All-Ingested-Grows [] g h = tt
  All-Ingested-Grows (entry ∷ entries) g (i, h) =
      (Ingested-Grows entry g i, All-Ingested-Grows entries g h)

  All-Ingested-snoc :
      (s : Store) (entries : List ArtifactManifestEntry) (entry : ArtifactManifestEntry)
      → All (Ingested s) entries
      → Ingested s entry
      → All (Ingested s) (entries ++ entry ∷ [])
  All-Ingested-snoc s [] entry h i = (i, tt)
  All-Ingested-snoc s (x ∷ entries) entry (j, h) i = (j, All-Ingested-snoc s entries entry h i)

  -- A file has the content.
  abbrev WasRead : Bytes → Type 0
  WasRead content = (path : String) × (read_bytes path ≡ some content)

  read_path-WasRead :
      (path : String) (found : Option Bytes) (s : Store)
      → read_bytes path ≡ found
      → Returns (λ content t. (t ≡ s) × WasRead content) (read_path lib sources found s)
  read_path-WasRead path none s e = raised integrity_error s
  read_path-WasRead path (some content) s e = returned content s (refl, (path, e))

  pub read_artifact-WasRead :
      (reference : ArtifactReference) (s : Store)
      → Returns (λ content t. (t ≡ s) × WasRead content) (read_artifact lib sources reference s)
  unfolding read_artifact
  read_artifact-WasRead reference s =
      let parsed = sources.urlparse reference.uri in
      let path = sources.unquote parsed.path in
      let file = if sources.is_windows then without_slash path else path in
      require-Returns (parsed.scheme == "file") unsupported_location _ s (λ _.
        require-Returns (parsed.netloc == "" || parsed.netloc == "localhost") unsupported_location _
          s (λ _. read_path-WasRead file (read_bytes file) s refl))

  module _ (digests : (content : Bytes) → is_digest (lib.sha256_bytes content) ≡ true) where
    pub stored_entry-Ingested :
        (reference : ArtifactReference) (phase : RunPhase) (component version sha256 : String)
        (s : Store)
        → s.verify_after_write ≡ true
        → Returns
            (λ entry t. Ingested t entry)
            (stored_entry lib sources reference phase component version sha256 s)
    stored_entry-Ingested reference phase component version sha256 s v =
        bind (read_artifact-WasRead reference s) (λ content t h.
          require-Returns (lib.sha256_bytes content == lib.lower sha256) integrity_error _ t (λ _.
            require-Returns (is_size reference.size_bytes content) integrity_error _ t (λ _.
              bind
                (put_object-HasObject lib digests content (some sha256) t
                  (ap (λ (x : Store). x.verify_after_write) h.0 ∙ v))
                (λ object_key u k.
                  let entry =
                    entry_of lib sources reference phase component version content object_key in
                  require-Returns (sources.accepts_entry entry) validation_error _ u (λ _.
                    returned entry u (record {
                      object = k.1;
                      key = k.0;
                      path = h.1.0;
                      content = content;
                      read = h.1.1;
                      digest = refl;
                      size = refl;
                    }))))))

    digested_entry-Ingested :
        (reference : ArtifactReference) (phase : RunPhase) (component version : String)
        (sha256 : Option String) (s : Store)
        → s.verify_after_write ≡ true
        → Returns
            (λ entry t. Ingested t entry)
            (digested_entry lib sources reference phase component version sha256 s)
    digested_entry-Ingested reference phase component version none s v = raised integrity_error s
    digested_entry-Ingested reference phase component version (some sha256) s v =
        stored_entry-Ingested reference phase component version sha256 s v

    ingest_artifact-Ingested :
        (reference : ArtifactReference) (phase : RunPhase) (component version : String) (s : Store)
        → s.verify_after_write ≡ true
        → Returns
            (λ entry t. Ingested t entry)
            (ingest_artifact lib sources reference phase component version s)
    unfolding ingest_artifact
    ingest_artifact-Ingested reference phase component version s v =
        require-Returns reference.immutable integrity_error _ s
          (λ _. digested_entry-Ingested reference phase component version reference.sha256 s v)

    ingest_new-Ingested :
        (found : Option ArtifactManifestEntry) (reference : ArtifactReference) (i : Ingest)
        (artifacts : List ArtifactManifestEntry) (s : Store)
        → s.verify_after_write ≡ true
        → All (Ingested s) artifacts
        → Returns
            (λ entries t. All (Ingested t) entries)
            (ingest_new lib sources found reference i artifacts s)
    ingest_new-Ingested (some existing) reference i artifacts s v h =
        require-Returns (is_text reference.sha256 existing.sha256) validation_error _ s
          (λ _. returned artifacts s h)
    ingest_new-Ingested none reference i artifacts s v h =
        bind
          (also (Grows s) _
            (ingest_artifact-Ingested reference i.phase i.producer_component i.producer_version s v)
            ((ingest_artifact-Grown lib sources reference i.phase i.producer_component
                i.producer_version).at
              s))
          (λ entry t k.
            returned (artifacts ++ entry ∷ []) t
              (All-Ingested-snoc t artifacts entry (All-Ingested-Grows artifacts k.1 h) k.0))

    ingest_reference-Ingested :
        (reference : Option ArtifactReference) (i : Ingest) (artifacts : List ArtifactManifestEntry)
        (s : Store)
        → s.verify_after_write ≡ true
        → All (Ingested s) artifacts
        → Returns
            (λ entries t. All (Ingested t) entries)
            (ingest_reference lib sources reference i artifacts s)
    ingest_reference-Ingested none i artifacts s v h = returned artifacts s h
    ingest_reference-Ingested (some reference) i artifacts s v h =
        ingest_new-Ingested (find_entry reference.artifact_id artifacts) reference i artifacts s v h

    ingest-Ingested :
        (i : Ingest) (artifacts : List ArtifactManifestEntry) (s : Store)
        → s.verify_after_write ≡ true
        → All (Ingested s) artifacts
        → Returns (λ entries t. All (Ingested t) entries) (ingest lib sources i artifacts s)
    unfolding ingest
    ingest-Ingested i artifacts s v h = ingest_reference-Ingested i.reference i artifacts s v h

    pub ingest_all-Ingested :
        (is : List Ingest) (artifacts : List ArtifactManifestEntry) (s : Store)
        → s.verify_after_write ≡ true
        → All (Ingested s) artifacts
        → Returns (λ entries t. All (Ingested t) entries) (ingest_all lib sources is artifacts s)
    unfolding ingest_all
    ingest_all-Ingested [] artifacts s v h = returned artifacts s h
    ingest_all-Ingested (i ∷ is) artifacts s v h =
        bind
          (also (Grows s) _ (ingest-Ingested i artifacts s v h)
            ((ingest-Grown lib sources i artifacts).at s))
          (λ entries t k. ingest_all-Ingested is entries t (k.1.verifies ∙ v) k.0)
