-- ===== src/Storage/Recorder/Covered.antt =====
-- That the ingestion of a run collects an entry for each reference that it was given.
use blindspot_remediation.Prelude.{
  String, true, Option, none, some, List, [], ◌∷◌, ◌++◌, All, ◌==◌, ◌≡◌, ◌⊎◌, refl, sym, ap, ◌∙◌,
  arith, eq_iff, Bool-cases, inl, inr,
}
use blindspot_remediation.Storage.Models.{RunPhase, ArtifactManifestEntry}
use blindspot_remediation.Storage.Store.Actions.{
  Result, ok, err, integrity_error, validation_error, Store,
}
use blindspot_remediation.Storage.Store.Returns.{
  Returns, returned, raised, bind, require-Returns, weaken,
}
use blindspot_remediation.Storage.Store.{Library, put_object}
use blindspot_remediation.Storage.Recorder.{
  ArtifactReference, Sources, Ingest, read_artifact, entry_of, stored_entry, digested_entry,
  ingest_artifact, ingest_new, ingest_reference, ingest, ingest_all, find_entry, is_size, is_text,
}

-- Each entry that is found by its identifier is still found.
abbrev pub Extends : List ArtifactManifestEntry → List ArtifactManifestEntry → Type 0
Extends xs ys =
    (id : String) (entry : ArtifactManifestEntry)
    → find_entry id xs ≡ some entry
    → find_entry id ys ≡ some entry

find_entry-kept :
    (xs : List ArtifactManifestEntry) (e : ArtifactManifestEntry) → Extends xs (xs ++ e ∷ [])
find_entry-kept [] e id entry h = absurd (ground arith)
find_entry-kept (x ∷ xs) e id entry h = elim (Bool-cases (x.artifact_id == id)) [
  | inl same ↦ rw same (rw same at h)
  | inr other ↦ rw other (find_entry-kept xs e id entry (rw other at h))
]

find_entry-new :
    (xs : List ArtifactManifestEntry) (e : ArtifactManifestEntry)
    → find_entry e.artifact_id xs ≡ none
    → find_entry e.artifact_id (xs ++ e ∷ []) ≡ some e
find_entry-new [] e h = rw ((eq_iff e.artifact_id e.artifact_id).1 refl) refl
find_entry-new (x ∷ xs) e h = elim (Bool-cases (x.artifact_id == e.artifact_id)) [
  | inl same ↦ absurd (ground arith)
  | inr other ↦ rw other (find_entry-new xs e (rw other at h))
]

any_value : {A : Type 0} (x : Result A × Store) → Returns (λ _ _. Unit {0}) x
any_value (ok a, s) = returned a s tt
any_value (err e, s) = raised e s

module _ {D : Type 0} (lib : Library D) (sources : Sources) where
  -- The entry has the digest of the reference, which may be written in capitals.
  abbrev pub HasDigest : ArtifactReference → ArtifactManifestEntry → Type 0
  HasDigest reference entry =
      (sha256 : String) × (reference.sha256 ≡ some sha256)
      × ((sha256 ≡ entry.sha256) ⊎ (lib.lower sha256 ≡ entry.sha256))

  -- A reference, if one is given, has an entry with its identifier and its digest.
  abbrev pub CoversReference : List ArtifactManifestEntry → Option ArtifactReference → Type 0
  CoversReference entries none = Unit
  CoversReference entries (some reference) =
      (entry : ArtifactManifestEntry) × (find_entry reference.artifact_id entries ≡ some entry)
      × HasDigest reference entry

  abbrev pub Covers : List ArtifactManifestEntry → Ingest → Type 0
  Covers entries i = CoversReference entries i.reference

  pub CoversReference-Extends :
      (xs ys : List ArtifactManifestEntry) (reference : Option ArtifactReference)
      → Extends xs ys
      → CoversReference xs reference
      → CoversReference ys reference
  CoversReference-Extends xs ys none k h = tt
  CoversReference-Extends xs ys (some reference) k (entry, found, digest) =
      (entry, k reference.artifact_id entry found, digest)

  -- What is required of a value, of the store nothing.
  stored_entry-HasDigest :
      (reference : ArtifactReference) (phase : RunPhase) (component version sha256 : String)
      (s : Store)
      → reference.sha256 ≡ some sha256
      → Returns
          (λ entry _. (entry.artifact_id ≡ reference.artifact_id) × HasDigest reference entry)
          (stored_entry lib sources reference phase component version sha256 s)
  stored_entry-HasDigest reference phase component version sha256 s given =
      bind (any_value (read_artifact lib sources reference s)) (λ content t _.
        require-Returns (lib.sha256_bytes content == lib.lower sha256) integrity_error _ t (λ e.
          require-Returns (is_size reference.size_bytes content) integrity_error _ t (λ _.
            bind (any_value (put_object lib content (some sha256) t)) (λ object_key u _.
              let entry =
                entry_of lib sources reference phase component version content object_key in
              require-Returns (sources.accepts_entry entry) validation_error _ u (λ _.
                returned entry u
                  (refl, (sha256, given, inr (sym ((eq_iff _ (lib.lower sha256)).0 e)))))))))

  digested_entry-HasDigest :
      (reference : ArtifactReference) (phase : RunPhase) (component version : String)
      (sha256 : Option String) (s : Store)
      → reference.sha256 ≡ sha256
      → Returns
          (λ entry _. (entry.artifact_id ≡ reference.artifact_id) × HasDigest reference entry)
          (digested_entry lib sources reference phase component version sha256 s)
  digested_entry-HasDigest reference phase component version none s given = raised integrity_error s
  digested_entry-HasDigest reference phase component version (some sha256) s given =
      stored_entry-HasDigest reference phase component version sha256 s given

  is_text-HasDigest :
      (reference : ArtifactReference) (sha256 : Option String) (entry : ArtifactManifestEntry)
      → reference.sha256 ≡ sha256
      → is_text sha256 entry.sha256 ≡ true
      → HasDigest reference entry
  is_text-HasDigest reference none entry given e = absurd (ground arith)
  is_text-HasDigest reference (some sha256) entry given e =
      (sha256, given, inl ((eq_iff sha256 entry.sha256).0 e))

  ingest_new-Covers :
      (found : Option ArtifactManifestEntry) (reference : ArtifactReference) (i : Ingest)
      (artifacts : List ArtifactManifestEntry) (s : Store)
      → find_entry reference.artifact_id artifacts ≡ found
      → Returns
          (λ entries _. Extends artifacts entries × CoversReference entries (some reference))
          (ingest_new lib sources found reference i artifacts s)
  unfolding ingest_artifact
  ingest_new-Covers (some existing) reference i artifacts s e =
      require-Returns (is_text reference.sha256 existing.sha256) validation_error _ s (λ same.
        returned artifacts s
          (λ id entry h. h, (existing, e, is_text-HasDigest reference _ existing refl same)))
  ingest_new-Covers none reference i artifacts s e =
      bind
        (require-Returns reference.immutable integrity_error _ s (λ _.
          digested_entry-HasDigest reference i.phase i.producer_component i.producer_version
            reference.sha256 s refl))
        (λ entry t (id, digest). returned (artifacts ++ entry ∷ []) t (
          find_entry-kept artifacts entry,
          (
            entry,
            ap (λ x. find_entry x (artifacts ++ entry ∷ [])) (sym id)
                ∙ find_entry-new artifacts entry (ap (λ x. find_entry x artifacts) id ∙ e),
            digest,
          ),
        ))

  ingest-Covers :
      (i : Ingest) (artifacts : List ArtifactManifestEntry) (s : Store)
      → Returns
          (λ entries _. Extends artifacts entries × Covers entries i)
          (ingest lib sources i artifacts s)
  unfolding ingest
  ingest-Covers i artifacts s = of_reference i.reference
    where
      of_reference :
          (reference : Option ArtifactReference)
          → Returns
              (λ entries _. Extends artifacts entries × CoversReference entries reference)
              (ingest_reference lib sources reference i artifacts s)
      of_reference none = returned artifacts s (λ id entry h. h, tt)
      of_reference (some reference) = ingest_new-Covers _ reference i artifacts s refl

  pub ingest_all-Covers :
      (is : List Ingest) (artifacts : List ArtifactManifestEntry) (s : Store)
      → Returns
          (λ entries _. Extends artifacts entries × All (Covers entries) is)
          (ingest_all lib sources is artifacts s)
  unfolding ingest_all
  ingest_all-Covers [] artifacts s = returned artifacts s (λ id entry h. h, tt)
  ingest_all-Covers (i ∷ is) artifacts s =
      bind (ingest-Covers i artifacts s) (λ first t (k, covers).
        weaken (ingest_all-Covers is first t) (λ entries u (k', rest). (
          λ id entry h. k' id entry (k id entry h),
          (CoversReference-Extends first entries i.reference k' covers, rest),
        )))
