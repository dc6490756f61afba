-- ===== src/Storage/Verifier/Malformed.antt =====
-- What the verifier does with a key that the store does not accept.
use blindspot_remediation.Prelude.{
  String, Bool, true, false, Option, none, some, List, [], ◌∷◌, any, ◌≡◌, refl, arith, Bool-cases,
  inl, inr,
}
use blindspot_remediation.Storage.Keys.{resolve_object_key}
use blindspot_remediation.Storage.Models.{ArtifactManifestEntry, RunManifest}
use blindspot_remediation.Storage.Store.Actions.{StorageFailure, err, Store, integrity_error}
use blindspot_remediation.Storage.Store.Returns.{Raises, resume-Raises, then-Raises}
use blindspot_remediation.Storage.Store.{Library, object_exists, exists_at}
use blindspot_remediation.Storage.Verifier.{
  Findings, no_findings, check_artifact, check_artifacts, verify_manifest,
}

-- The store accepts no such key.
abbrev pub is_malformed : ArtifactManifestEntry → Bool
is_malformed artifact = elim (resolve_object_key artifact.object_key) [
  | none ↦ true
  | some path ↦ false
]

module _ {D : Type 0} (lib : Library D) (error_text : String → StorageFailure → String) where
  exists_at-Raises :
      (path : Option String) (s : Store)
      → elim path [ none ↦ true | some p ↦ false ] ≡ true
      → Raises (exists_at lib path s)
  exists_at-Raises none s h = (integrity_error, refl)
  exists_at-Raises (some p) s h = absurd (ground arith)

  check_artifact-Raises :
      (artifact : ArtifactManifestEntry) (f : Findings) (s : Store)
      → is_malformed artifact ≡ true
      → Raises (check_artifact lib error_text artifact f s)
  unfolding check_artifact object_exists
  check_artifact-Raises artifact f s h =
      resume-Raises _ (exists_at lib (resolve_object_key artifact.object_key) s)
        (exists_at-Raises (resolve_object_key artifact.object_key) s h)

  check_artifacts-Raises :
      (artifacts : List ArtifactManifestEntry) (f : Findings) (s : Store)
      → any is_malformed artifacts ≡ true
      → Raises (check_artifacts lib error_text artifacts f s)
  unfolding check_artifacts
  check_artifacts-Raises [] f s h = absurd (ground arith)
  check_artifacts-Raises (artifact ∷ artifacts) f s h = elim (Bool-cases (is_malformed artifact)) [
    | inl e ↦
        resume-Raises _ (check_artifact lib error_text artifact f s)
          (check_artifact-Raises artifact f s e)
    | inr e ↦
        then-Raises _ (check_artifact lib error_text artifact f s)
          (λ g t. check_artifacts-Raises artifacts g t (ground arith))
  ]

  -- Where a manifest has an artifact under a key that the store does not accept, `verify_manifest`
  -- raises instead of giving a result, whatever the other artifacts are.
  pub verify_manifest-malformed :
      (manifest : RunManifest D) (s : Store)
      → any is_malformed manifest.core.artifacts ≡ true
      → (e : StorageFailure) × ((verify_manifest lib error_text manifest s).0 ≡ err e)
  unfolding verify_manifest
  verify_manifest-malformed manifest s h =
      resume-Raises _ (check_artifacts lib error_text manifest.core.artifacts no_findings s)
        (check_artifacts-Raises manifest.core.artifacts no_findings s h)
