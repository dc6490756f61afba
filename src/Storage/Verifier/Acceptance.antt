-- ===== src/Storage/Verifier/Acceptance.antt =====
-- What the verifier accepts: all that was ingested and published, and nothing else.
use blindspot_remediation.Prelude.{
  ◌+◌, ◌≤◌, String, Bool, true, false, Option, none, some, List, [], ◌∷◌, All, length, ◌≡◌, refl,
  ap, ◌∙◌, arith, inl, inr, Bool-cases,
}
use blindspot_remediation.Repair.Workspace.{Bytes}
use blindspot_remediation.Repair.Store.{read_file}
use blindspot_remediation.Storage.Keys.{resolve_object_key}
use blindspot_remediation.Storage.Models.{
  ArtifactManifestEntry, RunManifest, ManifestVerificationResult,
}
use blindspot_remediation.Storage.Store.Actions.{
  StorageFailure, Result, ok, err, Store, pure, integrity_error,
}
use blindspot_remediation.Storage.Store.Returns.{
  Returns, returned, raised, bind, weaken, Returns-at,
}
use blindspot_remediation.Storage.Store.{
  Library, has_identity, get_object, object_exists, get_at, exists_at, read_object,
}
use blindspot_remediation.Storage.Verifier.{
  Findings, no_findings, is_intact, judge, read_present, check_artifact, check_artifacts, conclude,
  verify_manifest,
}

module _ {D : Type 0} (lib : Library D) (error_text : String → StorageFailure → String) where
  -- The store has an object at the artifact's key, of its digest and size.
  abbrev pub IsIntact : Store → ArtifactManifestEntry → Type 0
  IsIntact s artifact =
      (content : Bytes) × (get_object lib artifact.object_key s ≡ (ok content, s))
      × (is_intact lib error_text artifact content ≡ true)

  -- One more artifact is verified, or it is not intact.
  abbrev Counts : Store → ArtifactManifestEntry → Findings → Findings → Store → Type 0
  Counts s artifact f f' t =
      (t ≡ s)
      × (f'.verified_count ≤ f.verified_count + 1)
      × (f'.verified_count ≡ f.verified_count + 1 → IsIntact s artifact)

  judge-Counts :
      (artifact : ArtifactManifestEntry) (f : Findings) (s : Store) (x : Result Bytes × Store)
      → get_object lib artifact.object_key s ≡ x
      → x.1 ≡ s
      → Returns (Counts s artifact f) (pure (judge lib error_text artifact f x.0) x.1)
  judge-Counts artifact f s (err e, t) h same =
      returned _ t (same, omega arith, λ k. absurd (omega arith))
  judge-Counts artifact f s (ok content, t) h same =
      elim (Bool-cases (is_intact lib error_text artifact content)) [
        | inl e ↦ rw e (
            returned _ t
              (same, omega arith, λ k. (content, h ∙ ap (λ (x : Store). (ok content, x)) same, e)))
        | inr e ↦ rw e (returned _ t (same, omega arith, λ k. absurd (omega arith)))
      ]

  read_object-store : (found : Option Bytes) (s : Store) → (read_object lib found s).1 ≡ s
  read_object-store none s = refl
  read_object-store (some content) s = refl

  get_at-store : (path : Option String) (s : Store) → (get_at lib path s).1 ≡ s
  get_at-store none s = refl
  get_at-store (some path) s = read_object-store (read_file path s.objects) s

  get_object-store : (key : String) (s : Store) → (get_object lib key s).1 ≡ s
  unfolding get_object
  get_object-store key s = get_at-store (resolve_object_key key) s

  read_present-Counts :
      (artifact : ArtifactManifestEntry) (f : Findings) (s : Store) (b : Bool)
      → Returns (Counts s artifact f) (read_present lib error_text artifact f b s)
  read_present-Counts artifact f s false =
      returned _ s (refl, omega arith, λ k. absurd (omega arith))
  read_present-Counts artifact f s true =
      judge-Counts artifact f s (get_object lib artifact.object_key s) refl
        (get_object-store artifact.object_key s)

  exists_at-store :
      (path : Option String) (s : Store) → Returns (λ b t. t ≡ s) (exists_at lib path s)
  exists_at-store none s = raised integrity_error s
  exists_at-store (some path) s = returned _ s refl

  object_exists-store :
      (key : String) (s : Store) → Returns (λ b t. t ≡ s) (object_exists lib key s)
  unfolding object_exists
  object_exists-store key s = exists_at-store (resolve_object_key key) s

  check_artifact-Counts :
      (artifact : ArtifactManifestEntry) (f : Findings) (s : Store)
      → Returns (Counts s artifact f) (check_artifact lib error_text artifact f s)
  unfolding check_artifact
  check_artifact-Counts artifact f s =
      bind (object_exists-store artifact.object_key s)
        (λ b t same. rw same (read_present-Counts artifact f s b))

  -- All of them are verified, or one is not intact.
  abbrev CountsAll : Store → List ArtifactManifestEntry → Findings → Findings → Store → Type 0
  CountsAll s artifacts f f' t =
      (t ≡ s)
      × (f'.verified_count ≤ f.verified_count + length artifacts)
      × (f'.verified_count ≡ f.verified_count + length artifacts → All (IsIntact s) artifacts)

  check_artifacts-CountsAll :
      (artifacts : List ArtifactManifestEntry) (f : Findings) (s : Store)
      → Returns (CountsAll s artifacts f) (check_artifacts lib error_text artifacts f s)
  unfolding check_artifacts
  check_artifacts-CountsAll [] f s = returned f s (refl, omega arith, λ k. tt)
  check_artifacts-CountsAll (artifact ∷ artifacts) f s =
      bind (check_artifact-Counts artifact f s) (λ g t h.
        let rest : Returns (CountsAll s artifacts g)
            (check_artifacts lib error_text artifacts g t) =
          rw h.0 (check_artifacts-CountsAll artifacts g s) in
        weaken rest (λ g' u k. (
          k.0,
          omega (arith, h.1, k.1),
          λ e.
              let counted : (g.verified_count ≡ f.verified_count + 1)
                  × (g'.verified_count ≡ g.verified_count + length artifacts) =
                omega (arith, h.1, k.1) in
              (h.2 counted.0, k.2 counted.1),
        )))

  conclude-valid :
      (manifest : RunManifest D) (f : Findings)
      → (conclude lib error_text manifest f).valid ≡ true
      → (has_identity lib manifest ≡ true) × (f.verified_count ≡ length manifest.core.artifacts)
  unfolding conclude
  conclude-valid manifest f h = ground arith

  verify_manifest-IsIntact :
      (manifest : RunManifest D) (s : Store)
      → Returns
          (λ result _.
            result.valid ≡ true
            → (has_identity lib manifest ≡ true) × All (IsIntact s) manifest.core.artifacts)
          (verify_manifest lib error_text manifest s)
  unfolding verify_manifest
  verify_manifest-IsIntact manifest s =
      bind (check_artifacts-CountsAll manifest.core.artifacts no_findings s) (λ f t h.
        returned (conclude lib error_text manifest f) t
          (λ v. let known = conclude-valid manifest f v in (known.0, h.2 (known.1 ∙ omega arith))))

  -- A result that says valid is given only for a manifest with its own digest of which every
  -- artifact can be read from the store, with the digest and the size that are recorded.
  pub verify_manifest-valid :
      (manifest : RunManifest D) (s t : Store) (result : ManifestVerificationResult)
      → verify_manifest lib error_text manifest s ≡ (ok result, t)
      → result.valid ≡ true
      → (has_identity lib manifest ≡ true) × All (IsIntact s) manifest.core.artifacts
  verify_manifest-valid manifest s t result e v =
      Returns-at _ (verify_manifest lib error_text manifest s) result t
        (verify_manifest-IsIntact manifest s) e v
