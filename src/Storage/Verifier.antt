-- ===== src/Storage/Verifier.antt =====
-- A4-evidence-storage/src/ai_engineering_evidence/verifier.py: `ManifestVerifier`.
pub mod Acceptance
pub mod Malformed
pub mod Completeness
use blindspot_remediation.Prelude.{
  ℕ, ◌+◌, String, Bool, true, false, not, ◌&&◌, Option, none, some, List, [], ◌∷◌, ◌++◌, is_empty,
  length, nat_beq, if◌then◌else◌, ◌==◌, before,
}
use blindspot_remediation.Repair.Workspace.{Bytes}
use blindspot_remediation.Storage.Models.{
  ArtifactManifestEntry, RunManifest, ManifestVerificationResult,
}
use blindspot_remediation.Storage.Store.Actions.{
  StorageFailure, Result, ok, err, Store, Action, pure, ◌>>=◌,
}
use blindspot_remediation.Storage.Store.{
  Library, canonical_sha256, get_object, object_exists, get_manifest,
}

-- The locals of the loop.
pub record Findings : Type 0 where
  pub missing : List String
  pub corrupted : List String
  pub errors : List String
  pub verified_count : ℕ

abbrev pub no_findings : Findings
no_findings = record { missing = []; corrupted = []; errors = []; verified_count = 0 }

-- `sorted(texts)`
unfoldable pub insert_text : String → List String → List String
insert_text x [] = x ∷ []
insert_text x (y ∷ ys) = if before y x then y ∷ insert_text x ys else x ∷ y ∷ ys

unfoldable pub sorted : List String → List String
unfolding insert_text
sorted [] = []
sorted (x ∷ xs) = insert_text x (sorted xs)

module _ {D : Type 0} (lib : Library D) (error_text : String → StorageFailure → String) where
  abbrev pub is_intact : ArtifactManifestEntry → Bytes → Bool
  is_intact artifact content =
      lib.sha256_bytes content == artifact.sha256 && nat_beq (length content) artifact.size_bytes

  -- The bytes that were read, or the error that is kept.
  abbrev pub judge : ArtifactManifestEntry → Findings → Result Bytes → Findings
  judge artifact f (err e) = record f {
    errors = f.errors ++ error_text artifact.artifact_id e ∷ [];
  }
  judge artifact f (ok content) =
      if is_intact artifact content
      then record f { verified_count = f.verified_count + 1 }
      else record f { corrupted = f.corrupted ++ artifact.artifact_id ∷ [] }

  abbrev pub read_present : ArtifactManifestEntry → Findings → Bool → Action Findings
  read_present artifact f false =
      pure (record f { missing = f.missing ++ artifact.artifact_id ∷ [] })
  read_present artifact f true = λ s.
      let (content, s') = get_object lib artifact.object_key s in pure (judge artifact f content) s'

  -- One pass of the loop.
  unfoldable pub check_artifact : ArtifactManifestEntry → Findings → Action Findings
  unfolding object_exists get_object
  check_artifact artifact f = object_exists lib artifact.object_key >>= read_present artifact f

  unfoldable pub check_artifacts : List ArtifactManifestEntry → Findings → Action Findings
  unfolding check_artifact
  check_artifacts [] f = pure f
  check_artifacts (artifact ∷ artifacts) f = check_artifact artifact f >>= check_artifacts artifacts

  abbrev digest_error : String
  digest_error = "Manifest canonical SHA-256 does not match the recorded digest."

  -- The result after the loop.
  unfoldable pub conclude : RunManifest D → Findings → ManifestVerificationResult
  unfolding sorted
  conclude manifest f =
      let digest_valid = canonical_sha256 lib manifest.core == manifest.manifest_sha256 in
      let all_present = is_empty f.missing in
      let all_valid = is_empty f.corrupted && is_empty f.errors in
      record {
        run_id = manifest.core.run_id;
        valid =
            digest_valid
            && (all_present
                && (all_valid && nat_beq f.verified_count (length manifest.core.artifacts)));
        manifest_digest_valid = digest_valid;
        all_artifacts_present = all_present;
        all_artifact_digests_valid = all_valid;
        verified_artifact_count = f.verified_count;
        missing_artifacts = sorted f.missing;
        corrupted_artifacts = sorted f.corrupted;
        errors = if digest_valid then f.errors else f.errors ++ digest_error ∷ [];
      }

  unfoldable pub verify_manifest : RunManifest D → Action ManifestVerificationResult
  unfolding check_artifacts conclude
  verify_manifest manifest = do
    f ← check_artifacts manifest.core.artifacts no_findings
    pure (conclude manifest f)

  unfoldable pub verify_run : String → Action ManifestVerificationResult
  unfolding get_manifest verify_manifest
  verify_run run_id = get_manifest lib run_id >>= verify_manifest
