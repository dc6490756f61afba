-- ===== src/Storage/Store.antt =====
-- A4-evidence-storage/src/ai_engineering_evidence/store.py: `LocalContentAddressedEvidenceStore` on a
-- filesystem that other writers share. Between the test for a file and its hard link the others may
-- link files of their own: `rivals` lists what they link at each such point. The filesystem itself
-- does not fail.
pub mod Actions
pub mod Growth
pub mod Returns
pub mod Objects
pub mod Publication
use Actions.*
use blindspot_remediation.Prelude.{String, Bool, true, false, Option, none, some, ◌==◌}
use blindspot_remediation.Repair.Workspace.{Bytes}
use blindspot_remediation.Repair.Store.{Files, read_file}
use blindspot_remediation.Storage.Models.{RunManifest, RunManifestCore}
use blindspot_remediation.Storage.Keys.{object_key, resolve_object_key, safe_run_id}

-- What the store takes from hashlib, json and pydantic: the JSON of manifests, canonical and
-- indented, and its validation; and `str.lower` and `Path.as_uri`.
pub record Library (D : Type 0) : Type 0 where
  pub sha256_bytes : Bytes → String
  pub lower : String → String
  pub canonical_json_bytes : RunManifest D → Bytes
  pub canonical_core : RunManifestCore D → Bytes
  pub pretty_json_bytes : RunManifest D → Bytes
  pub model_validate_json : Bytes → Option (RunManifest D)
  pub as_uri : String → String

module _ {D : Type 0} (lib : Library D) where
  open lib use {
    sha256_bytes, lower, canonical_json_bytes, canonical_core, pretty_json_bytes,
    model_validate_json, as_uri,
  }

  -- `canonical_sha256`
  abbrev pub canonical_sha256 : RunManifestCore D → String
  canonical_sha256 core = sha256_bytes (canonical_core core)

  -- Whether the file has the digest.
  abbrev pub has_digest : String → Option Bytes → Bool
  has_digest digest none = false
  has_digest digest (some content) = sha256_bytes content == digest

  abbrev pub expects : Option String → String → Bool
  expects none digest = true
  expects (some expected) digest = digest == lower expected

  abbrev pub verify_object : Bool → String → String → Action (Unit {0})
  verify_object false path digest = pure tt
  verify_object true path digest =
      λ s. require (has_digest digest (read_file path s.objects)) integrity_error s

  -- The file is new, or it was found with its content.
  abbrev pub put_file : Option Bytes → String → String → Bytes → Action (Unit {0})
  put_file (some existing) path digest content =
      require (sha256_bytes existing == digest) integrity_error
  put_file none path digest content = λ s.
      let s' = create_object path content s in verify_object s.verify_after_write path digest s'

  abbrev pub put_at : Option String → String → Bytes → Action (Unit {0})
  put_at none digest content = raise integrity_error
  put_at (some path) digest content = λ s. put_file (read_file path s.objects) path digest content s

  unfoldable pub put_object : Bytes → Option String → Action String
  unfolding object_key resolve_object_key create_object
  put_object content expected = do
    let digest = sha256_bytes content
    require (expects expected digest) integrity_error
    put_at (resolve_object_key (object_key digest)) digest content
    pure (object_key digest)

  abbrev pub read_object : Option Bytes → Action Bytes
  read_object none = raise object_not_found
  read_object (some content) = pure content

  abbrev pub get_at : Option String → Action Bytes
  get_at none = raise integrity_error
  get_at (some path) = λ s. read_object (read_file path s.objects) s

  unfoldable pub get_object : String → Action Bytes
  unfolding resolve_object_key
  get_object key = get_at (resolve_object_key key)

  abbrev pub is_file : Option Bytes → Bool
  is_file none = false
  is_file (some content) = true

  abbrev pub exists_at : Option String → Action Bool
  exists_at none = raise integrity_error
  exists_at (some path) = λ s. pure (is_file (read_file path s.objects)) s

  unfoldable pub object_exists : String → Action Bool
  unfolding resolve_object_key
  object_exists key = exists_at (resolve_object_key key)

  -- `_validate_manifest_identity`: whether it returns.
  abbrev pub has_identity : RunManifest D → Bool
  has_identity manifest = canonical_sha256 manifest.core == manifest.manifest_sha256

  abbrev pub validated : Option (RunManifest D) → Action (RunManifest D)
  validated none = raise integrity_error
  validated (some manifest) = do require (has_identity manifest) integrity_error; pure manifest

  abbrev pub loaded : Option Bytes → Action (RunManifest D)
  loaded none = raise manifest_not_found
  loaded (some text) = validated (model_validate_json text)

  unfoldable pub get_manifest : String → Action (RunManifest D)
  unfolding safe_run_id
  get_manifest run_id = do
    require (safe_run_id run_id) integrity_error
    λ s. loaded (read_file run_id s.manifests) s

  -- The canonical JSON is the same.
  abbrev pub agrees : RunManifest D → RunManifest D → Bool
  agrees a b = same_bytes (canonical_json_bytes a) (canonical_json_bytes b)

  abbrev pub verify_manifest_file : Bool → RunManifest D → String → Action (Unit {0})
  verify_manifest_file false manifest run_id = pure tt
  verify_manifest_file true manifest run_id = do
    published ← get_manifest run_id
    require (agrees published manifest) integrity_error

  -- The file is new, or it was found with its text.
  abbrev pub publish_file : Option Bytes → RunManifest D → String → Action (Unit {0})
  publish_file (some text) manifest run_id = do
    existing ← validated (model_validate_json text)
    require (agrees existing manifest) manifest_exists
  publish_file none manifest run_id = λ s.
      verify_manifest_file s.verify_after_write manifest run_id
        (create_manifest run_id (pretty_json_bytes manifest) s)

  unfoldable pub publish_manifest : RunManifest D → Action String
  unfolding safe_run_id get_manifest create_manifest
  publish_manifest manifest = do
    let run_id = manifest.core.run_id
    require (has_identity manifest) integrity_error
    require (safe_run_id run_id) integrity_error
    λ s. publish_file (read_file run_id s.manifests) manifest run_id s
    pure (as_uri run_id)
