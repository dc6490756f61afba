-- ===== src/Evidence/Verification.antt =====
-- release-gate/src/release_gate/evidence.py: `verify_run`. Every file of the directory is regular.
-- Each check raises `EvidenceError`, so the model tells whether the call returns.
pub mod Inventory
use blindspot_remediation.Prelude.{
  String, Bool, true, false, not, ◌&&◌, ◌||◌, Option, none, some, List, [], ◌∷◌, all, mem, length,
  nat_beq, if◌then◌else◌, ◌==◌,
}
use blindspot_remediation.Repair.Workspace.{Bytes}
use blindspot_remediation.Repair.Store.{Files, read_file}
use blindspot_remediation.Evidence.Paths.{Unicode, key_of, validate_artifact_path}
use blindspot_remediation.Evidence.Package.{Artifact}

-- The fields that both documents have.
pub record Identity : Type 0 where
  pub run_id : String
  pub base_commit : String
  pub candidate_tree : String
  pub patch_sha256 : String
  pub config_sha256 : String

pub record RunManifest : Type 0 where
  pub identity : Identity
  pub artifacts : List Artifact

-- `json.loads` with the schema and the timestamps of a document: `none` where one of them fails.
pub record Readers : Type 0 where
  pub read_result : Bytes → Option Identity
  pub read_manifest : Bytes → Option RunManifest

abbrev pub same_identity : Identity → Identity → Bool
same_identity a b =
    a.run_id == b.run_id
    && (a.base_commit == b.base_commit
        && (a.candidate_tree == b.candidate_tree
            && (a.patch_sha256 == b.patch_sha256 && a.config_sha256 == b.config_sha256)))

-- `dict` from keys, and its keys.
abbrev pub find_key : {A : Type 0} → String → List (String × A) → Option A
find_key key [] = none
find_key key ((k, value) ∷ entries) = if key == k then some value else find_key key entries

abbrev pub keys : {A : Type 0} → List (String × A) → List String
keys [] = []
keys ((k, value) ∷ entries) = k ∷ keys entries

-- An entry with a new key, or `none` where the key is taken.
abbrev pub add_new :
    {A : Type 0} → String → A → Option (List (String × A)) → Option (List (String × A))
add_new key value none = none
add_new key value (some entries) =
    if mem key (keys entries) then none else some ((key, value) ∷ entries)

module _ (unicode : Unicode) (sha256_bytes : Bytes → String) where
  -- The manifest is no artifact of its own.
  abbrev pub is_manifest_name : String → Bool
  is_manifest_name name = unicode.casefold name == "manifest.json"

  -- `actual`: the files by their keys. The order in which the directory is listed does not matter
  -- for whether a key is taken.
  unfoldable pub actual_files : Files → Option (List (String × Bytes))
  unfolding validate_artifact_path
  actual_files [] = some []
  actual_files ((name, content) ∷ files) =
      let others = actual_files files in
      if is_manifest_name name
      then others
      else if name == ".incomplete" || not (validate_artifact_path unicode name)
      then none
      else add_new (key_of unicode name) content others

  -- `records`: the inventory by its keys.
  unfoldable pub inventory_records : List Artifact → Option (List (String × Artifact))
  unfolding validate_artifact_path
  inventory_records [] = some []
  inventory_records (artifact ∷ artifacts) =
      let others = inventory_records artifacts in
      if not (validate_artifact_path unicode artifact.path)
      then none
      else add_new (key_of unicode artifact.path) artifact others

  abbrev pub is_recorded_as : Option Artifact → String → Bool
  is_recorded_as none sha256 = false
  is_recorded_as (some artifact) sha256 = artifact.sha256 == sha256

  -- The file has the size and the digest of its record.
  abbrev pub is_unchanged : Option Artifact → Bytes → Bool
  is_unchanged none content = false
  is_unchanged (some artifact) content =
      nat_beq (length content) artifact.size_bytes && sha256_bytes content == artifact.sha256

  abbrev pub verify_entries :
      Identity → Option (List (String × Bytes)) → Option (List (String × Artifact)) → Bool
  verify_entries result none records = false
  verify_entries result (some actual) none = false
  verify_entries result (some actual) (some records) =
      all (λ key. mem key (keys records)) (keys actual)
      && (all (λ key. mem key (keys actual)) (keys records)
          && (is_recorded_as (find_key "candidate.patch" records) result.patch_sha256
              && (is_recorded_as (find_key "effective-config.json" records) result.config_sha256
                  && all (λ entry. is_unchanged (find_key entry.0 records) entry.1) actual)))

  abbrev pub verify_documents : Files → Option Identity → Option RunManifest → Bool
  verify_documents files none manifest = false
  verify_documents files (some result) none = false
  verify_documents files (some result) (some manifest) =
      same_identity result manifest.identity
      && verify_entries result (actual_files files) (inventory_records manifest.artifacts)

  abbrev pub read_by : {A : Type 0} → (Bytes → Option A) → Option Bytes → Option A
  read_by read none = none
  read_by read (some content) = read content

  -- `verify_run`: whether it returns.
  unfoldable pub verify_run : Readers → Files → Bool
  unfolding actual_files inventory_records
  verify_run readers files =
      verify_documents files (read_by readers.read_result (read_file "result.json" files))
        (read_by readers.read_manifest (read_file "manifest.json" files))
