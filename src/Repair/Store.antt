-- ===== src/Repair/Store.antt =====
-- release-gate/src/release_gate/repair/evidence.py: the directory of a session and its manifest.
-- A directory is the list of its files but the manifest, sorted by name; every file is regular.
-- The manifest's media types, timestamp and engine version, which nothing reads, are left out.
pub mod Files
pub mod Integrity
use blindspot_remediation.Prelude.{
  ℕ, String, Bool, true, false, not, ◌&&◌, ◌||◌, Option, none, some, List, [], ◌∷◌, all, mem, map,
  length, nat_beq, if◌then◌else◌, ◌==◌, before, contains, has_prefix, distinct,
}
use blindspot_remediation.Repair.Models.{RepairSession, ApprovalRequest, FinalApproval}
use blindspot_remediation.Repair.Workspace.{Bytes}

-- What the package takes from Python and pydantic: the JSON of a model and back, UTF-8, SHA-256 and
-- `str` of a number.
pub record Codec : Type 0 where
  pub encode_session : RepairSession → Bytes
  pub decode_session : Bytes → Option RepairSession
  pub encode_request : ApprovalRequest → Bytes
  pub encode_approval : FinalApproval → Bytes
  pub utf8 : String → Bytes
  pub sha256_bytes : Bytes → String
  pub decimal : ℕ → String

pub record ArtifactRecord : Type 0 where
  pub path : String
  pub size_bytes : ℕ
  pub sha256 : String

pub record Manifest : Type 0 where
  pub version : ℕ
  pub session_id : String
  pub artifacts : List ArtifactRecord

abbrev pub Files : Type 0
Files = List (String × Bytes)

pub record Directory : Type 0 where
  pub files : Files
  pub manifest : Option Manifest

abbrev pub session_filename : String
session_filename = "repair-session-v1.json"

abbrev pub manifest_filename : String
manifest_filename = "repair-manifest.json"

abbrev pub read_file : String → Files → Option Bytes
read_file name [] = none
read_file name ((n, content) ∷ files) = if name == n then some content else read_file name files

abbrev pub names : Files → List String
names [] = []
names ((n, content) ∷ files) = n ∷ names files

unfoldable pub replace_file : String → Bytes → Files → Files
replace_file name content [] = []
replace_file name content ((n, old) ∷ files) =
    (if name == n then (n, content) else (n, old)) ∷ replace_file name content files

unfoldable pub add_file : String → Bytes → Files → Files
add_file name content [] = (name, content) ∷ []
add_file name content ((n, old) ∷ files) =
    if before name n
    then (name, content) ∷ ((n, old) ∷ files)
    else (n, old) ∷ add_file name content files

-- A write of a file, a new one at its place by name: `_atomic_write` and `write_bytes`.
unfoldable pub write_file : String → Bytes → Files → Files
unfolding replace_file add_file
write_file name content files =
    if mem name (names files) then replace_file name content files else add_file name content files

-- `sorted(iterdir())` without the temporary files, each with its size and digest.
unfoldable pub inventory : (Bytes → String) → Files → List ArtifactRecord
inventory sha256_bytes [] = []
inventory sha256_bytes ((n, content) ∷ files) =
    if has_prefix n ".tmp_"
    then inventory sha256_bytes files
    else record { path = n; size_bytes = length content; sha256 = sha256_bytes content }
      ∷ inventory sha256_bytes files

-- `write_manifest`
unfoldable pub with_manifest : (Bytes → String) → String → Directory → Directory
unfolding inventory
with_manifest sha256_bytes session_id d = record d {
  manifest =
      some (record {
        version = 1;
        session_id = session_id;
        artifacts = inventory sha256_bytes d.files;
      });
}

abbrev pub paths : List ArtifactRecord → List String
paths [] = []
paths (r ∷ records) = r.path ∷ paths records

-- A name that the inventory may hold.
unfoldable pub is_portable : String → Bool
is_portable name =
    not (mem name ("" ∷ "." ∷ ".." ∷ manifest_filename ∷ []))
    && (not (contains "/" name) && not (contains "\\" name))

-- The record of a name: `records[name]`.
abbrev pub find_record : String → List ArtifactRecord → Option ArtifactRecord
find_record name [] = none
find_record name (r ∷ records) = if name == r.path then some r else find_record name records

-- The file is the one that the inventory describes.
abbrev pub is_recorded : (Bytes → String) → List ArtifactRecord → String × Bytes → Bool
is_recorded sha256_bytes records (name, content) = elim (find_record name records) [
  | none ↦ false
  | some r ↦ nat_beq (length content) r.size_bytes && sha256_bytes content == r.sha256
]

-- The loop over the inventory, and the comparison of its names with those of the directory. That
-- every name of the directory is recorded is part of the last test.
unfoldable pub verify_inventory : (Bytes → String) → Files → List ArtifactRecord → Bool
unfolding is_portable
verify_inventory sha256_bytes files records =
    all is_portable (paths records)
    && (distinct (paths records)
        && (all (λ name. mem name (names files)) (paths records)
            && all (is_recorded sha256_bytes records) files))

-- `verify_manifest`: whether it returns; otherwise it raises `ValueError`.
unfoldable pub verify_manifest : (Bytes → String) → String → Directory → Bool
unfolding verify_inventory
verify_manifest sha256_bytes session_id d = elim d.manifest [
  | none ↦ false
  | some m ↦
      nat_beq m.version 1
      && (m.session_id == session_id && verify_inventory sha256_bytes d.files m.artifacts)
]
