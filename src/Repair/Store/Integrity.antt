-- ===== src/Repair/Store/Integrity.antt =====
-- The manifest of repair/evidence.py against the directory that it describes.
use blindspot_remediation.Prelude.{
  String, true, false, not, ◌&&◌, Option, none, some, List, [], ◌∷◌, all, mem, length, nat_beq,
  ◌==◌, has_prefix, ◌≡◌, refl, arith, eq_iff, Bool-cases, inl, inr,
}
use blindspot_remediation.Repair.Workspace.{Bytes}
use blindspot_remediation.Repair.Store.Files.{is_sound}
use blindspot_remediation.Repair.Store.{
  ArtifactRecord, Manifest, Files, Directory, read_file, names, inventory, with_manifest, paths,
  find_record, is_recorded, verify_inventory, verify_manifest,
}

all-mem :
    (xs ys : List String)
    → ((n : String) → mem n xs ≡ true → mem n ys ≡ true)
    → all (λ n. mem n ys) xs ≡ true
all-mem [] ys h = refl
all-mem (x ∷ xs) ys h = ground (arith, eq_iff x x, h x, all-mem xs ys (λ n m. h n (ground arith)))

not_mem :
    (x : String) (xs ys : List String)
    → all (λ n. mem n ys) xs ≡ true
    → mem x ys ≡ false
    → mem x xs ≡ false
not_mem x [] ys h absent = refl
not_mem x (y ∷ xs) ys h absent = ground (arith, eq_iff x y, not_mem x xs ys)

read_file-absent :
    (name : String) (files : Files) → mem name (names files) ≡ false → read_file name files ≡ none
read_file-absent name [] h = refl
read_file-absent name ((n, content) ∷ files) h = ground (arith, read_file-absent name files)

find_record-absent :
    (name : String) (records : List ArtifactRecord)
    → mem name (paths records) ≡ false
    → find_record name records ≡ none
find_record-absent name [] h = refl
find_record-absent name (r ∷ records) h = ground (arith, find_record-absent name records)

-- The digest that a record tells.
abbrev pub recorded_digest : Option ArtifactRecord → Option String
recorded_digest none = none
recorded_digest (some r) = some r.sha256

module _ (sha256_bytes : Bytes → String) where
  paths-inventory :
      (files : Files)
      → all (λ n. not (has_prefix n ".tmp_")) (names files) ≡ true
      → paths (inventory sha256_bytes files) ≡ names files
  unfolding inventory
  paths-inventory [] h = refl
  paths-inventory ((n, content) ∷ files) h = ground (arith, paths-inventory files)

  -- A record of another name in front changes nothing for the files.
  all-recorded-cons :
      (r : ArtifactRecord) (records : List ArtifactRecord) (files : Files)
      → mem r.path (names files) ≡ false
      → all (is_recorded sha256_bytes records) files ≡ true
      → all (is_recorded sha256_bytes (r ∷ records)) files ≡ true
  all-recorded-cons r records [] m h = refl
  all-recorded-cons r records ((n, content) ∷ files) m h =
      ground (arith, eq_iff r.path n, eq_iff n r.path, all-recorded-cons r records files)

  eq_self : (s : String) → (s == s) ≡ true
  eq_self s = (eq_iff s s).1 refl

  inventory-recorded :
      (files : Files)
      → is_sound (names files) ≡ true
      → all (is_recorded sha256_bytes (inventory sha256_bytes files)) files ≡ true
  unfolding inventory
  inventory-recorded [] h = refl
  inventory-recorded ((n, content) ∷ files) h = ground (
    arith,
    eq_self n,
    eq_self (sha256_bytes content),
    inventory-recorded files,
    all-recorded-cons
        (record { path = n; size_bytes = length content; sha256 = sha256_bytes content })
        (inventory sha256_bytes files) files,
  )

  -- The manifest that was just written over a directory whose names are distinct, portable and not
  -- temporary is accepted.
  pub verify_manifest-with_manifest :
      (session_id : String) (d : Directory)
      → is_sound (names d.files) ≡ true
      → verify_manifest sha256_bytes session_id (with_manifest sha256_bytes session_id d) ≡ true
  unfolding verify_manifest with_manifest
  verify_manifest-with_manifest session_id d h = ground (
    arith,
    eq_self session_id,
    paths-inventory d.files,
    inventory-recorded d.files,
    all-mem (names d.files) (names d.files) (λ n m. m),
  )

  abbrev pub digest_of : Option Bytes → Option String
  digest_of none = none
  digest_of (some content) = some (sha256_bytes content)

  one_recorded :
      (content : Bytes) (o : Option ArtifactRecord)
      → elim o [
        | none ↦ false
        | some r ↦ nat_beq (length content) r.size_bytes && sha256_bytes content == r.sha256
      ]
        ≡ true
      → some (sha256_bytes content) ≡ recorded_digest o
  one_recorded content none h = cc
  one_recorded content (some r) h = ground (arith, eq_iff (sha256_bytes content) r.sha256)

  recorded_read :
      (name : String) (records : List ArtifactRecord) (files : Files)
      → all (is_recorded sha256_bytes records) files ≡ true
      → mem name (names files) ≡ true
      → digest_of (read_file name files) ≡ recorded_digest (find_record name records)
  recorded_read name records [] h m = cc
  recorded_read name records ((n, content) ∷ files) h m = elim (Bool-cases (name == n)) [
    | inl e ↦
        rw (e, (eq_iff name n).0 e) (one_recorded content (find_record n records) (ground arith))
    | inr e ↦ rw e (recorded_read name records files (ground arith) (ground arith))
  ]

  -- Where a manifest is accepted, its inventory tells for each name the digest of the file in the
  -- directory, and has no record of a name without a file.
  pub verify_manifest-digest :
      (session_id name : String) (files : Files) (m : Manifest)
      → verify_manifest sha256_bytes session_id (record { files = files; manifest = some m }) ≡ true
      → digest_of (read_file name files) ≡ recorded_digest (find_record name m.artifacts)
  unfolding verify_manifest verify_inventory
  verify_manifest-digest session_id name files m h = elim (Bool-cases (mem name (names files))) [
    | inl there ↦ recorded_read name m.artifacts files (ground arith) there
    | inr absent ↦ rw (
      read_file-absent name files absent,
      find_record-absent name m.artifacts
          (not_mem name (paths m.artifacts) (names files) (ground arith) absent),
    )
  ]
