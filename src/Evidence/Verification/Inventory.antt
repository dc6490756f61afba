-- ===== src/Evidence/Verification/Inventory.antt =====
-- What an accepted package has, and what is not looked at.
use blindspot_remediation.Prelude.{
  String, Bool, true, false, Option, none, some, List, [], ◌∷◌, all, mem, length, if◌then◌else◌,
  ◌==◌, ◌≡◌, refl, sym, arith, eq_iff, Bool-cases, inl, inr, ◌⊎◌, All,
}
use blindspot_remediation.Repair.Workspace.{Bytes}
use blindspot_remediation.Repair.Store.{Files, read_file}
use blindspot_remediation.Evidence.Paths.{Unicode, key_of}
use blindspot_remediation.Evidence.Package.{Artifact}
use blindspot_remediation.Evidence.Verification.{
  Identity, RunManifest, Readers, find_key, keys, add_new, is_manifest_name, actual_files,
  inventory_records, is_unchanged, verify_entries, verify_documents, read_by, verify_run,
}

-- The artifact stands in the inventory.
abbrev pub Elem : Artifact → List Artifact → Type 0
Elem a [] = ⊥
Elem a (b ∷ artifacts) = (a ≡ b) ⊎ Elem a artifacts

mem_of_all :
    (x : String) (xs ys : List String)
    → all (λ key. mem key ys) xs ≡ true
    → mem x xs ≡ true
    → mem x ys ≡ true
mem_of_all x [] ys h m = ground arith
mem_of_all x (y ∷ xs) ys h m = ground (arith, eq_iff x y, mem_of_all x xs ys)

-- What was added is in front, or was there.
add_new-some :
    {A : Type 0} (key : String) (value : A) (o : Option (List (String × A)))
    (entries : List (String × A))
    → add_new key value o ≡ some entries
    → (old : List (String × A)) × (o ≡ some old) × ((key, value) ∷ old ≡ entries)
add_new-some key value none entries h = absurd (ground arith)
add_new-some key value (some old) entries h = elim (Bool-cases (mem key (keys old))) [
  | inl e ↦ absurd (ground arith)
  | inr e ↦ (old, refl, ground arith)
]

find_key-cons :
    {A : Type 0} (key k : String) (a b : A) (entries : List (String × A))
    → find_key key ((k, a) ∷ entries) ≡ some b
    → ((key ≡ k) × (a ≡ b)) ⊎ (find_key key entries ≡ some b)
find_key-cons key k a b entries h = elim (Bool-cases (key == k)) [
  | inl e ↦ inl ((eq_iff key k).0 e, ground arith)
  | inr e ↦ inr (rw e at h)
]

guard-some :
    {A : Type 0} (b : Bool) (x : Option A) (a : A) → (if b then none else x) ≡ some a → x ≡ some a
guard-some true x a h = absurd (ground arith)
guard-some false x a h = h

module _ (unicode : Unicode) (sha256_bytes : Bytes → String) where
  actual_files-extra :
      (name : String) (content : Bytes) (files : Files)
      → is_manifest_name unicode sha256_bytes name ≡ true
      → actual_files unicode sha256_bytes ((name, content) ∷ files)
        ≡ actual_files unicode sha256_bytes files
  unfolding actual_files
  actual_files-extra name content files m = rw m refl

  verify_documents-files :
      (files files' : Files) (result : Option Identity) (manifest : Option RunManifest)
      → actual_files unicode sha256_bytes files ≡ actual_files unicode sha256_bytes files'
      → verify_documents unicode sha256_bytes files result manifest
        ≡ verify_documents unicode sha256_bytes files' result manifest
  verify_documents-files files files' none manifest h = refl
  verify_documents-files files files' (some result) none h = refl
  verify_documents-files files files' (some result) (some manifest) h = rw h refl

  -- A file whose name is that of the manifest up to case, and is not the name of either document,
  -- is not looked at: with it in front of the directory `verify_run` returns exactly when it
  -- returns without.
  pub verify_run-extra :
      (readers : Readers) (name : String) (content : Bytes) (files : Files)
      → is_manifest_name unicode sha256_bytes name ≡ true
      → ("manifest.json" == name) ≡ false
      → ("result.json" == name) ≡ false
      → verify_run unicode sha256_bytes readers ((name, content) ∷ files)
        ≡ verify_run unicode sha256_bytes readers files
  unfolding verify_run
  verify_run-extra readers name content files m a b =
      rw (a, b)
        (verify_documents-files ((name, content) ∷ files) files
          (read_by unicode sha256_bytes readers.read_result (read_file "result.json" files))
          (read_by unicode sha256_bytes readers.read_manifest (read_file "manifest.json" files))
          (actual_files-extra name content files m))

  -- The inventory has an artifact of the name, with the size and the digest of the content.
  abbrev pub IsRecorded : List Artifact → String → Bytes → Type 0
  IsRecorded artifacts name content =
      (artifact : Artifact) × Elem artifact artifacts
      × (key_of unicode artifact.path ≡ key_of unicode name)
      × (length content ≡ artifact.size_bytes)
      × (sha256_bytes content ≡ artifact.sha256)

  actual_files-All :
      (p : String → Bytes → Bool) (files : Files) (actual : List (String × Bytes))
      → actual_files unicode sha256_bytes files ≡ some actual
      → all (λ entry. p entry.0 entry.1) actual ≡ true
      → All
          (λ file.
            (is_manifest_name unicode sha256_bytes file.0 ≡ true)
            ⊎ (p (key_of unicode file.0) file.1 ≡ true))
          files
  unfolding actual_files
  actual_files-All p [] actual e h = tt
  actual_files-All p ((name, content) ∷ files) actual e h =
      elim (Bool-cases (is_manifest_name unicode sha256_bytes name)) [
        | inl m ↦ (inl m, actual_files-All p files actual (rw m at e) h)
        | inr m ↦
            let (old, there, same) =
              add_new-some (key_of unicode name) content (actual_files unicode sha256_bytes files)
                actual (guard-some _ _ actual (rw m at e)) in
            let kept = rw (← same) at h in
            (inr (ground arith), actual_files-All p files old there (ground arith))
      ]

  records-Elem :
      (artifacts : List Artifact) (records : List (String × Artifact)) (key : String)
      (artifact : Artifact)
      → inventory_records unicode sha256_bytes artifacts ≡ some records
      → find_key key records ≡ some artifact
      → Elem artifact artifacts × (key_of unicode artifact.path ≡ key)
  unfolding inventory_records
  records-Elem [] records key artifact e h = absurd (ground arith)
  records-Elem (a ∷ artifacts) records key artifact e h =
      let (old, there, same) =
        add_new-some (key_of unicode a.path) a (inventory_records unicode sha256_bytes artifacts)
          records (guard-some _ _ records e) in
      elim (find_key-cons key (key_of unicode a.path) a artifact old (rw (← same) at h)) [
        | inl (at_key, one) ↦ (inl (sym one), rw (← one) (sym at_key))
        | inr deep ↦
            let found = records-Elem artifacts old key artifact there deep in (inr found.0, found.1)
      ]

  unchanged-IsRecorded :
      (artifacts : List Artifact) (records : List (String × Artifact)) (name : String)
      (content : Bytes) (found : Option Artifact)
      → inventory_records unicode sha256_bytes artifacts ≡ some records
      → find_key (key_of unicode name) records ≡ found
      → is_unchanged unicode sha256_bytes found content ≡ true
      → IsRecorded artifacts name content
  unchanged-IsRecorded artifacts records name content none e k h = absurd (ground arith)
  unchanged-IsRecorded artifacts records name content (some artifact) e k h =
      let (deep, at_key) = records-Elem artifacts records (key_of unicode name) artifact e k in
      (
        artifact,
        deep,
        at_key,
        ground arith,
        (eq_iff (sha256_bytes content) artifact.sha256).0 (ground arith),
      )

  -- The file has the manifest's name up to case, or it is the one that was recorded.
  abbrev pub IsAccounted : List Artifact → String × Bytes → Type 0
  IsAccounted artifacts file =
      (is_manifest_name unicode sha256_bytes file.0 ≡ true) ⊎ IsRecorded artifacts file.0 file.1

  All-IsAccounted :
      (artifacts : List Artifact) (records : List (String × Artifact)) (files : Files)
      → inventory_records unicode sha256_bytes artifacts ≡ some records
      → All
          (λ file.
            (is_manifest_name unicode sha256_bytes file.0 ≡ true)
            ⊎ (is_unchanged unicode sha256_bytes (find_key (key_of unicode file.0) records) file.1
                ≡ true))
          files
      → All (IsAccounted artifacts) files
  All-IsAccounted artifacts records [] e h = tt
  All-IsAccounted artifacts records ((name, content) ∷ files) e (inl m, h) =
      (inl m, All-IsAccounted artifacts records files e h)
  All-IsAccounted artifacts records ((name, content) ∷ files) e (inr u, h) = (
    inr (
        unchanged-IsRecorded artifacts records name content (find_key (key_of unicode name) records)
          e refl u),
    All-IsAccounted artifacts records files e h,
  )

  entries-IsAccounted :
      (result : Identity) (files : Files) (artifacts : List Artifact)
      (o : Option (List (String × Bytes))) (q : Option (List (String × Artifact)))
      → actual_files unicode sha256_bytes files ≡ o
      → inventory_records unicode sha256_bytes artifacts ≡ q
      → verify_entries unicode sha256_bytes result o q ≡ true
      → All (IsAccounted artifacts) files
  entries-IsAccounted result files artifacts none q e k h = absurd (ground arith)
  entries-IsAccounted result files artifacts (some actual) none e k h = absurd (ground arith)
  entries-IsAccounted result files artifacts (some actual) (some records) e k h =
      All-IsAccounted artifacts records files k (
        actual_files-All
          (λ key content. is_unchanged unicode sha256_bytes (find_key key records) content) files
          actual e (ground arith))

  documents-IsAccounted :
      (files : Files) (result : Option Identity) (manifest : RunManifest)
      → verify_documents unicode sha256_bytes files result (some manifest) ≡ true
      → All (IsAccounted manifest.artifacts) files
  documents-IsAccounted files none manifest h = absurd (ground arith)
  documents-IsAccounted files (some result) manifest h =
      entries-IsAccounted result files manifest.artifacts (actual_files unicode sha256_bytes files)
        (inventory_records unicode sha256_bytes manifest.artifacts) refl refl (ground arith)

  -- Where `verify_run` returns, each file of the package but those that have the manifest's name
  -- up to case is recorded in the inventory of the manifest that was read, under its own key, with
  -- its size and its digest.
  pub verify_run-IsAccounted :
      (readers : Readers) (files : Files) (text : Bytes) (manifest : RunManifest)
      → read_file "manifest.json" files ≡ some text
      → readers.read_manifest text ≡ some manifest
      → verify_run unicode sha256_bytes readers files ≡ true
      → All (IsAccounted manifest.artifacts) files
  unfolding verify_run
  verify_run-IsAccounted readers files text manifest e m h =
      let read : read_by unicode sha256_bytes readers.read_manifest
            (read_file "manifest.json" files)
          ≡ some manifest =
        rw e m in
      documents-IsAccounted files
        (read_by unicode sha256_bytes readers.read_result (read_file "result.json" files)) manifest
        (rw read at h)
