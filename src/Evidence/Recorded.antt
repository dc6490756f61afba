-- ===== src/Evidence/Recorded.antt =====
-- That each artifact of a package can be read as it was recorded, from its creation to its
-- finalization.
use blindspot_remediation.Prelude.{
  ℕ, String, true, false, Option, none, some, List, [], ◌∷◌, ◌++◌, All, all, any, length, ◌==◌, ◌≡◌,
  refl, sym, ap, ◌∙◌, arith, eq_iff, Bool-cases, inl, inr,
}
use blindspot_remediation.Repair.Workspace.{Bytes}
use blindspot_remediation.Repair.Store.{Files, read_file, write_file}
use blindspot_remediation.Repair.Store.Files.{read_file-write_file}
use blindspot_remediation.Assertions.Pointers.{split}
use blindspot_remediation.Evidence.Paths.{Unicode, key_of, is_bad_component, validate_artifact_path}
use blindspot_remediation.Evidence.Package.{
  EvidenceFailure, EvidenceRun, Artifact, Facts, artifact_of, collides, stored, write_failure,
  store_unless, write_reserving,
}
use blindspot_remediation.Evidence.Finalization.{KeepsName}

-- A path is normalized where each of its parts is.
abbrev pub NormalizesParts : Unicode → Type 0
NormalizesParts unicode =
    (path : String)
    → all (λ part. part == unicode.nfc part) (split path) ≡ true
    → unicode.nfc path ≡ path

module _ (unicode : Unicode) (sha256_bytes : Bytes → String) where
  -- The artifact is not the manifest, and its path reads what has its size and digest.
  abbrev pub Kept : Files → Artifact → Type 0
  Kept files artifact =
      (content : Bytes) × (read_file artifact.path files ≡ some content)
      × (length content ≡ artifact.size_bytes)
      × (sha256_bytes content ≡ artifact.sha256)
      × ((artifact.path == "manifest.json") ≡ false)

  -- Each artifact of the run is kept.
  abbrev pub Recorded : EvidenceRun → Type 0
  Recorded run = All (Kept run.files) run.artifacts

  parts_normal :
      (parts : List String)
      → any (is_bad_component unicode) parts ≡ false
      → all (λ part. part == unicode.nfc part) parts ≡ true
  parts_normal [] h = refl
  parts_normal (part ∷ parts) h = ground (arith, parts_normal parts)

  module _ (normal : NormalizesParts unicode) (keeps : KeepsName unicode "manifest.json") where
    valid_nfc :
        (path : String) → validate_artifact_path unicode path ≡ true → unicode.nfc path ≡ path
    unfolding validate_artifact_path
    valid_nfc path v = normal path (parts_normal (split path) (ground arith))

    valid_name :
        (path : String)
        → validate_artifact_path unicode path ≡ true
        → (path == "manifest.json") ≡ false
    unfolding validate_artifact_path
    valid_name path v = elim (Bool-cases (path == "manifest.json")) [
      | inr e ↦ e
      | inl e ↦
          let same = (eq_iff path "manifest.json").0 e in
          let key : key_of unicode path ≡ "manifest.json" =
            ap (key_of unicode) same ∙ (ap unicode.casefold keeps.0 ∙ keeps.1) in
          ground (arith, eq_iff (key_of unicode path) "manifest.json")
    ]

    -- A write of another name.
    Kept-write :
        (name : String) (content : Bytes) (files : Files) (artifact : Artifact)
        → (artifact.path == name) ≡ false
        → Kept files artifact
        → Kept (write_file name content files) artifact
    Kept-write name content files artifact other (old, there, size, digest, free) = (
      old,
      read_file-write_file artifact.path name content files ∙ rw other there,
      size,
      digest,
      free,
    )

    other_path :
        (path : String) (artifact : Artifact)
        → unicode.nfc path ≡ path
        → (unicode.casefold artifact.path == key_of unicode path) ≡ false
        → (artifact.path == path) ≡ false
    other_path path artifact h e = elim (Bool-cases (artifact.path == path)) [
      | inr other ↦ other
      | inl same ↦
          let one : unicode.casefold artifact.path ≡ key_of unicode path =
            ap unicode.casefold ((eq_iff artifact.path path).0 same ∙ sym h) in
          ground (arith, eq_iff (unicode.casefold artifact.path) (key_of unicode path))
    ]

    All-write :
        (path : String) (content : Bytes) (files : Files) (artifacts : List Artifact)
        → unicode.nfc path ≡ path
        → collides unicode sha256_bytes path artifacts ≡ false
        → All (Kept files) artifacts
        → All (Kept (write_file path content files)) artifacts
    All-write path content files [] h free kept = tt
    All-write path content files (a ∷ artifacts) h free (k, kept) = (
      Kept-write path content files a (other_path path a h (ground arith)) k,
      All-write path content files artifacts h (ground arith) kept,
    )

    All-append :
        (files : Files) (artifacts : List Artifact) (a : Artifact)
        → All (Kept files) artifacts
        → Kept files a
        → All (Kept files) (artifacts ++ a ∷ [])
    All-append files [] a kept k = (k, tt)
    All-append files (b ∷ artifacts) a (first, kept) k =
        (first, All-append files artifacts a kept k)

    stored-Recorded :
        (path : String) (content : Bytes) (facts : Facts) (run : EvidenceRun)
        → validate_artifact_path unicode path ≡ true
        → collides unicode sha256_bytes path run.artifacts ≡ false
        → Recorded run
        → Recorded (stored unicode sha256_bytes path content facts run)
    stored-Recorded path content facts run v free kept =
        All-append (write_file path content run.files) run.artifacts
          (artifact_of unicode sha256_bytes path content facts)
          (All-write path content run.files run.artifacts (valid_nfc path v) free kept)
          (
            content,
            read_file-write_file path path content run.files ∙ rw ((eq_iff path path).1 refl) refl,
            refl,
            refl,
            valid_name path v,
          )

    write_failure-valid :
        (reserve : ℕ) (path : String) (content : Bytes) (facts : Facts) (run : EvidenceRun)
        → write_failure unicode sha256_bytes reserve path content facts run ≡ none
        → (validate_artifact_path unicode path ≡ true)
          × (collides unicode sha256_bytes path run.artifacts ≡ false)
    unfolding write_failure
    write_failure-valid reserve path content facts run e = ground arith

    store_unless-Recorded :
        (failure : Option EvidenceFailure) (path : String) (content : Bytes) (facts : Facts)
        (run : EvidenceRun)
        → (failure ≡ none
            → (validate_artifact_path unicode path ≡ true)
              × (collides unicode sha256_bytes path run.artifacts ≡ false))
        → Recorded run
        → Recorded (store_unless unicode sha256_bytes failure path content facts run).1
    store_unless-Recorded (some failure) path content facts run valid h = h
    store_unless-Recorded none path content facts run valid h =
        let (v, free) = valid refl in stored-Recorded path content facts run v free h

    pub write_reserving-Recorded :
        (reserve : ℕ) (path : String) (content : Bytes) (facts : Facts) (run : EvidenceRun)
        → Recorded run
        → Recorded (write_reserving unicode sha256_bytes reserve path content facts run).1
    unfolding write_reserving
    write_reserving-Recorded reserve path content facts run h =
        store_unless-Recorded (write_failure unicode sha256_bytes reserve path content facts run)
          path content facts run (write_failure-valid reserve path content facts run) h
