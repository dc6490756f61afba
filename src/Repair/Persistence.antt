-- ===== src/Repair/Persistence.antt =====
-- `read_session` of repair/evidence.py after the writes of a command.
use blindspot_remediation.Prelude.{
  String, Bool, true, false, Option, some, ◌≡◌, refl, arith, has_prefix, contains, ◌∙◌, ap,
}
use blindspot_remediation.Repair.Models.{RepairSession}
use blindspot_remediation.Repair.Workspace.{WorkspaceError}
use blindspot_remediation.Repair.Store.{
  Codec, Files, Directory, names, is_portable, session_filename, read_file, write_file,
  with_manifest, verify_manifest,
}
use blindspot_remediation.Repair.Store.Files.{is_sound, read_file-write_file, write_file-is_sound}
use blindspot_remediation.Repair.Store.Integrity.{verify_manifest-with_manifest}
use blindspot_remediation.Repair.Summary.{generate_summary_md}
use blindspot_remediation.Repair.Actions.{
  World, Action, Failure, ok, err, ◌>>=◌, raise_unless, or_raise, read_bytes, invalid_evidence,
  session_missing, session_malformed, read_session,
}
use blindspot_remediation.Repair.Returns.{bind_inv}
use blindspot_remediation.Repair.Transitions.{cancelled}
use blindspot_remediation.Repair.Controller.{
  save_session, cleanup_terminal_workspace, cancel_session, cancel_repair,
}

-- The files after the writes of `save_session`.
abbrev saved : Codec → RepairSession → Files → Files
saved codec s files =
    write_file "repair-summary.md" (codec.utf8 (generate_summary_md codec.decimal s))
      (write_file session_filename (codec.encode_session s) files)

saved-is_sound :
    (codec : Codec) (s : RepairSession) (files : Files)
    → is_sound (names files) ≡ true
    → is_sound (names (saved codec s files)) ≡ true
unfolding is_portable contains has_prefix
saved-is_sound codec s files h =
    write_file-is_sound "repair-summary.md" _
      (write_file session_filename (codec.encode_session s) files) refl refl
      (write_file-is_sound session_filename (codec.encode_session s) files refl refl h)

saved-read_file :
    (codec : Codec) (s : RepairSession) (files : Files)
    → read_file session_filename (saved codec s files) ≡ some (codec.encode_session s)
saved-read_file codec s files =
    read_file-write_file session_filename "repair-summary.md" _
      (write_file session_filename (codec.encode_session s) files)
    ∙ read_file-write_file session_filename session_filename (codec.encode_session s) files

-- The directory after the writes of `save_session`.
abbrev saved_directory : Codec → RepairSession → Directory → Directory
saved_directory codec s d = record d { files = saved codec s d.files }

bind_ok :
    {T A B : Type 0} (m : Action T A) (f : A → Action T B) (w w' : World T) (a : A)
    → m w ≡ (ok a, w')
    → (m >>= f) w ≡ f a w'
bind_ok m f w w' a h = ap (λ o. elim o.0 [ ok x ↦ f x o.1 | err e ↦ (err e, o.1) ]) h

raise_unless-true :
    {T : Type 0} (b : Bool) (failure : Failure) (w : World T)
    → b ≡ true
    → raise_unless b failure w ≡ (ok tt, w)
raise_unless-true true failure w h = refl
raise_unless-true false failure w h = cc

or_raise-some :
    {T A : Type 0} (o : Option A) (failure : Failure) (w : World T) (a : A)
    → o ≡ some a
    → or_raise o failure w ≡ (ok a, w)
or_raise-some o failure w a h = rw h

module _ {T : Type 0} (codec : Codec) where
  -- A world whose directory was given its manifest last.
  abbrev signed : String → Directory → World T → World T
  signed session_id d w = record w { directory = with_manifest codec.sha256_bytes session_id d }

  -- `read_session` after the verification.
  abbrev decoded : Action T RepairSession
  decoded = read_bytes session_filename session_missing >>= λ content.
      or_raise (codec.decode_session content) session_malformed

  read_session-signed :
      (s : RepairSession) (d : Directory) (w : World T)
      → is_sound (names d.files) ≡ true
      → read_file session_filename d.files ≡ some (codec.encode_session s)
      → codec.decode_session (codec.encode_session s) ≡ some s
      → read_session codec s.session_id (signed s.session_id d w) ≡ (ok s, signed s.session_id d w)
  unfolding read_session with_manifest
  read_session-signed s d w h r decodes =
      let v = signed s.session_id d w in
      bind_ok
        (raise_unless (verify_manifest codec.sha256_bytes s.session_id v.directory)
          invalid_evidence)
        (λ _. decoded) v v tt
        (raise_unless-true _ invalid_evidence v
          (verify_manifest-with_manifest codec.sha256_bytes s.session_id d h))
      ∙ bind_ok (read_bytes session_filename session_missing)
          (λ content. or_raise (codec.decode_session content) session_malformed) v v
          (codec.encode_session s) (or_raise-some _ session_missing v (codec.encode_session s) r)
      ∙ or_raise-some _ session_malformed v s decodes

  -- A session that was saved over a sound directory is read back.
  read_session-saved :
      (s : RepairSession) (w v : World T)
      → v.directory
        ≡ with_manifest codec.sha256_bytes s.session_id (saved_directory codec s w.directory)
      → is_sound (names w.directory.files) ≡ true
      → codec.decode_session (codec.encode_session s) ≡ some s
      → read_session codec s.session_id v ≡ (ok s, v)
  read_session-saved s w v d h decodes =
      let e : v ≡ signed s.session_id (saved_directory codec s w.directory) v = rw (← d) refl in
      rw e (
        read_session-signed s (saved_directory codec s w.directory) v
          (saved-is_sound codec s w.directory.files h) (saved-read_file codec s w.directory.files)
          decodes)

module _ {T : Type 0} (codec : Codec) (cleanup : String → Option WorkspaceError) where
  cleanup-directory :
      (s : RepairSession) (w w' : World T) (u : Unit {0})
      → cleanup_terminal_workspace codec cleanup s w ≡ (ok u, w')
      → w'.directory ≡ w.directory
  unfolding cleanup_terminal_workspace
  cleanup-directory s w w' u h = ground arith

  read_session-world :
      (session_id : String) (w w' : World T) (s : RepairSession)
      → read_session codec session_id w ≡ (ok s, w')
      → w' ≡ w
  unfolding read_session
  read_session-world session_id w w' s h = ground arith

  cancel_session-directory :
      (now : String) (s t : RepairSession) (w w' : World T)
      → cancel_session codec cleanup now s w ≡ (ok t, w')
      → (t ≡ cancelled now s)
        × (w'.directory
            ≡ with_manifest codec.sha256_bytes t.session_id (saved_directory codec t w.directory))
  unfolding cancel_session
  cancel_session-directory now s t w w' h = (ground arith, ground arith)

  -- Where `save_session` returns, the directory's names were distinct, portable and not temporary,
  -- and the session survives its encoding, `read_session` then returns that session.
  pub read_session-save_session :
      (s : RepairSession) (w w' : World T) (u : Unit {0})
      → save_session codec cleanup s w ≡ (ok u, w')
      → is_sound (names w.directory.files) ≡ true
      → codec.decode_session (codec.encode_session s) ≡ some s
      → read_session codec s.session_id w' ≡ (ok s, w')
  read_session-save_session s w w' u h sound decodes =
      read_session-saved codec s w w' (ground arith) sound decodes

  -- Where `cancel_repair` returns a session, the directory's names were distinct, portable and not
  -- temporary, and the session survives its encoding, `read_session` then returns it.
  pub read_session-cancel_repair :
      (session_id now : String) (w w' : World T) (t : RepairSession)
      → cancel_repair codec cleanup session_id now w ≡ (ok t, w')
      → is_sound (names w.directory.files) ≡ true
      → codec.decode_session (codec.encode_session t) ≡ some t
      → read_session codec t.session_id w' ≡ (ok t, w')
  unfolding cancel_repair
  read_session-cancel_repair session_id now w w' t h sound decodes =
      let (s, w1, found, k) =
        bind_inv (read_session codec session_id) (cancel_session codec cleanup now) w t w' h in
      let same = read_session-world session_id w w1 s found in
      let (_, d) = cancel_session-directory now s t w1 w' k in
      read_session-saved codec t w w' (rw (← same) d) sound decodes
