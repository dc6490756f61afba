-- ===== src/Repair/Store/Files.antt =====
-- Reading and writing files in the directory of a session, and the names that it may hold.
use blindspot_remediation.Prelude.{
  String, Bool, true, false, not, ◌&&◌, ◌||◌, some, List, [], ◌∷◌, all, mem, if◌then◌else◌, ◌==◌,
  has_prefix, distinct, ◌≡◌, refl, arith, eq_iff,
}
use blindspot_remediation.Repair.Workspace.{Bytes}
use blindspot_remediation.Repair.Store.{
  Files, read_file, replace_file, add_file, write_file, names, is_portable,
}

names-replace_file :
    (name : String) (content : Bytes) (files : Files)
    → names (replace_file name content files) ≡ names files
unfolding replace_file
names-replace_file name content [] = refl
names-replace_file name content ((n, old) ∷ files) =
    ground (arith, names-replace_file name content files)

mem-names-add_file :
    (x name : String) (content : Bytes) (files : Files)
    → mem x (names (add_file name content files)) ≡ (x == name || mem x (names files))
unfolding add_file
mem-names-add_file x name content [] = refl
mem-names-add_file x name content ((n, old) ∷ files) =
    ground (arith, mem-names-add_file x name content files)

read_file-replace_ne :
    (x name : String) (content : Bytes) (files : Files)
    → (x == name) ≡ false
    → read_file x (replace_file name content files) ≡ read_file x files
unfolding replace_file
read_file-replace_ne x name content [] h = refl
read_file-replace_ne x name content ((n, old) ∷ files) h =
    ground (arith, eq_iff name n, eq_iff x n, read_file-replace_ne x name content files)

read_file-replace_file :
    (x name : String) (content : Bytes) (files : Files)
    → mem name (names files) ≡ true
    → read_file x (replace_file name content files)
      ≡ (if x == name then some content else read_file x files)
unfolding replace_file
read_file-replace_file x name content [] m = cc
read_file-replace_file x name content ((n, old) ∷ files) m = ground (
  arith,
  eq_iff name n,
  eq_iff x n,
  eq_iff x name,
  read_file-replace_file x name content files,
  read_file-replace_ne x name content files,
)

read_file-add_file :
    (x name : String) (content : Bytes) (files : Files)
    → mem name (names files) ≡ false
    → read_file x (add_file name content files)
      ≡ (if x == name then some content else read_file x files)
unfolding add_file
read_file-add_file x name content [] m = refl
read_file-add_file x name content ((n, old) ∷ files) m =
    ground
      (arith, eq_iff name n, eq_iff x n, eq_iff x name, read_file-add_file x name content files)

-- After a write of one name, that name reads back what was written, and every other name reads
-- what it did before.
pub read_file-write_file :
    (x name : String) (content : Bytes) (files : Files)
    → read_file x (write_file name content files)
      ≡ (if x == name then some content else read_file x files)
unfolding write_file
read_file-write_file x name content files =
    ground
      (arith, read_file-add_file x name content files, read_file-replace_file x name content files)

-- No name stands twice, and each one may stand in an inventory.
abbrev pub is_sound : List String → Bool
is_sound ns = distinct ns && (all is_portable ns && all (λ n. not (has_prefix n ".tmp_")) ns)

add_file-is_sound :
    (name : String) (content : Bytes) (files : Files)
    → is_portable name ≡ true
    → has_prefix name ".tmp_" ≡ false
    → mem name (names files) ≡ false
    → is_sound (names files) ≡ true
    → is_sound (names (add_file name content files)) ≡ true
unfolding add_file
add_file-is_sound name content [] p t m h = ground arith
add_file-is_sound name content ((n, old) ∷ files) p t m h = ground (
  arith,
  eq_iff name n,
  eq_iff n name,
  mem-names-add_file n name content files,
  add_file-is_sound name content files,
)

-- A write of a portable name that is not temporary keeps the names of a directory distinct,
-- portable and not temporary.
pub write_file-is_sound :
    (name : String) (content : Bytes) (files : Files)
    → is_portable name ≡ true
    → has_prefix name ".tmp_" ≡ false
    → is_sound (names files) ≡ true
    → is_sound (names (write_file name content files)) ≡ true
unfolding write_file
write_file-is_sound name content files p t h =
    ground (arith, add_file-is_sound name content files, names-replace_file name content files)
