-- ===== src/Storage/Store/Actions.antt =====
-- What a call of the storage does to the shared filesystem, and how it fails.
use blindspot_remediation.Prelude.{
  String, Bool, true, false, ◌&&◌, Option, none, some, List, [], ◌∷◌, nat_beq, ◌≡◌, refl, arith,
}
use blindspot_remediation.Repair.Workspace.{Bytes}
use blindspot_remediation.Repair.Store.{Files, read_file}

-- errors.py, and an `AttributeError`.
pub data StorageFailure : Type 0 where
  integrity_error object_not_found manifest_exists manifest_not_found : StorageFailure
  validation_error unsupported_location attribute_error : StorageFailure

pub data Result (A : Type 0) : Type 0 where
  ok : A → Result A
  err : StorageFailure → Result A

-- What other writers link while one call looks away.
pub record Batch : Type 0 where
  pub objects : Files
  pub manifests : Files

-- Objects by their path below the root, manifests by the run of their file.
pub record Store : Type 0 where
  pub verify_after_write : Bool
  pub objects : Files
  pub manifests : Files
  pub rivals : List Batch

abbrev pub Action : Type 0 → Type 0
Action A = Store → Result A × Store

abbrev pub pure : {A : Type 0} → A → Action A
pure a s = (ok a, s)

abbrev pub raise : {A : Type 0} → StorageFailure → Action A
raise e s = (err e, s)

-- What comes after a step that returned or raised.
abbrev pub resume : {A B : Type 0} → (A → Action B) → Result A × Store → Result B × Store
resume f (ok a, s) = f a s
resume f (err e, s) = (err e, s)

infixl 5 ◌>>=◌ ◌>>◌
abbrev pub ◌>>=◌ : {A B : Type 0} → Action A → (A → Action B) → Action B
◌>>=◌ m f s = resume f (m s)

abbrev pub ◌>>◌ : {A B : Type 0} → Action A → Action B → Action B
m >> k = m >>= λ _. k

-- Raise unless the test holds.
abbrev pub require : Bool → StorageFailure → Action (Unit {0})
require true e = pure tt
require false e = raise e

-- `==` of bytes.
abbrev pub same_bytes : Bytes → Bytes → Bool
same_bytes [] [] = true
same_bytes [] (d ∷ ds) = false
same_bytes (c ∷ cs) [] = false
same_bytes (c ∷ cs) (d ∷ ds) = nat_beq c d && same_bytes cs ds

pub same_bytes-eq : (cs ds : Bytes) → same_bytes cs ds ≡ true → cs ≡ ds
same_bytes-eq [] [] h = refl
same_bytes-eq [] (d ∷ ds) h = cc
same_bytes-eq (c ∷ cs) [] h = cc
same_bytes-eq (c ∷ cs) (d ∷ ds) h = ground (arith, same_bytes-eq cs ds)

abbrev link_if : Option Bytes → String → Bytes → Files → Files
link_if (some existing) name content files = files
link_if none name content files = (name, content) ∷ files

-- `os.link`: a file that is there already stays.
unfoldable pub link : String → Bytes → Files → Files
link name content files = link_if (read_file name files) name content files

unfoldable pub link_all : Files → Files → Files
unfolding link
link_all [] files = files
link_all ((name, content) ∷ others) files = link_all others (link name content files)

abbrev pub take_turn : List Batch → Store → Store
take_turn [] s = s
take_turn (batch ∷ batches) s = record s {
  objects = link_all batch.objects s.objects;
  manifests = link_all batch.manifests s.manifests;
  rivals = batches;
}

-- The other writers link what they have.
unfoldable pub interleave : Store → Store
unfolding link_all
interleave s = take_turn s.rivals s

-- `_atomic_create`, of an object and of a manifest.
unfoldable pub create_object : String → Bytes → Store → Store
unfolding interleave link
create_object path content s =
    let s' = interleave s in record s' { objects = link path content s'.objects }

unfoldable pub create_manifest : String → Bytes → Store → Store
unfolding interleave link
create_manifest run_id content s =
    let s' = interleave s in record s' { manifests = link run_id content s'.manifests }
