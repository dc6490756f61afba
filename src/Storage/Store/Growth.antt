-- ===== src/Storage/Store/Growth.antt =====
-- That no call of the storage changes or removes a file, whoever else writes.
use blindspot_remediation.Prelude.{
  String, Bool, true, false, some, List, [], ◌∷◌, ◌≡◌, refl, ◌∙◌, arith, eq_iff, Option-cases, inl,
  inr,
}
use blindspot_remediation.Repair.Workspace.{Bytes}
use blindspot_remediation.Repair.Store.{Files, read_file}
use blindspot_remediation.Storage.Store.Actions.{
  StorageFailure, Result, ok, err, Batch, Store, Action, pure, raise, resume, ◌>>=◌, require, link,
  link_all, interleave, take_turn, create_object, create_manifest,
}

-- Each file is still there, with the same bytes.
abbrev pub Holds : Files → Files → Type 0
Holds files files' =
    (name : String) (content : Bytes)
    → read_file name files ≡ some content
    → read_file name files' ≡ some content

pub link-Holds :
    (name : String) (content : Bytes) (files : Files) → Holds files (link name content files)
unfolding link
link-Holds name content files = λ n c h. elim (Option-cases (read_file name files)) [
  | inl absent ↦ rw absent (ground (arith, eq_iff n name))
  | inr (old, present) ↦ rw present h
]

pub link_all-Holds : (others files : Files) → Holds files (link_all others files)
unfolding link_all
link_all-Holds [] files = λ n c h. h
link_all-Holds ((name, content) ∷ others) files = λ n c h.
    link_all-Holds others (link name content files) n c (link-Holds name content files n c h)

-- The store has what it had.
pub record Grows (s s' : Store) : Type 0 where
  pub objects : Holds s.objects s'.objects
  pub manifests : Holds s.manifests s'.manifests
  pub verifies : s'.verify_after_write ≡ s.verify_after_write

pub Grows-refl : (s : Store) → Grows s s
Grows-refl s = record { objects = λ n c h. h; manifests = λ n c h. h; verifies = refl }

pub Grows-trans : {s t u : Store} → Grows s t → Grows t u → Grows s u
Grows-trans g h = record {
  objects = λ n c e. h.objects n c (g.objects n c e);
  manifests = λ n c e. h.manifests n c (g.manifests n c e);
  verifies = h.verifies ∙ g.verifies;
}

take_turn-Grows : (batches : List Batch) (s : Store) → Grows s (take_turn batches s)
take_turn-Grows [] s = Grows-refl s
take_turn-Grows (batch ∷ batches) s = record {
  objects = link_all-Holds batch.objects s.objects;
  manifests = link_all-Holds batch.manifests s.manifests;
  verifies = refl;
}

pub interleave-Grows : (s : Store) → Grows s (interleave s)
unfolding interleave
interleave-Grows s = take_turn-Grows s.rivals s

pub create_object-Grows :
    (path : String) (content : Bytes) (s : Store) → Grows s (create_object path content s)
unfolding create_object
create_object-Grows path content s = Grows-trans (interleave-Grows s) (record {
  objects = link-Holds path content (interleave s).objects;
  manifests = λ n c h. h;
  verifies = refl;
})

pub create_manifest-Grows :
    (run_id : String) (content : Bytes) (s : Store) → Grows s (create_manifest run_id content s)
unfolding create_manifest
create_manifest-Grows run_id content s = Grows-trans (interleave-Grows s) (record {
  objects = λ n c h. h;
  manifests = link-Holds run_id content (interleave s).manifests;
  verifies = refl;
})

-- Whether it returns or raises, the action leaves what was stored.
pub record Grown {A : Type 0} (m : Action A) : Type 0 where
  pub at : (s : Store) → Grows s (m s).1

module _ {A : Type 0} where
  pub pure-Grown : (a : A) → Grown (pure a)
  pure-Grown a = record { at = Grows-refl }

  pub raise-Grown : (e : StorageFailure) → Grown (raise {A = A} e)
  raise-Grown e = record { at = Grows-refl }

pub require-Grown : (b : Bool) (e : StorageFailure) → Grown (require b e)
require-Grown true e = pure-Grown tt
require-Grown false e = raise-Grown e

module _ {A B : Type 0} where
  resume-Grows :
      (f : A → Action B) (s : Store) (x : Result A × Store)
      → ((a : A) → Grown (f a))
      → Grows s x.1
      → Grows s (resume f x).1
  resume-Grows f s (ok a, t) k g = Grows-trans g ((k a).at t)
  resume-Grows f s (err e, t) k g = g

  pub bind-Grown :
      (m : Action A) (f : A → Action B) → Grown m → ((a : A) → Grown (f a)) → Grown (m >>= f)
  bind-Grown m f g k = record { at = λ s. resume-Grows f s (m s) k (g.at s) }
