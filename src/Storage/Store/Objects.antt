-- ===== src/Storage/Store/Objects.antt =====
-- The objects of the store: what a `put_object` that returned has stored, and what `get_object` reads.
use blindspot_remediation.Prelude.{
  String, Bool, true, false, Option, none, some, ◌==◌, ◌≡◌, refl, arith, eq_iff,
}
use blindspot_remediation.Repair.Workspace.{Bytes}
use blindspot_remediation.Repair.Store.{read_file}
use blindspot_remediation.Storage.Keys.{is_digest, object_key, resolve_object_key}
use blindspot_remediation.Storage.KeyShapes.{resolve_object_key-object_key}
use blindspot_remediation.Storage.Store.Actions.{ok, integrity_error, Store, create_object}
use blindspot_remediation.Storage.Store.Growth.{
  Grows, Grows-trans, Grown, create_object-Grows, pure-Grown, raise-Grown, require-Grown,
  bind-Grown,
}
use blindspot_remediation.Storage.Store.Returns.{
  Returns, returned, bind, require-Returns, only_require-Returns, Returns-at,
}
use blindspot_remediation.Storage.Store.{
  Library, has_digest, put_file, put_at, verify_object, expects, put_object, get_object,
}

module _ {D : Type 0} (lib : Library D) where
  open lib use {sha256_bytes}

  verify_object-Grown : (b : Bool) (path digest : String) → Grown (verify_object lib b path digest)
  verify_object-Grown false path digest = pure-Grown tt
  verify_object-Grown true path digest = record {
    at = λ s.
        (require-Grown (has_digest lib digest (read_file path s.objects)) integrity_error).at s;
  }

  put_file-Grown :
      (found : Option Bytes) (path digest : String) (content : Bytes)
      → Grown (put_file lib found path digest content)
  put_file-Grown (some existing) path digest content =
      require-Grown (sha256_bytes existing == digest) integrity_error
  put_file-Grown none path digest content = record {
    at = λ s.
        Grows-trans (create_object-Grows path content s) (
          (verify_object-Grown s.verify_after_write path digest).at (create_object path content s));
  }

  put_at-Grown :
      (resolved : Option String) (digest : String) (content : Bytes)
      → Grown (put_at lib resolved digest content)
  put_at-Grown none digest content = raise-Grown integrity_error
  put_at-Grown (some path) digest content = record {
    at = λ s. (put_file-Grown (read_file path s.objects) path digest content).at s;
  }

  pub put_object-Grown :
      (content : Bytes) (expected : Option String) → Grown (put_object lib content expected)
  unfolding put_object
  put_object-Grown content expected =
      bind-Grown _ _ (require-Grown (expects lib expected (sha256_bytes content)) integrity_error)
        (λ _.
          bind-Grown _ _
            (put_at-Grown (resolve_object_key (object_key (sha256_bytes content)))
              (sha256_bytes content) content)
            (λ _. pure-Grown (object_key (sha256_bytes content))))

  -- The store has an object of the digest.
  abbrev pub HasObject : String → Store → Type 0
  HasObject digest s =
      (content : Bytes) × (read_file (object_key digest) s.objects ≡ some content)
      × (sha256_bytes content ≡ digest)

  pub HasObject-Grows :
      (digest : String) {s t : Store} → Grows s t → HasObject digest s → HasObject digest t
  HasObject-Grows digest g (content, e, h) = (content, g.objects (object_key digest) content e, h)

  has_digest-content :
      (digest : String) (found : Option Bytes)
      → has_digest lib digest found ≡ true
      → (content : Bytes) × (found ≡ some content) × (sha256_bytes content ≡ digest)
  has_digest-content digest none h = absurd (ground arith)
  has_digest-content digest (some content) h =
      (content, refl, (eq_iff (sha256_bytes content) digest).0 h)

  -- A digest of SHA-256 is written with 64 hexadecimal digits.
  module _ (digests : (content : Bytes) → is_digest (sha256_bytes content) ≡ true) where
    verify_object-HasObject :
        (b : Bool) (digest : String) (s : Store)
        → b ≡ true
        → Returns (λ _ t. HasObject digest t) (verify_object lib b (object_key digest) digest s)
    verify_object-HasObject false digest s v = absurd (ground arith)
    verify_object-HasObject true digest s v =
        only_require-Returns (has_digest lib digest (read_file (object_key digest) s.objects))
          integrity_error s (has_digest-content digest (read_file (object_key digest) s.objects))

    put_file-HasObject :
        (found : Option Bytes) (content : Bytes) (digest : String) (s : Store)
        → s.verify_after_write ≡ true
        → read_file (object_key digest) s.objects ≡ found
        → Returns
            (λ _ t. HasObject digest t)
            (put_file lib found (object_key digest) digest content s)
    put_file-HasObject (some existing) content digest s v e =
        only_require-Returns (sha256_bytes existing == digest) integrity_error s
          (λ h. (existing, e, (eq_iff (sha256_bytes existing) digest).0 h))
    put_file-HasObject none content digest s v e =
        verify_object-HasObject s.verify_after_write digest
          (create_object (object_key digest) content s) v

    -- A call that returned returns the key of the digest, under which an object of it is stored.
    pub put_object-HasObject :
        (content : Bytes) (expected : Option String) (s : Store)
        → s.verify_after_write ≡ true
        → Returns
            (λ key t.
              (key ≡ object_key (sha256_bytes content)) × HasObject (sha256_bytes content) t)
            (put_object lib content expected s)
    unfolding put_object
    put_object-HasObject content expected s v =
        let digest = sha256_bytes content in
        require-Returns (expects lib expected digest) integrity_error _ s (λ _.
          rw (resolve_object_key-object_key digest (digests content)) (
            bind
              (put_file-HasObject (read_file (object_key digest) s.objects) content digest s v refl)
              (λ _ t h. returned (object_key digest) t (refl, h))))

    -- Where digests have their form and the writes are verified, the key that `put_object`
    -- returned gives, in the store that it left and in any that has grown from it, bytes of the
    -- digest of what was put.
    pub get_object-put_object :
        (content : Bytes) (expected : Option String) (s t u : Store) (key : String)
        → s.verify_after_write ≡ true
        → put_object lib content expected s ≡ (ok key, t)
        → Grows t u
        → (found : Bytes) × (get_object lib key u ≡ (ok found, u))
          × (sha256_bytes found ≡ sha256_bytes content)
    unfolding get_object
    get_object-put_object content expected s t u key v e g =
        let (same, has) =
          Returns-at _ (put_object lib content expected s) key t
            (put_object-HasObject content expected s v) e in
        let (found, there, h) = HasObject-Grows (sha256_bytes content) g has in
        (
          found,
          rw (same, resolve_object_key-object_key (sha256_bytes content) (digests content), there)
              refl,
          h,
        )
