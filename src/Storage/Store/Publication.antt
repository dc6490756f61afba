-- ===== src/Storage/Store/Publication.antt =====
-- The manifests of the store: what a `publish_manifest` that returned has published.
use blindspot_remediation.Prelude.{
  String, Bool, true, false, Option, none, some, ◌≡◌, refl, ◌∙◌, sym, ap, arith,
}
use blindspot_remediation.Repair.Workspace.{Bytes}
use blindspot_remediation.Repair.Store.{read_file}
use blindspot_remediation.Storage.Keys.{safe_run_id}
use blindspot_remediation.Storage.Models.{RunManifest}
use blindspot_remediation.Storage.Store.Actions.{
  Result, ok, err, integrity_error, manifest_not_found, manifest_exists, Store, pure,
  create_manifest, require, resume, same_bytes-eq, interleave,
}
use blindspot_remediation.Storage.Store.Growth.{
  Grows, Grows-trans, Grown, link-Holds, create_manifest-Grows, pure-Grown, raise-Grown,
  require-Grown, bind-Grown,
}
use blindspot_remediation.Storage.Store.Returns.{
  Returns, returned, raised, bind, require-Returns, only_require-Returns, Returns-at,
}
use blindspot_remediation.Storage.Store.{
  Library, has_identity, agrees, validated, loaded, get_manifest, verify_manifest_file,
  publish_file, publish_manifest,
}

module _ {D : Type 0} (lib : Library D) where
  open lib use {model_validate_json, canonical_json_bytes, pretty_json_bytes, as_uri}

  validated-Grown : (m : Option (RunManifest D)) → Grown (validated lib m)
  validated-Grown none = raise-Grown integrity_error
  validated-Grown (some manifest) =
      bind-Grown _ _ (require-Grown (has_identity lib manifest) integrity_error)
        (λ _. pure-Grown manifest)

  loaded-Grown : (text : Option Bytes) → Grown (loaded lib text)
  loaded-Grown none = raise-Grown manifest_not_found
  loaded-Grown (some text) = validated-Grown (model_validate_json text)

  pub get_manifest-Grown : (run_id : String) → Grown (get_manifest lib run_id)
  unfolding get_manifest
  get_manifest-Grown run_id =
      bind-Grown _ _ (require-Grown (safe_run_id run_id) integrity_error)
        (λ _. record { at = λ s. (loaded-Grown (read_file run_id s.manifests)).at s })

  verify_manifest_file-Grown :
      (b : Bool) (manifest : RunManifest D) (run_id : String)
      → Grown (verify_manifest_file lib b manifest run_id)
  verify_manifest_file-Grown false manifest run_id = pure-Grown tt
  verify_manifest_file-Grown true manifest run_id =
      bind-Grown _ _ (get_manifest-Grown run_id)
        (λ published. require-Grown (agrees lib published manifest) integrity_error)

  publish_file-Grown :
      (found : Option Bytes) (manifest : RunManifest D) (run_id : String)
      → Grown (publish_file lib found manifest run_id)
  publish_file-Grown (some text) manifest run_id =
      bind-Grown _ _ (validated-Grown (model_validate_json text))
        (λ existing. require-Grown (agrees lib existing manifest) manifest_exists)
  publish_file-Grown none manifest run_id = record {
    at = λ s.
        Grows-trans (create_manifest-Grows run_id (pretty_json_bytes manifest) s)
          ((verify_manifest_file-Grown s.verify_after_write manifest run_id).at _);
  }

  pub publish_manifest-Grown : (manifest : RunManifest D) → Grown (publish_manifest lib manifest)
  unfolding publish_manifest
  publish_manifest-Grown manifest =
      bind-Grown _ _ (require-Grown (has_identity lib manifest) integrity_error) (λ _.
        bind-Grown _ _ (require-Grown (safe_run_id manifest.core.run_id) integrity_error) (λ _.
          bind-Grown _ _
            (record {
              at = λ s.
                  (publish_file-Grown (read_file manifest.core.run_id s.manifests) manifest
                      manifest.core.run_id).at
                    s;
            })
            (λ _. pure-Grown (as_uri manifest.core.run_id))))

  -- The manifest that a text stands for.
  abbrev pub IsTextOf : Bytes → RunManifest D → Type 0
  IsTextOf text manifest =
      (model_validate_json text ≡ some manifest) × (has_identity lib manifest ≡ true)

  -- A run has a file, and this is the manifest that it stands for.
  abbrev pub HasManifest : String → RunManifest D → Store → Type 0
  HasManifest run_id manifest s =
      (text : Bytes) × (read_file run_id s.manifests ≡ some text) × IsTextOf text manifest

  -- A run has a file that stands for a manifest with the same canonical JSON.
  abbrev pub Published : RunManifest D → Store → Type 0
  Published manifest s =
      (stored : RunManifest D) × HasManifest manifest.core.run_id stored s
      × (canonical_json_bytes stored ≡ canonical_json_bytes manifest)

  pub Published-Grows :
      (m : RunManifest D) {s t : Store} → Grows s t → Published m s → Published m t
  Published-Grows m g (stored, (text, e, h), same) =
      (stored, (text, g.manifests m.core.run_id text e, h), same)

  validated-HasManifest :
      (run_id : String) (text : Bytes) (m : Option (RunManifest D)) (s : Store)
      → read_file run_id s.manifests ≡ some text
      → model_validate_json text ≡ m
      → Returns (λ manifest t. (t ≡ s) × HasManifest run_id manifest s) (validated lib m s)
  validated-HasManifest run_id text none s e h = raised integrity_error s
  validated-HasManifest run_id text (some manifest) s e h =
      require-Returns (has_identity lib manifest) integrity_error _ s
        (λ v. returned manifest s (refl, (text, e, (h, v))))

  loaded-HasManifest :
      (run_id : String) (found : Option Bytes) (s : Store)
      → read_file run_id s.manifests ≡ found
      → Returns (λ manifest t. (t ≡ s) × HasManifest run_id manifest s) (loaded lib found s)
  loaded-HasManifest run_id none s e = raised manifest_not_found s
  loaded-HasManifest run_id (some text) s e =
      validated-HasManifest run_id text (model_validate_json text) s e refl

  pub get_manifest-HasManifest :
      (run_id : String) (s : Store)
      → Returns (λ manifest t. (t ≡ s) × HasManifest run_id manifest s) (get_manifest lib run_id s)
  unfolding get_manifest
  get_manifest-HasManifest run_id s =
      require-Returns (safe_run_id run_id) integrity_error _ s
        (λ _. loaded-HasManifest run_id (read_file run_id s.manifests) s refl)

  -- A manifest that was read and has the canonical JSON of the one that is published.
  agrees-Published :
      (manifest stored : RunManifest D) (e : _) (s t : Store)
      → (t ≡ s) × HasManifest manifest.core.run_id stored s
      → Returns (λ _ u. Published manifest u) (require (agrees lib stored manifest) e t)
  agrees-Published manifest stored e s t (same, has) =
      only_require-Returns (agrees lib stored manifest) e t
        (λ h. rw same (stored, has, same_bytes-eq _ _ h))

  verify_manifest_file-Published :
      (b : Bool) (manifest : RunManifest D) (s : Store)
      → b ≡ true
      → Returns
          (λ _ t. Published manifest t)
          (verify_manifest_file lib b manifest manifest.core.run_id s)
  verify_manifest_file-Published false manifest s v = absurd (ground arith)
  verify_manifest_file-Published true manifest s v =
      bind (get_manifest-HasManifest manifest.core.run_id s)
        (λ stored t h. agrees-Published manifest stored integrity_error s t h)

  publish_file-Published :
      (found : Option Bytes) (manifest : RunManifest D) (s : Store)
      → s.verify_after_write ≡ true
      → read_file manifest.core.run_id s.manifests ≡ found
      → Returns
          (λ _ t. Published manifest t)
          (publish_file lib found manifest manifest.core.run_id s)
  publish_file-Published (some text) manifest s v e =
      bind (validated-HasManifest manifest.core.run_id text (model_validate_json text) s e refl)
        (λ stored t h. agrees-Published manifest stored manifest_exists s t h)
  publish_file-Published none manifest s v e =
      verify_manifest_file-Published s.verify_after_write manifest _ v

  -- A call that returned has published the manifest, or found it published.
  pub publish_manifest-Published :
      (manifest : RunManifest D) (s : Store)
      → s.verify_after_write ≡ true
      → Returns (λ _ t. Published manifest t) (publish_manifest lib manifest s)
  unfolding publish_manifest
  publish_manifest-Published manifest s v =
      require-Returns (has_identity lib manifest) integrity_error _ s (λ _.
        require-Returns (safe_run_id manifest.core.run_id) integrity_error _ s (λ _.
          bind
            (publish_file-Published (read_file manifest.core.run_id s.manifests) manifest s v refl)
            (λ _ t h. returned (as_uri manifest.core.run_id) t h)))

  always : {A : Type 0} (P : Type 0) (x : Result A × Store) → P → Returns (λ _ _. P) x
  always P (ok a, s) h = returned a s h
  always P (err e, s) h = raised e s

  publish_manifest-IsSafe :
      (m : RunManifest D) (s : Store)
      → Returns (λ _ _. safe_run_id m.core.run_id ≡ true) (publish_manifest lib m s)
  unfolding publish_manifest
  publish_manifest-IsSafe m s = require-Returns (has_identity lib m) integrity_error _ s (λ _.
      require-Returns (safe_run_id m.core.run_id) integrity_error _ s
        (λ safe. always (safe_run_id m.core.run_id ≡ true) _ safe))

  pub publish_manifest-safe :
      (m : RunManifest D) (s : Store) (uri : String) (t : Store)
      → publish_manifest lib m s ≡ (ok uri, t)
      → safe_run_id m.core.run_id ≡ true
  publish_manifest-safe m s uri t e =
      Returns-at _ (publish_manifest lib m s) uri t (publish_manifest-IsSafe m s) e

  same_text :
      (m m' : RunManifest D) (s : Store)
      → m.core.run_id ≡ m'.core.run_id
      → Published m s
      → Published m' s
      → canonical_json_bytes m ≡ canonical_json_bytes m'
  same_text m m' s run (stored, (text, e, h), same) (stored', (text', e', h'), same') =
      let there = rw (← run) at e' in
      let one : text ≡ text' = ground arith in
      let found = rw (← one) at h'.0 in
      let equal : stored ≡ stored' = ground arith in
      sym same ∙ ap canonical_json_bytes equal ∙ same'

  -- Where the writes are verified, two manifests of one run that were published one after the
  -- other, with any growth of the store between, have the same canonical JSON.
  pub publish_manifest_once :
      (m m' : RunManifest D) (s t u w : Store) (uri uri' : String)
      → m.core.run_id ≡ m'.core.run_id
      → s.verify_after_write ≡ true
      → publish_manifest lib m s ≡ (ok uri, t)
      → Grows t u
      → publish_manifest lib m' u ≡ (ok uri', w)
      → canonical_json_bytes m ≡ canonical_json_bytes m'
  publish_manifest_once m m' s t u w uri uri' run v e g e' =
      let first : Grows s t = rw e at ((publish_manifest-Grown m).at s) in
      let second : Grows u w = rw e' at ((publish_manifest-Grown m').at u) in
      let verifies : u.verify_after_write ≡ true = g.verifies ∙ first.verifies ∙ v in
      same_text m m' w run
        (Published-Grows m (Grows-trans g second)
          (Returns-at _ (publish_manifest lib m s) uri t (publish_manifest-Published m s v) e))
        (Returns-at _ (publish_manifest lib m' u) uri' w (publish_manifest-Published m' u verifies)
          e')

  verify_manifest_file-skip :
      (b : Bool) (m : RunManifest D) (run_id : String) (s : Store)
      → b ≡ false
      → verify_manifest_file lib b m run_id s ≡ (ok tt, s)
  verify_manifest_file-skip true m run_id s v = absurd (ground arith)
  verify_manifest_file-skip false m run_id s v = refl

  publish_file-skip :
      (found : Option Bytes) (m : RunManifest D) (run_id : String) (s : Store)
      → s.verify_after_write ≡ false
      → found ≡ none
      → publish_file lib found m run_id s ≡ (ok tt, create_manifest run_id (pretty_json_bytes m) s)
  publish_file-skip (some text) m run_id s v e = absurd (ground arith)
  publish_file-skip none m run_id s v e =
      verify_manifest_file-skip s.verify_after_write m run_id _ v

  publish_manifest-skip :
      (m : RunManifest D) (s : Store)
      → s.verify_after_write ≡ false
      → has_identity lib m ≡ true
      → safe_run_id m.core.run_id ≡ true
      → read_file m.core.run_id s.manifests ≡ none
      → publish_manifest lib m s
        ≡ (ok (as_uri m.core.run_id), create_manifest m.core.run_id (pretty_json_bytes m) s)
  unfolding publish_manifest
  publish_manifest-skip m s v h safe free =
      rw (h, safe)
        (ap (resume (λ _. pure (as_uri m.core.run_id)))
          (publish_file-skip (read_file m.core.run_id s.manifests) m m.core.run_id s v free))

  create_manifest-taken :
      (run_id : String) (content text : Bytes) (s : Store)
      → read_file run_id (interleave s).manifests ≡ some text
      → read_file run_id (create_manifest run_id content s).manifests ≡ some text
  unfolding create_manifest
  create_manifest-taken run_id content text s taken =
      link-Holds run_id content (interleave s).manifests run_id text taken

  -- Without the verification of writes, a call that found no file may return although the file
  -- that another writer linked meanwhile is what the run has.
  pub publish_manifest-lost :
      (m : RunManifest D) (s : Store) (text : Bytes)
      → s.verify_after_write ≡ false
      → has_identity lib m ≡ true
      → safe_run_id m.core.run_id ≡ true
      → read_file m.core.run_id s.manifests ≡ none
      → read_file m.core.run_id (interleave s).manifests ≡ some text
      → ((publish_manifest lib m s).0 ≡ ok (as_uri m.core.run_id))
        × (read_file m.core.run_id (publish_manifest lib m s).1.manifests ≡ some text)
  publish_manifest-lost m s text v h safe free taken =
      let done = publish_manifest-skip m s v h safe free in
      (
        ap (λ x. x.0) done,
        rw done (create_manifest-taken m.core.run_id (pretty_json_bytes m) text s taken),
      )
