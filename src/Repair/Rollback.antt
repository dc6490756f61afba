-- ===== src/Repair/Rollback.antt =====
-- `apply_candidate_to_source` of repair/workspace.py as a transaction on the source worktree.
use blindspot_remediation.Prelude.{
  String, Bool, true, false, not, Option, none, some, is_empty, if◌then◌else◌, ◌==◌, ◌≡◌, refl,
  arith, Option-cases, Bool-cases, inl, inr, ◌≢◌,
}
use blindspot_remediation.Repair.Models.{RepairAttempt, FinalApproval}
use blindspot_remediation.Repair.Workspace.{
  Bytes, WorkspaceError, restore_failed, approval_tree_mismatch, approval_patch_mismatch,
  passing_patch_mismatch, recapture_failed, source_changed, apply_failed, post_apply_mismatch,
}
use blindspot_remediation.Repair.Application.{
  Git, Reversible, is_candidate, restore_original, roll_back, verify_applied, exchange_patches,
  recapture, apply_candidate_to_source,
}

-- How a call on the worktree `t` ended: with the candidate of the attempt in place, or with an
-- error and the worktree as it was, and never with an error of the restoration.
abbrev pub IsTransaction :
    {T : Type 0} → Git T → RepairAttempt → T → Option WorkspaceError × T → Type 0
IsTransaction git passing t (none, t') =
    (c : String × String) × (git.capture true t' ≡ some c) × (is_candidate passing c ≡ true)
IsTransaction git passing t (some error, t') = (t' ≡ t) × (error ≢ restore_failed)

module _ {T : Type 0} (git : Git T) (laws : Reversible git) (original_patch final_patch : Bytes)
    (passing : RepairAttempt) where
  -- After the original patch was taken off `t`, and the final one put on if `applied`.
  abbrev Exchanged : Bool → T → T → Type 0
  Exchanged applied t t' =
      (bare : T) × (git.reverse original_patch t ≡ some bare)
      × (if applied then git.apply final_patch bare ≡ some t' else bare ≡ t')

  restore_original-back :
      (error : WorkspaceError) (t bare : T)
      → git.reverse original_patch t ≡ some bare
      → restore_original git original_patch final_patch true error bare ≡ (some error, t)
  unfolding restore_original
  restore_original-back error t bare off =
      rw (restore_original, laws.apply-reverse original_patch t bare off)

  roll_back-back :
      (applied : Bool) (error : WorkspaceError) (t t' : T)
      → Exchanged applied t t'
      → roll_back git original_patch final_patch applied true error t' ≡ (some error, t)
  unfolding roll_back
  roll_back-back false error t t' (bare, off, same) =
      rw (← same, roll_back) (restore_original-back error t bare off)
  roll_back-back true error t t' (bare, off, on) =
      rw (roll_back, laws.reverse-apply final_patch bare t' on)
        (restore_original-back error t bare off)

  Fails :
      (t : T) {o : Option WorkspaceError × T} (error : WorkspaceError)
      → error ≢ restore_failed
      → o ≡ (some error, t)
      → IsTransaction git passing t o
  Fails t error h e = rw e (refl, h)

  -- The end of the call, on what the last capture answers.
  verify_applied-IsTransaction :
      (applied : Bool) (t t' : T)
      → Exchanged applied t t'
      → IsTransaction git passing t
          (verify_applied git original_patch final_patch passing applied t')
  unfolding verify_applied
  verify_applied-IsTransaction applied t t' done = elim (Option-cases (git.capture true t')) [
    | inl e ↦
        Fails t apply_failed (ground arith)
          (rw (verify_applied, e) (roll_back-back applied apply_failed t t' done))
    | inr (c, e) ↦ elim (Bool-cases (is_candidate passing c)) [
      | inl matches ↦
          let ends : verify_applied git original_patch final_patch passing applied t' ≡ (none, t') =
            rw (verify_applied, e) (rw matches) in
          rw ends (c, e, matches)
      | inr differs ↦ Fails t post_apply_mismatch (ground arith) (
          rw (verify_applied, e)
            (rw differs (roll_back-back applied post_apply_mismatch t t' done)))
    ]
  ]

  exchange_patches-IsTransaction :
      (t : T)
      → IsTransaction git passing t (exchange_patches git original_patch final_patch passing t)
  unfolding exchange_patches
  exchange_patches-IsTransaction t = elim (Option-cases (git.reverse original_patch t)) [
    | inl e ↦ Fails t apply_failed (ground arith) (rw (exchange_patches, e))
    | inr (bare, off) ↦ elim (Bool-cases (is_empty final_patch)) [
      | inl nothing ↦
          let goes_on : exchange_patches git original_patch final_patch passing t
              ≡ verify_applied git original_patch final_patch passing false bare =
            rw (exchange_patches, off) (rw nothing) in
          rw goes_on (verify_applied-IsTransaction false t bare (bare, off, refl))
      | inr something ↦ elim (Option-cases (git.apply final_patch bare)) [
        | inl e ↦ Fails t apply_failed (ground arith) (
            rw (exchange_patches, off)
              (rw (something, e) (restore_original-back apply_failed t bare off)))
        | inr (t', on) ↦
            let goes_on : exchange_patches git original_patch final_patch passing t
                ≡ verify_applied git original_patch final_patch passing true t' =
              rw (exchange_patches, off) (rw (something, on)) in
            rw goes_on (verify_applied-IsTransaction true t t' (bare, off, on))
      ]
    ]
  ]

  guarded :
      (b : Bool) (t : T) (error : WorkspaceError) (o : Option WorkspaceError × T)
      → error ≢ restore_failed
      → IsTransaction git passing t o
      → IsTransaction git passing t (if b then (some error, t) else o)
  guarded true t error o h rest = (refl, h)
  guarded false t error o h rest = rest

  -- Where patches that git applied can be reversed, and reversed ones applied,
  -- `apply_candidate_to_source` either succeeds with a worktree whose capture is the candidate of
  -- the passing attempt, or reports an error, which is never that of the restoration, and leaves
  -- the worktree as it was.
  pub apply_candidate_to_source-IsTransaction :
      (sha256_bytes : Bytes → String) (c0_attempt : RepairAttempt) (approval : FinalApproval)
      (t : T)
      → IsTransaction git passing t (
          apply_candidate_to_source git original_patch final_patch sha256_bytes c0_attempt passing
            approval t)
  unfolding apply_candidate_to_source
  apply_candidate_to_source-IsTransaction sha256_bytes c0_attempt approval t =
      let last = recapture git original_patch final_patch c0_attempt passing t in
      let third : Option WorkspaceError × T =
        if not (sha256_bytes final_patch == passing.patch_digest)
        then (some passing_patch_mismatch, t)
        else last in
      let second : Option WorkspaceError × T =
        if not (approval.final_patch_digest == passing.patch_digest)
        then (some approval_patch_mismatch, t)
        else third in
      guarded (not (approval.final_candidate_tree == passing.candidate_tree)) t
        approval_tree_mismatch second (ground arith)
        (guarded (not (approval.final_patch_digest == passing.patch_digest)) t
          approval_patch_mismatch third (ground arith)
          (guarded (not (sha256_bytes final_patch == passing.patch_digest)) t passing_patch_mismatch
            last (ground arith) recaptured))
    where
      recaptured :
          IsTransaction git passing t
            (recapture git original_patch final_patch c0_attempt passing t)
      recaptured = elim (Option-cases (git.capture false t)) [
        | inl e ↦ Fails t recapture_failed (ground arith) (rw (recapture, e))
        | inr (c, e) ↦
            let goes_on : recapture git original_patch final_patch c0_attempt passing t ≡ (
                if not (is_candidate c0_attempt c)
                then (some source_changed, t)
                else exchange_patches git original_patch final_patch passing t) =
              rw (recapture, e) in
            rw goes_on (
              guarded (not (is_candidate c0_attempt c)) t source_changed _ (ground arith)
                (exchange_patches-IsTransaction t))
      ]
