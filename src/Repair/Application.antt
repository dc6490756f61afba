-- ===== src/Repair/Application.antt =====
-- release-gate/src/release_gate/repair/workspace.py: `apply_candidate_to_source`. The source
-- worktree is a value of the type `T`; git's commands on it are arguments.
use blindspot_remediation.Prelude.{
  String, Bool, true, false, not, ◌&&◌, Option, none, some, is_empty, if◌then◌else◌, ◌==◌, ◌≡◌,
}
use blindspot_remediation.Repair.Models.{RepairAttempt, FinalApproval}
use blindspot_remediation.Repair.Workspace.{
  Bytes, WorkspaceError, approval_tree_mismatch, approval_patch_mismatch, passing_patch_mismatch,
  recapture_failed, source_changed, post_apply_mismatch, restore_failed, apply_failed,
}

-- `git apply`, `git apply --reverse` and `capture_candidate` at the base of the session. `none`
-- stands for an error, which leaves the worktree as it was. The Boolean is `allow_empty`; a capture
-- is the tree and the digest of the patch.
pub record Git (T : Type 0) : Type 0 where
  pub apply : Bytes → T → Option T
  pub reverse : Bytes → T → Option T
  pub capture : Bool → T → Option (String × String)

-- A patch that was applied can be reversed, and the other way round.
pub record Reversible {T : Type 0} (git : Git T) : Type 0 where
  pub reverse-apply : (p : Bytes) (t t' : T) → git.apply p t ≡ some t' → git.reverse p t' ≡ some t
  pub apply-reverse : (p : Bytes) (t t' : T) → git.reverse p t ≡ some t' → git.apply p t' ≡ some t

-- The captured candidate is the one of the attempt.
abbrev pub is_candidate : RepairAttempt → String × String → Bool
is_candidate attempt (tree, digest) =
    tree == attempt.candidate_tree && digest == attempt.patch_digest

module _ {T : Type 0} (git : Git T) (original_patch final_patch : Bytes) where
  -- Put the original patch back, if it was taken off; then the error is raised again.
  unfoldable pub restore_original : Bool → WorkspaceError → T → Option WorkspaceError × T
  restore_original false error t = (some error, t)
  restore_original true error t = elim (git.apply original_patch t) [
    | none ↦ (some restore_failed, t)
    | some t' ↦ (some error, t')
  ]

  -- The handler: take the final patch off, if it was applied, and put the original one back.
  unfoldable pub roll_back : Bool → Bool → WorkspaceError → T → Option WorkspaceError × T
  unfolding restore_original
  roll_back false reverted error t = restore_original reverted error t
  roll_back true reverted error t = elim (git.reverse final_patch t) [
    | none ↦ (some restore_failed, t)
    | some t' ↦ restore_original reverted error t'
  ]

  -- The capture after the patches, and the comparison with the passing attempt.
  unfoldable pub verify_applied : RepairAttempt → Bool → T → Option WorkspaceError × T
  unfolding roll_back
  verify_applied passing applied t = elim (git.capture true t) [
    | none ↦ roll_back applied true apply_failed t
    | some c ↦
        if is_candidate passing c then (none, t) else roll_back applied true post_apply_mismatch t
  ]

  -- The body of the `try`: the original patch off, the final patch on unless it is empty.
  unfoldable pub exchange_patches : RepairAttempt → T → Option WorkspaceError × T
  unfolding verify_applied
  exchange_patches passing t = elim (git.reverse original_patch t) [
    | none ↦ roll_back false false apply_failed t
    | some bare ↦
        if is_empty final_patch
        then verify_applied passing false bare
        else elim (git.apply final_patch bare) [
          | none ↦ roll_back false true apply_failed bare
          | some t' ↦ verify_applied passing true t'
        ]
  ]

  -- The source must still be the candidate that the repair started from.
  unfoldable pub recapture : RepairAttempt → RepairAttempt → T → Option WorkspaceError × T
  unfolding exchange_patches
  recapture c0_attempt passing t = elim (git.capture false t) [
    | none ↦ (some recapture_failed, t)
    | some c ↦
        if not (is_candidate c0_attempt c)
        then (some source_changed, t)
        else exchange_patches passing t
  ]

  unfoldable pub apply_candidate_to_source :
      (Bytes → String)
      → RepairAttempt
      → RepairAttempt
      → FinalApproval
      → T
      → Option WorkspaceError × T
  unfolding recapture
  apply_candidate_to_source sha256_bytes c0_attempt passing approval t =
      if not (approval.final_candidate_tree == passing.candidate_tree)
      then (some approval_tree_mismatch, t)
      else if not (approval.final_patch_digest == passing.patch_digest)
      then (some approval_patch_mismatch, t)
      else if not (sha256_bytes final_patch == passing.patch_digest)
      then (some passing_patch_mismatch, t)
      else recapture c0_attempt passing t
