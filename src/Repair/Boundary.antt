-- ===== src/Repair/Boundary.antt =====
-- repair/workspace.py: the export of a candidate and the approved paths.
use blindspot_remediation.Prelude.{
  String, true, false, not, ◌&&◌, ◌||◌, some, List, ◌∷◌, ◌++◌, all, keep, mem, is_empty, ◌≡◌, arith,
  ◌∙◌, is_empty-keep, any-not, mem-keep, from_keys, contains, contains-append_right, contains-join,
  join, mem-append, mem-from_keys,
}
use blindspot_remediation.Config.{Scope}
use blindspot_remediation.Policy.{Matcher}
use blindspot_remediation.Repair.Models.{RepairStopReason}
use blindspot_remediation.Repair.Workspace.{
  Bytes, outside_approved, compute_approved_paths, ExportedCandidate, exported, ExportAnswers,
  export_candidate,
}
use blindspot_remediation.Repair.Transitions.{workspace_stop_reason}

-- The candidate is new and stays inside the approved paths.
pub record IsAcceptable (sha256_bytes : Bytes → String) (trees patches approved_paths : List String)
    (c : ExportedCandidate) : Type 0 where
  pub new_tree : mem c.candidate_tree trees ≡ false
  pub new_patch : mem c.patch_sha256 patches ≡ false
  pub digest : c.patch_sha256 ≡ sha256_bytes c.patch
  pub inside : all (λ p. mem p approved_paths) c.changed_paths ≡ true

no_unapproved :
    (approved_paths changed : List String)
    → is_empty (keep (λ p. not (mem p approved_paths)) changed)
      ≡ all (λ p. mem p approved_paths) changed
no_unapproved approved_paths changed = ground (
  arith,
  is_empty-keep (λ p. not (mem p approved_paths)) changed,
  any-not (λ p. mem p approved_paths) changed,
)

module _ (sha256_bytes : Bytes → String) (trees patches approved_paths : List String) where
  -- A candidate that is exported has a tree and a patch digest that were not seen before, the
  -- digest of its patch, and changes in approved paths only.
  pub export_candidate-IsAcceptable :
      (git : ExportAnswers) (c : ExportedCandidate)
      → export_candidate sha256_bytes trees patches approved_paths git ≡ exported c
      → IsAcceptable sha256_bytes trees patches approved_paths c
  unfolding export_candidate
  export_candidate-IsAcceptable git c h = record {
    new_tree = ground arith;
    new_patch = ground arith;
    digest = ground arith;
    inside = ground (arith, no_unapproved approved_paths c.changed_paths);
  }

  -- Where git answers, a candidate with a new tree, a new patch digest and changes in approved
  -- paths only is exported.
  pub export_candidate_complete :
      (git : ExportAnswers) (tree : String) (patch : Bytes) (changed : List String)
      → git.written_tree ≡ some tree
      → git.diff ≡ some patch
      → git.name_status ≡ some changed
      → mem tree trees ≡ false
      → mem (sha256_bytes patch) patches ≡ false
      → all (λ p. mem p approved_paths) changed ≡ true
      → export_candidate sha256_bytes trees patches approved_paths git
        ≡ exported (record {
          candidate_tree = tree;
          patch = patch;
          patch_sha256 = sha256_bytes patch;
          changed_paths = changed;
        })
  unfolding export_candidate
  export_candidate_complete git tree patch changed t d n new_tree new_patch inside =
      ground (arith, no_unapproved approved_paths changed)

-- A path is approved for a repair exactly when it is a changed or an extra path which the scope
-- allows and neither forbids nor subjects to review.
pub compute_approved_paths-mem :
    (match_file : Matcher) (changed : List String) (scope : Scope) (extra : List String)
    (p : String)
    → mem p (compute_approved_paths match_file changed (some scope) extra) ≡ (
        (match_file scope.allowed_paths p
          && (not (match_file scope.forbidden_paths p)
              && not (match_file scope.review_required_paths p)))
        && (mem p changed || mem p extra))
unfolding compute_approved_paths
compute_approved_paths-mem match_file changed scope extra p =
    mem-keep p
      (λ path.
        match_file scope.allowed_paths path
        && (not (match_file scope.forbidden_paths path)
            && not (match_file scope.review_required_paths path)))
      (from_keys (changed ++ extra))
    ∙ cc (mem-from_keys p (changed ++ extra), mem-append p changed extra)

-- An edit outside the approved paths is recorded as a repeated candidate where the first path that
-- is listed contains "repeated".
pub workspace_stop_reason-repeated_path :
    (path : String) (paths : List String)
    → contains "repeated" path ≡ true
    → workspace_stop_reason (outside_approved (path ∷ paths)) ≡ RepairStopReason.repeated_candidate
unfolding workspace_stop_reason
workspace_stop_reason-repeated_path path paths h = rw (
    contains-append_right "repeated" (join ", " (path ∷ paths))
      "edits outside approved paths detected: " (contains-join "repeated" ", " path paths h))
