-- ===== src/Repair/Workspace.antt =====
-- release-gate/src/release_gate/repair/workspace.py: the paths that a repair may edit, the export of
-- a candidate from the disposable clone, and its application to the source worktree. What git
-- answers is an argument; `none` stands for a command that exits with an error.
use blindspot_remediation.Prelude.{
  ℕ, String, not, ◌&&◌, Option, none, some, List, ◌++◌, keep, mem, from_keys, is_empty,
  if◌then◌else◌, join,
}
use Prim.Native.String.{◌++◌ as text_append}
use blindspot_remediation.Config.{Scope}
use blindspot_remediation.Policy.{Matcher}

abbrev pub Bytes : Type 0
Bytes = List ℕ

-- The messages of `RepairWorkspaceError` that the model tells apart; `failed` carries the text of an
-- error of git.
pub data WorkspaceError : Type 0 where
  repeated_tree repeated_patch : WorkspaceError
  outside_approved : List String → WorkspaceError
  failed : String → WorkspaceError
  approval_tree_mismatch approval_patch_mismatch passing_patch_mismatch : WorkspaceError
  recapture_failed source_changed : WorkspaceError
  post_apply_mismatch restore_failed apply_failed : WorkspaceError

-- `str(error)` of the errors of `export_candidate`.
unfoldable pub message : WorkspaceError → String
unfolding join
message repeated_tree = "candidate tree is unchanged or repeated from a prior attempt"
message repeated_patch = "candidate patch digest is repeated from a prior attempt"
message (outside_approved paths) =
    text_append "edits outside approved paths detected: " (join ", " paths)
message (failed error) = text_append "failed to export candidate from workspace: " error
message _ = ""

-- The arguments are those of the source; a run without a scope approves every candidate path.
unfoldable pub compute_approved_paths :
    Matcher → List String → Option Scope → List String → List String
compute_approved_paths match_file changed_paths none extra_paths =
    from_keys (changed_paths ++ extra_paths)
compute_approved_paths match_file changed_paths (some scope) extra_paths =
    keep
      (λ path.
        match_file scope.allowed_paths path
        && (not (match_file scope.forbidden_paths path)
            && not (match_file scope.review_required_paths path)))
      (from_keys (changed_paths ++ extra_paths))

pub record ExportedCandidate : Type 0 where
  pub candidate_tree : String
  pub patch : Bytes
  pub patch_sha256 : String
  pub changed_paths : List String

pub data Export : Type 0 where
  exported : ExportedCandidate → Export
  refused : WorkspaceError → Export

-- What git answers to the commands of `export_candidate`: `add` and `write-tree`, `diff-tree -p`,
-- and `diff-tree --name-status` as `_parse_name_status` reads it.
pub record ExportAnswers : Type 0 where
  pub written_tree : Option String
  pub diff : Option Bytes
  pub name_status : Option (List String)
  pub error_text : String

-- The end of `export_candidate`: the path boundary.
unfoldable pub enforce_boundary : List String → String → Bytes → String → List String → Export
enforce_boundary approved_paths candidate_tree patch patch_sha256 changed_paths =
    let unapproved = keep (λ p. not (mem p approved_paths)) changed_paths in
    if not (is_empty unapproved)
    then refused (outside_approved unapproved)
    else exported (record {
      candidate_tree = candidate_tree;
      patch = patch;
      patch_sha256 = patch_sha256;
      changed_paths = changed_paths;
    })

-- `export_candidate`, on the trees and the patches that were recorded as seen.
unfoldable pub export_candidate :
    (Bytes → String) → List String → List String → List String → ExportAnswers → Export
unfolding enforce_boundary
export_candidate sha256_bytes seen_trees seen_patches approved_paths git = elim git.written_tree [
  | none ↦ refused (failed git.error_text)
  | some tree ↦ if mem tree seen_trees then refused repeated_tree else elim git.diff [
    | none ↦ refused (failed git.error_text)
    | some patch ↦
        if mem (sha256_bytes patch) seen_patches
        then refused repeated_patch
        else elim git.name_status [
          | none ↦ refused (failed git.error_text)
          | some changed ↦ enforce_boundary approved_paths tree patch (sha256_bytes patch) changed
        ]
  ]
]
