-- ===== src/Repair/Playbooks.antt =====
-- release-gate/src/release_gate/repair/playbooks.py: changes of the harness, and the guidance that
-- the playbooks of the base commit give. Reading them from git and YAML is not modelled.
use Prim.Native.String.{◌++◌}
use blindspot_remediation.Prelude.{
  String, Bool, ◌||◌, Option, none, some, List, [], ◌∷◌, any, if◌then◌else◌, ◌==◌, is_empty,
  forward_slashes, strip_left, strip_right, has_prefix, join,
}

pub record PlaybookMetadata : Type 0 where
  pub check_id : String
  pub name : String
  pub description : String
  pub allowed_paths : List String
  pub guidance : String

-- `check_playbooks` is a dict by check.
pub record LoadedPlaybooks : Type 0 where
  pub is_custom : Bool
  pub check_playbooks : List (String × PlaybookMetadata)
  pub extra_approved_paths : List String
  pub warnings : List String

abbrev find_playbook : String → List (String × PlaybookMetadata) → Option PlaybookMetadata
find_playbook check_id [] = none
find_playbook check_id ((k, p) ∷ playbooks) =
    if check_id == k then some p else find_playbook check_id playbooks

generic_guidance : String
generic_guidance =
    "Generic repair workflow:\n- Inspect result.json and execution logs for failed checks.\n- Only edit files within approved paths.\n- Fix root causes without disabling tests or modifying policy."

unmatched_guidance : String
unmatched_guidance =
    "Generic repair workflow (no check-specific playbooks matched):\n- Inspect result.json and execution logs for failed checks.\n- Only edit files within approved paths.\n- Fix root causes without disabling tests or modifying policy."

sections : List (String × PlaybookMetadata) → List String → List String
sections playbooks [] = []
sections playbooks (check_id ∷ check_ids) = elim (find_playbook check_id playbooks) [
  | none ↦ sections playbooks check_ids
  | some pb ↦
      ("### Playbook: " ++ (pb.name ++ (" (Check: " ++ (check_id ++ (")\n" ++ pb.guidance)))))
      ∷ sections playbooks check_ids
]

-- `LoadedPlaybooks.guidance_for_checks`
unfoldable pub guidance_for_checks : LoadedPlaybooks → List String → String
unfolding generic_guidance unmatched_guidance sections
guidance_for_checks loaded check_ids =
    let found = sections loaded.check_playbooks check_ids in
    if loaded.is_custom
    then (if is_empty found then unmatched_guidance else join "\n\n" found)
    else generic_guidance

abbrev pub repair_dir : String
repair_dir = ".release-gate/repair"

-- The path as `has_harness_changes` compares it.
unfoldable pub normalized : String → String
normalized path = strip_right (strip_left (forward_slashes path))

abbrev is_harness_path : String → Bool
is_harness_path path =
    normalized path == repair_dir || has_prefix (normalized path) (repair_dir ++ "/")

unfoldable pub has_harness_changes : List String → Bool
unfolding normalized forward_slashes strip_left strip_right has_prefix
has_harness_changes changed_paths = any is_harness_path changed_paths
