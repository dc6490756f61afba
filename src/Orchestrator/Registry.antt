-- ===== src/Orchestrator/Registry.antt =====
-- A9-orchestrator/src/ai_engineering_orchestrator/registry.py: the task definitions. The files that
-- were read, in the order of their names, are an argument; `none` is one that `from_yaml` refuses.
use blindspot_remediation.Prelude.{
  String, Bool, not, Option, none, some, List, [], ◌∷◌, ◌++◌, any, if◌then◌else◌, ◌==◌,
}
use blindspot_remediation.Orchestrator.Models.{TaskDefinition}

-- The failures of the registry, by the class of the exception.
pub data RegistryError : Type 0 where
  task_definition unsupported_task_type : RegistryError

pub data Resolved (A : Type 0) : Type 0 where
  found : A → Resolved A
  refused : RegistryError → Resolved A

-- `task_type in definitions`
abbrev pub is_defined : String → List TaskDefinition → Bool
is_defined task_type definitions = any (λ d. task_type == d.task_type) definitions

-- The loop of `load_all` over the files.
unfoldable pub load_from :
    List TaskDefinition → List (Option TaskDefinition) → Resolved (List TaskDefinition)
load_from definitions [] = found definitions
load_from definitions (none ∷ files) = refused RegistryError.task_definition
load_from definitions (some d ∷ files) =
    let rest = load_from (definitions ++ d ∷ []) files in
    if is_defined d.task_type definitions then refused RegistryError.task_definition else rest

-- `load_all`; `none` is a directory that does not exist.
unfoldable pub load_all : Option (List (Option TaskDefinition)) → Resolved (List TaskDefinition)
unfolding load_from
load_all none = refused RegistryError.task_definition
load_all (some files) = load_from [] files

-- `definitions.get(task_type)`
abbrev pub find_definition : String → List TaskDefinition → Option TaskDefinition
find_definition task_type [] = none
find_definition task_type (d ∷ definitions) =
    if task_type == d.task_type then some d else find_definition task_type definitions

abbrev pub enabled_only : Option TaskDefinition → Resolved TaskDefinition
enabled_only none = refused RegistryError.unsupported_task_type
enabled_only (some d) =
    if not d.enabled then refused RegistryError.unsupported_task_type else found d

abbrev pub resolve_in : String → Resolved (List TaskDefinition) → Resolved TaskDefinition
resolve_in task_type (found definitions) = enabled_only (find_definition task_type definitions)
resolve_in task_type (refused error) = refused error

-- `resolve`
unfoldable pub resolve : Option (List (Option TaskDefinition)) → String → Resolved TaskDefinition
unfolding load_all
resolve files task_type = resolve_in task_type (load_all files)
