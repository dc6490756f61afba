-- ===== src/Orchestrator/Limits.antt =====
-- The check of a budget as a comparison of each counter, and the registry of task definitions.
use blindspot_remediation.Prelude.{
  ℕ, ◌-◌, ◌≤◌, String, Bool, true, false, if◌then◌else◌, ◌||◌, ◌==◌, eq_iff, mem, distinct, Option,
  none, some, List, [], ◌∷◌, ◌++◌, map, append-nil, ◌≡◌, ◌↔◌, refl, sym, ◌∙◌, ap, arith,
}
use Prim.Native.Nat.{◌*◌}
use blindspot_remediation.Orchestrator.Models.{ResourceBudget, UsageLedger, TaskDefinition}
use blindspot_remediation.Orchestrator.Budgets.{over_usage, over_time, after_usage, validate}
use blindspot_remediation.Orchestrator.Actions.{ok, Ports, State}
use blindspot_remediation.Orchestrator.Registry.{
  RegistryError, Resolved, found, refused, is_defined, load_from, load_all, find_definition,
  enabled_only, resolve_in, resolve,
}

-- Every counter is within its limit.
abbrev pub Within : ResourceBudget → UsageLedger → Type 0
Within budget usage =
    (usage.execution_attempts ≤ budget.maximum_execution_attempts)
    × (usage.gate_attempts ≤ budget.maximum_gate_attempts)
    × (usage.input_tokens ≤ budget.maximum_total_llm_input_tokens)
    × (usage.output_tokens ≤ budget.maximum_total_llm_output_tokens)
    × (usage.llm_requests ≤ budget.maximum_total_llm_requests)

over_usage-none :
    (budget : ResourceBudget) (usage : UsageLedger)
    → over_usage budget usage ≡ none ↔ Within budget usage
unfolding over_usage
over_usage-none budget usage = ground arith

after_usage-ok :
    {W : Type 0} (ports : Ports W) (budget : ResourceBudget) (started_at : ℕ) (over : Option String)
    (s : State W)
    → (after_usage ports budget started_at over s).0 ≡ ok tt
      ↔ (over ≡ none) × (over_time budget started_at (ports.now s.world).0 ≡ false)
after_usage-ok ports budget started_at none s = ground arith
after_usage-ok ports budget started_at (some text) s = ground arith

-- The check of a budget returns exactly when every counter is within its limit and the run has not
-- lasted longer than the seconds allowed, by the clock's next reading.
pub validate-ok :
    {W : Type 0} (ports : Ports W) (budget : ResourceBudget) (s : State W)
    → (validate ports budget s).0 ≡ ok tt
      ↔ Within budget s.run.usage
        × ((ports.now s.world).0 - s.run.started_at ≤ budget.maximum_elapsed_seconds * 1_000_000)
unfolding validate
validate-ok ports budget s = ground (
  arith,
  after_usage-ok ports budget s.run.started_at (over_usage budget s.run.usage) s,
  over_usage-none budget s.run.usage,
)

abbrev pub task_types : List TaskDefinition → List String
task_types definitions = map (λ d. d.task_type) definitions

is_defined-mem :
    (task_type : String) (definitions : List TaskDefinition)
    → is_defined task_type definitions ≡ mem task_type (task_types definitions)
is_defined-mem task_type [] = refl
is_defined-mem task_type (d ∷ definitions) = ground (arith, is_defined-mem task_type definitions)

mem-task_types :
    (task_type : String) (definitions : List TaskDefinition) (d : TaskDefinition)
    → mem task_type (task_types (definitions ++ d ∷ []))
      ≡ (mem task_type (task_types definitions) || task_type == d.task_type)
mem-task_types task_type [] d = ground arith
mem-task_types task_type (x ∷ definitions) d =
    ground (arith, mem-task_types task_type definitions d)

task_types-distinct :
    (definitions : List TaskDefinition) (d : TaskDefinition)
    → distinct (task_types definitions) ≡ true
    → mem d.task_type (task_types definitions) ≡ false
    → distinct (task_types (definitions ++ d ∷ [])) ≡ true
task_types-distinct [] d h e = refl
task_types-distinct (x ∷ definitions) d h e = ground (
  arith,
  mem-task_types x.task_type definitions d,
  task_types-distinct definitions d,
  eq_iff x.task_type d.task_type,
  eq_iff d.task_type x.task_type,
)

-- What was read is kept, in its order, and no task type is defined twice.
abbrev pub Loaded :
    List TaskDefinition → List (Option TaskDefinition) → List TaskDefinition → Type 0
Loaded definitions files all =
    (map some definitions ++ files ≡ map some all) × (distinct (task_types all) ≡ true)

abbrev definitions_or : List TaskDefinition → Resolved (List TaskDefinition) → List TaskDefinition
definitions_or default (found all) = all
definitions_or default (refused _) = default

map-some-append :
    (definitions : List TaskDefinition) (d : TaskDefinition) (files : List (Option TaskDefinition))
    → map some (definitions ++ d ∷ []) ++ files ≡ map some definitions ++ some d ∷ files
map-some-append [] d files = refl
map-some-append (x ∷ definitions) d files =
    ap (λ xs. some x ∷ xs) (map-some-append definitions d files)

load_from-Loaded :
    (definitions : List TaskDefinition) (files : List (Option TaskDefinition))
    (all : List TaskDefinition)
    → load_from definitions files ≡ found all
    → distinct (task_types definitions) ≡ true
    → Loaded definitions files all
unfolding load_from
load_from-Loaded definitions [] all e h =
    let same : definitions ≡ all = ap (definitions_or definitions) e in
    rw (← same) (append-nil (map some definitions), h)
load_from-Loaded definitions (none ∷ files) all e h = ground arith
load_from-Loaded definitions (some d ∷ files) all e h =
    let (new, rest) = kept (is_defined d.task_type definitions) e in
    let (same, once) =
      load_from-Loaded (definitions ++ d ∷ []) files all rest (
        task_types-distinct definitions d h (sym (is_defined-mem d.task_type definitions) ∙ new)) in
    (sym (map-some-append definitions d files) ∙ same, once)
  where
    kept :
        (b : Bool)
        → (if b
            then refused RegistryError.task_definition
            else load_from (definitions ++ d ∷ []) files)
          ≡ found all
        → (b ≡ false) × (load_from (definitions ++ d ∷ []) files ≡ found all)
    kept true e = ground arith
    kept false e = (refl, e)

find_definition-found :
    (task_type : String) (definitions : List TaskDefinition) (d : TaskDefinition)
    → find_definition task_type definitions ≡ some d
    → d.task_type ≡ task_type
find_definition-found task_type [] d e = ground arith
find_definition-found task_type (x ∷ definitions) d e =
    ground (arith, eq_iff task_type x.task_type, find_definition-found task_type definitions d)

-- When the task definitions load, they are those of all the files, in their order, and no task
-- type is defined twice.
pub load_all-Loaded :
    (files : List (Option TaskDefinition)) (all : List TaskDefinition)
    → load_all (some files) ≡ found all
    → (files ≡ map some all) × (distinct (task_types all) ≡ true)
unfolding load_all
load_all-Loaded files all e = load_from-Loaded [] files all e refl

enabled_only-found :
    (o : Option TaskDefinition) (d : TaskDefinition)
    → enabled_only o ≡ found d
    → (o ≡ some d) × (d.enabled ≡ true)
enabled_only-found none d e = ground arith
enabled_only-found (some x) d e = ground arith

resolve_in-found :
    (task_type : String) (r : Resolved (List TaskDefinition)) (d : TaskDefinition)
    → resolve_in task_type r ≡ found d
    → (d.task_type ≡ task_type) × (d.enabled ≡ true)
resolve_in-found task_type (found definitions) d e =
    let (same, enabled) = enabled_only-found (find_definition task_type definitions) d e in
    (find_definition-found task_type definitions d same, enabled)
resolve_in-found task_type (refused error) d e = ground arith

-- What `resolve` returns is an enabled definition of the task type that was asked for.
pub resolve-found :
    (files : Option (List (Option TaskDefinition))) (task_type : String) (d : TaskDefinition)
    → resolve files task_type ≡ found d
    → (d.task_type ≡ task_type) × (d.enabled ≡ true)
unfolding resolve
resolve-found files task_type d e = resolve_in-found task_type (load_all files) d e
