-- ===== src/Config/CommandSpecs.antt =====
-- release-gate/src/release_gate/models.py: a command with its overrides by platform, what it resolves
-- to, and the validation of its environments. `upper` is Python's `str.upper`. A dict of environment
-- variables is an association list; a key that is set again keeps its place.
use blindspot_remediation.Prelude.{
  ℕ, String, Bool, true, false, not, ◌&&◌, ◌||◌, Option, none, some, List, [], ◌∷◌, ◌++◌, map, all,
  mem, distinct, has_prefix, if◌then◌else◌, ◌==◌,
}
use blindspot_remediation.Config.{PlatformName, ExitClasses}

abbrev pub Environment : Type 0
Environment = List (String × String)

pub record CommandOverride : Type 0 where
  pub argv : Option (List String)
  pub cwd : Option String
  pub timeout : Option ℕ
  pub environment : Option Environment
  pub inherit_environment : Option (List String)
  pub exit_classes : Option ExitClasses

pub record PlatformOverrides : Type 0 where
  pub linux : Option CommandOverride
  pub macos : Option CommandOverride
  pub windows : Option CommandOverride

abbrev pub for_platform : PlatformName → PlatformOverrides → Option CommandOverride
for_platform PlatformName.linux overrides = overrides.linux
for_platform PlatformName.macos overrides = overrides.macos
for_platform PlatformName.windows overrides = overrides.windows

pub record ResolvedCommand : Type 0 where
  pub argv : List String
  pub cwd : String
  pub timeout : ℕ
  pub environment : Environment
  pub inherit_environment : List String
  pub exit_classes : ExitClasses

pub record CommandSpec : Type 0 where
  pub argv : List String
  pub cwd : String
  pub timeout : ℕ
  pub environment : Environment
  pub inherit_environment : List String
  pub exit_classes : ExitClasses
  pub platform : Option PlatformOverrides

abbrev pub is_windows : PlatformName → Bool
is_windows PlatformName.windows = true
is_windows _ = false

abbrev pub variables : Environment → List String
variables [] = []
variables ((k, v) ∷ env) = k ∷ variables env

abbrev pub lookup : String → Environment → Option String
lookup x [] = none
lookup x ((k, v) ∷ env) = if x == k then some v else lookup x env

-- `env[key] = value`
unfoldable pub put : String → String → Environment → Environment
put key value [] = (key, value) ∷ []
put key value ((k, v) ∷ env) = if key == k then (k, value) ∷ env else (k, v) ∷ put key value env

-- `env.update(other)`
unfoldable pub update : Environment → Environment → Environment
unfolding put
update env [] = env
update env ((k, v) ∷ other) = update (put k v env) other

abbrev pub upper_names : (String → String) → Environment → Environment
upper_names upper [] = []
upper_names upper ((k, v) ∷ env) = (upper k, v) ∷ upper_names upper env

abbrev pub or_empty : {A : Type 0} → Option (List A) → List A
or_empty none = []
or_empty (some xs) = xs

abbrev pub or_default : {A : Type 0} → A → Option A → A
or_default a none = a
or_default a (some b) = b

-- `_merge_environment`
unfoldable pub merge_environment :
    (String → String) → Environment → Option Environment → PlatformName → Environment
unfolding update
merge_environment upper common override platform =
    if is_windows platform
    then update (update [] (upper_names upper common)) (upper_names upper (or_empty override))
    else update common (or_empty override)

-- The override of the platform, where there is one.
abbrev pub override_of : CommandSpec → PlatformName → Option CommandOverride
override_of spec platform = elim spec.platform [
  | none ↦ none
  | some overrides ↦ for_platform platform overrides
]

-- A field of the override, where it is set.
abbrev pub field : {A : Type 0} → (CommandOverride → Option A) → Option CommandOverride → Option A
field get none = none
field get (some override) = get override

-- `CommandSpec.resolve`
unfoldable pub resolve : (String → String) → CommandSpec → PlatformName → ResolvedCommand
unfolding merge_environment
resolve upper spec platform =
    let override = override_of spec platform in
    let inherited =
      or_default spec.inherit_environment (field (λ o. o.inherit_environment) override) in
    record {
      argv = or_default spec.argv (field (λ o. o.argv) override);
      cwd = or_default spec.cwd (field (λ o. o.cwd) override);
      timeout = or_default spec.timeout (field (λ o. o.timeout) override);
      environment =
          merge_environment upper spec.environment (field (λ o. o.environment) override) platform;
      inherit_environment = if is_windows platform then map upper inherited else inherited;
      exit_classes = or_default spec.exit_classes (field (λ o. o.exit_classes) override);
    }

abbrev pub reserved_names : PlatformName → List String
reserved_names PlatformName.windows =
    "HOME" ∷ "RELEASE_GATE_" ∷ "USERPROFILE" ∷ "HOMEDRIVE" ∷ "HOMEPATH" ∷ "TEMP" ∷ "TMP" ∷ []
reserved_names _ = "HOME" ∷ "RELEASE_GATE_" ∷ "TMPDIR" ∷ []

abbrev pub is_reserved : PlatformName → String → Bool
is_reserved platform name = mem name (reserved_names platform) || has_prefix name "RELEASE_GATE_"

abbrev pub comparison_name : (String → String) → PlatformName → String → String
comparison_name upper platform name = if is_windows platform then upper name else name

-- `_validate_environment_names`: whether it returns. `len(folded) != len(set(folded))` holds where a
-- name stands twice.
unfoldable pub validate_environment_names :
    (String → String) → Environment → List String → PlatformName → Bool
validate_environment_names upper literal inherited platform =
    (not (is_windows platform)
      || distinct (map upper (variables literal)) && distinct (map upper inherited))
    && all (λ name. not (is_reserved platform (comparison_name upper platform name)))
        (variables literal ++ inherited)

-- `_validate_override_environment`, where there is an override.
abbrev pub validate_override_environment :
    (String → String) → Option CommandOverride → PlatformName → Bool
validate_override_environment upper none platform = true
validate_override_environment upper (some override) platform =
    validate_environment_names upper (or_empty override.environment)
      (or_empty override.inherit_environment) platform

-- The environments that `_validate_commands` validates for one platform: those of the command and of
-- its override.
abbrev pub validate_for : (String → String) → CommandSpec → PlatformName → Bool
validate_for upper spec platform =
    validate_override_environment upper (override_of spec platform) platform
    && validate_environment_names upper spec.environment spec.inherit_environment platform

unfoldable pub validate_environments : (String → String) → CommandSpec → Bool
unfolding validate_environment_names
validate_environments upper spec =
    validate_for upper spec PlatformName.linux
    && (validate_for upper spec PlatformName.macos && validate_for upper spec PlatformName.windows)
