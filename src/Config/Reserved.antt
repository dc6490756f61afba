-- ===== src/Config/Reserved.antt =====
-- `CommandSpec.resolve` on a command whose environments were validated.
use blindspot_remediation.Prelude.{
  String, Bool, true, false, not, ◌&&◌, ◌||◌, Option, none, some, List, [], ◌∷◌, ◌++◌, all, mem,
  distinct, if◌then◌else◌, ◌==◌, ◌≡◌, refl, arith, eq_iff, ◌∙◌,
}
use blindspot_remediation.Config.{PlatformName}
use blindspot_remediation.Config.CommandSpecs.{
  Environment, CommandOverride, CommandSpec, variables, lookup, put, update, upper_names, or_empty,
  merge_environment, override_of, resolve, is_reserved, comparison_name, is_windows, validate_for,
  field, validate_override_environment, validate_environment_names, validate_environments,
}

mem-put :
    (x key value : String) (env : Environment)
    → mem x (variables (put key value env)) ≡ (x == key || mem x (variables env))
unfolding put
mem-put x key value [] = refl
mem-put x key value ((k, v) ∷ env) = ground (arith, eq_iff key k, mem-put x key value env)

mem-update :
    (x : String) (env other : Environment)
    → mem x (variables (update env other)) ≡ (mem x (variables env) || mem x (variables other))
unfolding update
mem-update x env [] = ground arith
mem-update x env ((k, v) ∷ other) =
    ground (arith, mem-update x (put k v env) other, mem-put x k v env)

lookup-put :
    (x key value : String) (env : Environment)
    → lookup x (put key value env) ≡ (if x == key then some value else lookup x env)
unfolding put
lookup-put x key value [] = refl
lookup-put x key value ((k, v) ∷ env) =
    ground (arith, eq_iff key k, eq_iff x k, eq_iff x key, lookup-put x key value env)

abbrev pub or_else : Option String → Option String → Option String
or_else none b = b
or_else (some a) b = some a

or_else-none : (o : Option String) → or_else o none ≡ o
or_else-none none = refl
or_else-none (some a) = refl

lookup-absent :
    (x : String) (env : Environment) → mem x (variables env) ≡ false → lookup x env ≡ none
lookup-absent x [] h = refl
lookup-absent x ((k, v) ∷ env) h = ground (arith, lookup-absent x env)

lookup-update :
    (x : String) (env other : Environment)
    → distinct (variables other) ≡ true
    → lookup x (update env other) ≡ or_else (lookup x other) (lookup x env)
unfolding update
lookup-update x env [] h = refl
lookup-update x env ((k, v) ∷ other) h = ground (
  arith,
  lookup-update x (put k v env) other,
  lookup-put x k v env,
  eq_iff x k,
  lookup-absent x other,
)

-- A name with a property that no name of the environment has, as it is compared, is not set.
absent_upper :
    (p : String → Bool) (upper : String → String) (x : String) (env : Environment)
    → p x ≡ true
    → all (λ name. not (p (upper name))) (variables env) ≡ true
    → mem x (variables (upper_names upper env)) ≡ false
absent_upper p upper x [] r h = refl
absent_upper p upper x ((k, v) ∷ env) r h =
    ground (arith, eq_iff x (upper k), absent_upper p upper x env)

absent_plain :
    (p : String → Bool) (x : String) (env : Environment)
    → p x ≡ true
    → all (λ name. not (p name)) (variables env) ≡ true
    → mem x (variables env) ≡ false
absent_plain p x [] r h = refl
absent_plain p x ((k, v) ∷ env) r h = ground (arith, eq_iff x k, absent_plain p x env)

all-append : (p : String → Bool) (xs ys : List String) → all p (xs ++ ys) ≡ (all p xs && all p ys)
all-append p [] ys = refl
all-append p (x ∷ xs) ys = ground (arith, all-append p xs ys)

-- What the validation of one environment says of its variables.
validated :
    (upper : String → String) (literal : Environment) (inherited : List String)
    (platform : PlatformName)
    → validate_environment_names upper literal inherited platform ≡ true
    → all
        (λ name. not (is_reserved platform (comparison_name upper platform name)))
        (variables literal)
      ≡ true
unfolding validate_environment_names
validated upper literal inherited platform h = ground (
  arith,
  all-append (λ name. not (is_reserved platform (comparison_name upper platform name)))
      (variables literal) inherited,
)

merge_environment-reserved :
    (upper : String → String) (common : Environment) (override : Option Environment)
    (platform : PlatformName) (x : String)
    → is_reserved platform x ≡ true
    → all
        (λ name. not (is_reserved platform (comparison_name upper platform name)))
        (variables common)
      ≡ true
    → all
        (λ name. not (is_reserved platform (comparison_name upper platform name)))
        (variables (or_empty override))
      ≡ true
    → mem x (variables (merge_environment upper common override platform)) ≡ false
unfolding merge_environment
merge_environment-reserved upper common override PlatformName.windows x r c o = ground (
  arith,
  mem-update x (update [] (upper_names upper common)) (upper_names upper (or_empty override)),
  mem-update x [] (upper_names upper common),
  absent_upper (is_reserved PlatformName.windows) upper x common r c,
  absent_upper (is_reserved PlatformName.windows) upper x (or_empty override) r o,
)
merge_environment-reserved upper common override PlatformName.linux x r c o = ground (
  arith,
  mem-update x common (or_empty override),
  absent_plain (is_reserved PlatformName.linux) x common r c,
  absent_plain (is_reserved PlatformName.linux) x (or_empty override) r o,
)
merge_environment-reserved upper common override PlatformName.macos x r c o = ground (
  arith,
  mem-update x common (or_empty override),
  absent_plain (is_reserved PlatformName.macos) x common r c,
  absent_plain (is_reserved PlatformName.macos) x (or_empty override) r o,
)

validate_environments-for :
    (upper : String → String) (spec : CommandSpec) (platform : PlatformName)
    → validate_environments upper spec ≡ true
    → validate_for upper spec platform ≡ true
unfolding validate_environments
validate_environments-for upper spec PlatformName.windows h = ground arith
validate_environments-for upper spec PlatformName.linux h = ground arith
validate_environments-for upper spec PlatformName.macos h = ground arith

override_validated :
    (upper : String → String) (platform : PlatformName) (o : Option CommandOverride)
    → validate_override_environment upper o platform ≡ true
    → all
        (λ name. not (is_reserved platform (comparison_name upper platform name)))
        (variables (or_empty (field (λ c. c.environment) o)))
      ≡ true
override_validated upper platform none h = refl
override_validated upper platform (some c) h =
    validated upper (or_empty c.environment) (or_empty c.inherit_environment) platform h

-- The environment that a command with validated environments resolves to on a platform sets no
-- name that is reserved on that platform.
pub resolve-reserved :
    (upper : String → String) (spec : CommandSpec) (platform : PlatformName) (x : String)
    → validate_environments upper spec ≡ true
    → is_reserved platform x ≡ true
    → mem x (variables (resolve upper spec platform).environment) ≡ false
unfolding resolve
resolve-reserved upper spec platform x h r =
    let v = validate_environments-for upper spec platform h in
    merge_environment-reserved upper spec.environment
      (field (λ c. c.environment) (override_of spec platform)) platform x r
      (validated upper spec.environment spec.inherit_environment platform (ground arith))
      (override_validated upper platform (override_of spec platform) (ground arith))

-- The variables as the platform names them.
abbrev pub named : (String → String) → PlatformName → Environment → Environment
named upper platform env = if is_windows platform then upper_names upper env else env

-- Where no variable stands twice in the common environment or in the override, as the platform
-- names them, a merged variable has the value of the override, and where that has none, the common
-- one.
pub merge_environment-lookup :
    (upper : String → String) (common : Environment) (override : Option Environment)
    (platform : PlatformName) (x : String)
    → distinct (variables (named upper platform common)) ≡ true
    → distinct (variables (named upper platform (or_empty override))) ≡ true
    → lookup x (merge_environment upper common override platform)
      ≡ or_else
          (lookup x (named upper platform (or_empty override)))
          (lookup x (named upper platform common))
unfolding merge_environment
merge_environment-lookup upper common override PlatformName.linux x c o =
    lookup-update x common (or_empty override) o
merge_environment-lookup upper common override PlatformName.macos x c o =
    lookup-update x common (or_empty override) o
merge_environment-lookup upper common override PlatformName.windows x c o =
    lookup-update x (update [] (upper_names upper common)) (upper_names upper (or_empty override)) o
    ∙ cc (
      lookup-update x [] (upper_names upper common) c,
      or_else-none (lookup x (upper_names upper common)),
    )
