-- ===== src/Engine/Records.antt =====
-- release-gate/src/release_gate/engine.py: the execution records of a manifest. A time is a number of
-- microseconds.
use blindspot_remediation.Prelude.{
  ℕ, ℤ, String, Bool, true, false, Option, none, List, [], ◌∷◌, ◌++◌, any, sorted_set,
  if◌then◌else◌,
}
use blindspot_remediation.Config.{PlatformName, CheckMode, Check, Scalar}
use blindspot_remediation.Config.CommandSpecs.{
  CommandSpec, ResolvedCommand, resolve, is_windows, variables,
}
use blindspot_remediation.Process.{ExecutionClass, ExecutionResult}
use blindspot_remediation.Assertions.Evaluation.{Reports}

pub data Phase : Type 0 where
  prepare check : Phase

pub data Side : Type 0 where
  base candidate : Side

pub record PrepareStep : Type 0 where
  pub id : String
  pub command : CommandSpec

-- A `Check` with its `CommandSpec`.
pub record CheckControl (N : Type 0) : Type 0 where
  pub check : Check N
  pub command : CommandSpec

pub record GateConfig (N : Type 0) : Type 0 where
  pub prepare : List PrepareStep
  pub checks : List (CheckControl N)

-- A record; `check_reason_codes` is the entry that is there where the list is not empty.
pub record ExecutionRecord (N : Type 0) : Type 0 where
  pub control_id : String
  pub phase : Phase
  pub side : Side
  pub argv : List String
  pub cwd : String
  pub environment_keys : List String
  pub started_at : ℕ
  pub finished_at : ℕ
  pub duration_ms : ℕ
  pub classification : ExecutionClass
  pub exit_code : Option ℤ
  pub timed_out : Bool
  pub reason_codes : List String
  pub metrics : List (String × Scalar N)
  pub check_reason_codes : List String

-- `_Execution`
pub record Execution (N : Type 0) : Type 0 where
  pub entry : ExecutionRecord N
  pub result : ExecutionResult
  pub reports : Reports N
  pub budget_exhausted : Bool

-- `_environment_names`
unfoldable pub environment_names : ResolvedCommand → PlatformName → List String
environment_names command family = sorted_set (
    variables command.environment
    ++ (command.inherit_environment
        ++ "HOME"
          ∷ (if is_windows family
              then "USERPROFILE" ∷ "HOMEDRIVE" ∷ "HOMEPATH" ∷ "TEMP" ∷ "TMP" ∷ []
              else "TMPDIR" ∷ [])))

abbrev pub is_differential : CheckMode → Bool
is_differential CheckMode.differential = true
is_differential CheckMode.candidate = false

-- The sides of a check, or of the preparation where a base workspace is required.
abbrev pub sides_of : Bool → List Side
sides_of true = Side.base ∷ Side.candidate ∷ []
sides_of false = Side.candidate ∷ []

-- `_skipped_record`
unfoldable pub skipped_record :
    {N : Type 0}
    → String
    → Phase
    → Side
    → ResolvedCommand
    → List String
    → ℕ
    → PlatformName
    → ExecutionRecord N
unfolding environment_names
skipped_record control_id phase side command reasons now family = record {
  control_id = control_id;
  phase = phase;
  side = side;
  argv = command.argv;
  cwd = command.cwd;
  environment_keys = environment_names command family;
  started_at = now;
  finished_at = now;
  duration_ms = 0;
  classification = ExecutionClass.skipped;
  exit_code = none;
  timed_out = false;
  reason_codes = reasons;
  metrics = [];
  check_reason_codes = [];
}

-- `GateConfig.requires_base_workspace`
abbrev pub requires_base_workspace : {N : Type 0} → GateConfig N → Bool
requires_base_workspace config = any (λ c. is_differential c.check.mode) config.checks

-- Python's `str.upper`, the platform and the time of a skip.
module _ {N : Type 0} (upper : String → String) (family : PlatformName) (reasons : List String)
    (now : ℕ) where
  abbrev pub skip_step : List Side → PrepareStep → List (ExecutionRecord N)
  skip_step [] step = []
  skip_step (side ∷ sides) step =
      skipped_record step.id Phase.prepare side (resolve upper step.command family) reasons now
        family
      ∷ skip_step sides step

  abbrev pub skip_steps : List Side → List PrepareStep → List (ExecutionRecord N)
  skip_steps sides [] = []
  skip_steps sides (step ∷ steps) = skip_step sides step ++ skip_steps sides steps

  abbrev pub skip_check : List Side → CheckControl N → List (ExecutionRecord N)
  skip_check [] control = []
  skip_check (side ∷ sides) control =
      skipped_record control.check.id Phase.check side (resolve upper control.command family)
        reasons now family
      ∷ skip_check sides control

  -- `_skipped_checks`
  unfoldable pub skipped_checks : List (CheckControl N) → List (ExecutionRecord N)
  unfolding skipped_record
  skipped_checks [] = []
  skipped_checks (control ∷ controls) =
      skip_check (sides_of (is_differential control.check.mode)) control ++ skipped_checks controls

  -- `_skipped_schedule`
  unfoldable pub skipped_schedule : GateConfig N → List (ExecutionRecord N)
  unfolding skipped_checks
  skipped_schedule config =
      skip_steps (sides_of (requires_base_workspace config)) config.prepare
      ++ skipped_checks config.checks
