-- ===== src/Engine/Tests.antt =====
-- A sample gate run of one step and two checks, and the instances of the theorems on it.
use blindspot_remediation.Prelude.{
  ℕ, ◌+◌, String, Bool, true, false, not, none, some, List, [], ◌∷◌, is_empty, leb, nat_beq, ◌≡◌,
  ◌↔◌, refl, sorted_set, place, from_keys, pos, ◌-◌, if◌then◌else◌,
}
use blindspot_remediation.Config.{PlatformName, CheckMode, Severity, Scope}
use blindspot_remediation.Config.CommandSpecs.{CommandSpec}
use blindspot_remediation.Process.{ExecutionClass}
use blindspot_remediation.Policy.{Verdict, Matcher, evaluate_scope}
use blindspot_remediation.Assertions.Evaluation.{Numbers}
use blindspot_remediation.Engine.Records.{
  Phase, Side, PrepareStep, CheckControl, GateConfig, Execution, sides_of,
}
use blindspot_remediation.Engine.Schedule.{Runner, prepare_from, run_preparation, run_checks}
use blindspot_remediation.Engine.Gate.{Capture, run_captured_gate}
use blindspot_remediation.Engine.Slots.{slots, check_slots, run_checks-slots}
use blindspot_remediation.Engine.Decisions.{
  start_of, step_slots, run_captured_gate-passed, prepare_from-gap,
}
use blindspot_remediation.Engine.Codes.{any_keeps}
use blindspot_remediation.Engine.Unpopped.{Unpopped, at_baseline, run_checks-Unpopped}

abbrev command : CommandSpec
command = record {
  argv = "pytest" ∷ [];
  cwd = ".";
  timeout = 600;
  environment = [];
  inherit_environment = [];
  exit_classes = record { passed = pos 0 ∷ []; fail = pos 1 ∷ []; error = [] };
  platform = none;
}

abbrev unit : CheckControl ℕ
unit = record {
  check = record {
    id = "unit";
    mode = CheckMode.differential;
    severity = Severity.blocking;
    reports = [];
    assertions = [];
  };
  command = command;
}

abbrev lint : CheckControl ℕ
lint = record {
  check = record {
    id = "lint";
    mode = CheckMode.candidate;
    severity = Severity.blocking;
    reports = [];
    assertions = [];
  };
  command = command;
}

abbrev setup : PrepareStep
setup = record { id = "setup"; command = command }

abbrev config : GateConfig ℕ
config = record { prepare = setup ∷ []; checks = unit ∷ lint ∷ [] }

-- An execution of the given class; the errors of its reports are an entry of its record.
abbrev executed : String → Phase → ExecutionClass → Bool → List String → Side → Execution ℕ
executed control_id phase classification exhausted errors side = record {
  entry = record {
    control_id = control_id;
    phase = phase;
    side = side;
    argv = "pytest" ∷ [];
    cwd = ".";
    environment_keys = [];
    started_at = 0;
    finished_at = 1;
    duration_ms = 0;
    classification = classification;
    exit_code = none;
    timed_out = false;
    reason_codes = [];
    metrics = [];
    check_reason_codes = errors;
  };
  result = record { classification = classification; reason_codes = [] };
  reports = [];
  budget_exhausted = exhausted;
}

abbrev naturals : Numbers ℕ
naturals = record {
  minus = λ a b. if leb b a then some (a - b) else none;
  is_finite = λ n. true;
  eq = nat_beq;
  gt = λ a b. not (leb a b);
  gte = λ a b. leb b a;
  lt = λ a b. not (leb b a);
  lte = leb;
}

-- Every control passes; the world is the clock.
abbrev passing : Runner ℕ ℕ
passing = record {
  execute_step =
      λ step side w. (executed step.id Phase.prepare ExecutionClass.pass false [] side, w + 1);
  execute_check = λ control side w.
      (executed control.check.id Phase.check ExecutionClass.pass false [] side, w + 1);
  now = λ w. (w, w + 1);
  upper = λ s. s;
  digits = record { isdigit = λ s. false; int = λ s. none };
  numbers = naturals;
  family = PlatformName.linux;
}

-- Every preparation fails, and every check exhausts the budget at one of its reports.
abbrev failing : Runner ℕ ℕ
failing = record passing {
  execute_step =
      λ step side w. (executed step.id Phase.prepare ExecutionClass.fail false [] side, w + 1);
  execute_check = λ control side w. (
    executed control.check.id Phase.check ExecutionClass.error true
        ("EVIDENCE_BUDGET_EXHAUSTED" ∷ []) side,
    w + 1,
  );
}

abbrev anywhere : Matcher
anywhere lines path = not (is_empty lines)

abbrev open_scope : Scope
open_scope = record { allowed_paths = "**" ∷ []; forbidden_paths = []; review_required_paths = [] }

abbrev capture : Capture
capture = record {
  changed_paths = "src/main.py" ∷ [];
  policy_changed = false;
  launcher_changed = false;
}

exits_with_zero : (run_captured_gate passing anywhere open_scope config capture 0 0).1 ≡ 0
unfolding run_captured_gate sorted_set place from_keys
exits_with_zero = refl

run_captured_gate-passed_example :
    ((evaluate_scope anywhere open_scope capture.changed_paths).verdict ≡ Verdict.pass)
    × (capture.policy_changed ≡ false)
    × (capture.launcher_changed ≡ false)
    × ((run_preparation passing config (start_of passing config 0)).0 ≡ [])
run_captured_gate-passed_example =
    run_captured_gate-passed passing config anywhere open_scope capture 0 0 exits_with_zero

run_checks-slots_example :
    slots (run_checks failing config.checks (start_of failing config 0)).1.records
    ≡ check_slots config.checks
run_checks-slots_example =
    run_checks-slots failing (λ control side w. refl) config.checks (start_of failing config 0)

prepare_from-gap_example :
    slots
      (prepare_from failing
        (sides_of true)
        (setup ∷ setup ∷ [])
        (start_of failing config 0)).1.records
    ≡ ("setup", (Phase.prepare, Side.base)) ∷ step_slots failing (sides_of true) (setup ∷ [])
prepare_from-gap_example =
    prepare_from-gap failing setup (setup ∷ []) (start_of failing config 0) refl

run_checks-Unpopped_example :
    (any_keeps
        (run_checks failing (unit ∷ lint ∷ []) (record { records = []; world = 0 })).1.records
      ≡ true)
    ↔ Unpopped failing (unit ∷ lint ∷ []) 0
run_checks-Unpopped_example = run_checks-Unpopped failing (unit ∷ lint ∷ []) 0

comes_to_baseline : Unpopped failing (unit ∷ lint ∷ []) 0
comes_to_baseline = at_baseline refl refl refl

leaves_codes :
    any_keeps (run_checks failing (unit ∷ lint ∷ []) (record { records = []; world = 0 })).1.records
    ≡ true
unfolding run_checks
leaves_codes = refl
