-- ===== src/Config/Tests.antt =====
-- Runs of `CommandSpec.resolve`, with one lower-case name that `upper` knows.
use blindspot_remediation.Prelude.{String, none, some, [], ◌∷◌, ◌==◌, if◌then◌else◌, pos}
use blindspot_remediation.Config.CommandSpecs.{CommandSpec}

abbrev upper : String → String
upper name = if name == "path" then "PATH" else name

abbrev spec : CommandSpec
spec = record {
  argv = "pytest" ∷ [];
  cwd = ".";
  timeout = 600;
  environment = ("path", "/bin") ∷ (("CI", "1") ∷ []);
  inherit_environment = "LANG" ∷ [];
  exit_classes = record { passed = pos 0 ∷ []; fail = pos 1 ∷ []; error = [] };
  platform = some (record {
    linux = none;
    macos = none;
    windows = some (record {
      argv = some ("py" ∷ []);
      cwd = none;
      timeout = none;
      environment = some (("PATH", "C:") ∷ []);
      inherit_environment = none;
      exit_classes = none;
    });
  });
}
