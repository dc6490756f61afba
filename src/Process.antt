-- ===== src/Process.antt =====
-- release-gate/src/release_gate/process.py: what a command's run comes to.
pub mod ExitCodes
pub mod Tests
use blindspot_remediation.Prelude.{ℤ, String, List, [], ◌∷◌, has, is_negative, if◌then◌else◌}
use blindspot_remediation.Config.{ExitClasses}

pub data ExecutionClass : Type 0 where
  pass fail error skipped : ExecutionClass

pub record ExecutionResult : Type 0 where
  pub classification : ExecutionClass
  pub reason_codes : List String

unfoldable pub classify_exit : ℤ → ExitClasses → ExecutionClass × List String
classify_exit exit_code classes =
    if is_negative exit_code
    then (ExecutionClass.error, "COMMAND_SIGNALLED" ∷ [])
    else if has exit_code classes.passed
    then (ExecutionClass.pass, [])
    else if has exit_code classes.fail
    then (ExecutionClass.fail, "COMMAND_FAILED" ∷ [])
    else if has exit_code classes.error
    then (ExecutionClass.error, "COMMAND_EXIT_ERROR" ∷ [])
    else (ExecutionClass.error, "COMMAND_EXIT_UNCLASSIFIED" ∷ [])
