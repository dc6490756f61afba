-- ===== src/Process/Tests.antt =====
-- Runs of `classify_exit`.
use blindspot_remediation.Prelude.{pos, negsuc, [], ◌∷◌, ◌≡◌, refl}
use blindspot_remediation.Config.{ExitClasses}
use blindspot_remediation.Process.{classify_exit}

-- The default classes, with an error code.
abbrev classes : ExitClasses
classes = record { passed = pos 0 ∷ []; fail = pos 1 ∷ []; error = pos 2 ∷ (negsuc 8 ∷ []) }

-- A signal is an error, whatever the classes are.
signalled : (classify_exit (negsuc 8) classes).1 ≡ "COMMAND_SIGNALLED" ∷ []
unfolding classify_exit
signalled = refl
