-- ===== src/Process/ExitCodes.antt =====
-- `classify_exit` on exit classes that were validated.
use blindspot_remediation.Prelude.{
  ℤ, true, false, List, [], ◌∷◌, any, has, is_negative, int_beq-eq, ◌≡◌, ◌↔◌, arith,
}
use blindspot_remediation.Config.{ExitClasses, overlaps, validate_classes}
use blindspot_remediation.Process.{ExecutionClass, classify_exit}

-- An element of a list that meets no element of another is not in that one.
disjoint : (i : ℤ) (xs ys : List ℤ) → overlaps xs ys ≡ false → has i xs ≡ true → has i ys ≡ false
disjoint i [] ys h m = ground arith
disjoint i (x ∷ xs) ys h m = ground (arith, int_beq-eq i x, disjoint i xs ys)

never_negative :
    (i : ℤ) (xs : List ℤ) → any is_negative xs ≡ false → has i xs ≡ true → is_negative i ≡ false
never_negative i [] h m = ground arith
never_negative i (x ∷ xs) h m = ground (arith, int_beq-eq i x, never_negative i xs)

-- Under exit classes that pass validation, a command passes exactly on a pass code and fails
-- exactly on a fail code.
pub classify_exit-class :
    (i : ℤ) (classes : ExitClasses)
    → validate_classes classes ≡ true
    → (((classify_exit i classes).0 ≡ ExecutionClass.pass) ↔ (has i classes.passed ≡ true))
      × (((classify_exit i classes).0 ≡ ExecutionClass.fail) ↔ (has i classes.fail ≡ true))
unfolding classify_exit validate_classes
classify_exit-class i classes h = ground (
  arith,
  disjoint i classes.passed classes.fail,
  never_negative i classes.passed,
  never_negative i classes.fail,
)
