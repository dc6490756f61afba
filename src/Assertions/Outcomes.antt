-- ===== src/Assertions/Outcomes.antt =====
-- release-gate/src/release_gate/assertions.py: how the outcomes of an assertion are related.
use blindspot_remediation.Prelude.{Option, none, some, ◌≡◌, refl, arith}
use blindspot_remediation.Config.{Assertion, AssertionOperator, Scalar}
use blindspot_remediation.Assertions.{AssertionState}
use blindspot_remediation.Assertions.Pointers.{Digits}
use blindspot_remediation.Assertions.Evaluation.{
  Numbers, Reports, as_scalar, actual_value, compare_scalars, judged_scalar, evaluate_assertion,
}

-- The state of the opposite assertion.
abbrev pub opposite : AssertionState → AssertionState
opposite AssertionState.pass = AssertionState.fail
opposite AssertionState.fail = AssertionState.pass
opposite AssertionState.error = AssertionState.error

module _ {N : Type 0} where
  abbrev pub with_operator : AssertionOperator → Assertion N → Assertion N
  with_operator operator a = record a { operator = operator }

  judged_scalar-opposite :
      (digits : Digits) (numbers : Numbers N) (a : Assertion N) (o : Option (Scalar N))
      → (judged_scalar digits numbers (with_operator AssertionOperator.ne a) o).state
        ≡ opposite (judged_scalar digits numbers (with_operator AssertionOperator.eq a) o).state
  unfolding compare_scalars
  judged_scalar-opposite digits numbers a none = refl
  judged_scalar-opposite digits numbers a (some s) = ground arith

  -- An assertion with the operator `ne` fails where the one with `eq` passes, passes where that
  -- fails, and is an error where that is one.
  pub evaluate_assertion-opposite :
      (digits : Digits) (numbers : Numbers N) (a : Assertion N) (candidate : Reports N)
      (baseline : Option (Reports N))
      → (evaluate_assertion digits numbers
          (with_operator AssertionOperator.ne a)
          candidate
          baseline).state
        ≡ opposite
            (evaluate_assertion digits numbers
              (with_operator AssertionOperator.eq a)
              candidate
              baseline).state
  unfolding evaluate_assertion
  evaluate_assertion-opposite digits numbers a candidate baseline =
      judged_scalar-opposite digits numbers a
        (as_scalar digits numbers (actual_value digits numbers a candidate baseline))
