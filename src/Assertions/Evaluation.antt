-- ===== src/Assertions/Evaluation.antt =====
-- release-gate/src/release_gate/assertions.py: `evaluate_assertion`. `none` stands for the exceptions
-- that it catches.
use blindspot_remediation.Prelude.{
  String, Bool, true, false, not, Option, none, some, List, [], ◌∷◌, if◌then◌else◌, ◌==◌,
}
use blindspot_remediation.Config.{
  Assertion, AssertionOperator, Comparison, Scalar, number, text, boolean, null,
}
use blindspot_remediation.Assertions.{AssertionState, AssertionOutcome}
use blindspot_remediation.Assertions.Pointers.{
  Json, dict, sequence, scalar, Digits, resolve_pointer,
}

-- Python's numbers: the difference, which is `none` where it raises; `math.isfinite(float(x))`, which
-- is false where it raises; and the comparisons.
pub record Numbers (N : Type 0) : Type 0 where
  pub minus : N → N → Option N
  pub is_finite : N → Bool
  pub eq : N → N → Bool
  pub gt : N → N → Bool
  pub gte : N → N → Bool
  pub lt : N → N → Bool
  pub lte : N → N → Bool

-- A dict of the reports of a run by their names; `none` is a report that is unavailable.
abbrev pub Reports : Type 0 → Type 0
Reports N = List (String × Option (Json N))

abbrev pub find_report : {N : Type 0} → String → Reports N → Option (Json N)
find_report name [] = none
find_report name ((k, report) ∷ reports) = if name == k then report else find_report name reports

module _ {N : Type 0} (digits : Digits) (numbers : Numbers N) where
  -- `_metric`
  unfoldable pub metric : Assertion N → Reports N → Option (Json N)
  unfolding resolve_pointer
  metric assertion values = elim (find_report assertion.report values) [
    | none ↦ none
    | some report ↦ resolve_pointer digits report assertion.metric
  ]

  abbrev finite : Option N → Option (Json N)
  finite none = none
  finite (some n) = if numbers.is_finite n then some (scalar (number n)) else none

  -- `_subtract`
  abbrev subtract : Json N → Json N → Option (Json N)
  subtract (scalar (number a)) (scalar (number b)) = finite (numbers.minus a b)
  subtract _ _ = none

  -- `_as_scalar`
  abbrev pub as_scalar : Option (Json N) → Option (Scalar N)
  as_scalar none = none
  as_scalar (some (scalar (number n))) = if numbers.is_finite n then some (number n) else none
  as_scalar (some (scalar (text s))) = some (text s)
  as_scalar (some (scalar (boolean b))) = some (boolean b)
  as_scalar (some (scalar null)) = some null
  as_scalar (some (dict members)) = none
  as_scalar (some (sequence elements)) = none

  abbrev compare_numbers : AssertionOperator → N → N → Bool
  compare_numbers AssertionOperator.eq a b = numbers.eq a b
  compare_numbers AssertionOperator.ne a b = not (numbers.eq a b)
  compare_numbers AssertionOperator.gt a b = numbers.gt a b
  compare_numbers AssertionOperator.gte a b = numbers.gte a b
  compare_numbers AssertionOperator.lt a b = numbers.lt a b
  compare_numbers AssertionOperator.lte a b = numbers.lte a b

  -- What an operator makes of the equality of two values that are no numbers.
  abbrev compare_other : AssertionOperator → Bool → Option Bool
  compare_other AssertionOperator.eq same = some same
  compare_other AssertionOperator.ne same = some (not same)
  compare_other _ same = none

  abbrev same_bool : Bool → Bool → Bool
  same_bool true b = b
  same_bool false b = not b

  -- `_compare`
  unfoldable pub compare_scalars : AssertionOperator → Scalar N → Scalar N → Option Bool
  compare_scalars operator (number a) (number b) = some (compare_numbers operator a b)
  compare_scalars operator (text a) (text b) = compare_other operator (a == b)
  compare_scalars operator (boolean a) (boolean b) = compare_other operator (same_bool a b)
  compare_scalars operator null null = compare_other operator true
  compare_scalars operator _ _ = none

  -- The value that the assertion is about.
  unfoldable pub actual_value : Assertion N → Reports N → Option (Reports N) → Option (Json N)
  unfolding metric
  actual_value assertion candidate baseline = elim (metric assertion candidate) [
    | none ↦ none
    | some value ↦ elim assertion.comparison [
      | Comparison.candidate ↦ some value
      | Comparison.baseline ↦ elim baseline [
        | none ↦ none
        | some reports ↦ metric assertion reports
      ]
      | Comparison.candidate_minus_baseline ↦ elim baseline [
        | none ↦ none
        | some reports ↦ elim (metric assertion reports) [
          | none ↦ none
          | some base ↦ subtract value base
        ]
      ]
    ]
  ]

  abbrev operand_error : AssertionOutcome N
  operand_error = record {
    state = AssertionState.error;
    actual = null;
    reason_codes = "ASSERTION_OPERAND_ERROR" ∷ [];
  }

  -- The outcome on a scalar, once it was compared.
  abbrev concluded : Scalar N → Option Bool → AssertionOutcome N
  concluded actual none = operand_error
  concluded actual (some true) = record {
    state = AssertionState.pass;
    actual = actual;
    reason_codes = [];
  }
  concluded actual (some false) = record {
    state = AssertionState.fail;
    actual = actual;
    reason_codes = "ASSERTION_FAILED" ∷ [];
  }

  abbrev pub judged_scalar : Assertion N → Option (Scalar N) → AssertionOutcome N
  judged_scalar assertion none = operand_error
  judged_scalar assertion (some actual) =
      concluded actual (compare_scalars assertion.operator actual assertion.value)

  unfoldable pub evaluate_assertion :
      Assertion N → Reports N → Option (Reports N) → AssertionOutcome N
  unfolding actual_value compare_scalars
  evaluate_assertion assertion candidate baseline =
      judged_scalar assertion (as_scalar (actual_value assertion candidate baseline))
