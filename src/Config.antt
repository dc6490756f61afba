-- ===== src/Config.antt =====
-- release-gate/src/release_gate/models.py: the configuration of a gate run.
-- A pydantic model is a record, a `StrEnum` a data type, `X | None` an `Option`, and a dict of
-- environment variables an association list. `N` is the type of Python's numbers, `int | float`.
pub mod CommandSpecs
pub mod Reserved
pub mod Tests
use blindspot_remediation.Prelude.{
  ℕ, ℤ, String, Bool, false, not, ◌&&◌, ◌||◌, Option, List, any, has, is_negative,
}

pub data PlatformName : Type 0 where
  linux macos windows : PlatformName

pub data CheckMode : Type 0 where
  candidate differential : CheckMode

pub data Severity : Type 0 where
  blocking advisory informational : Severity

pub data ReportParser : Type 0 where
  junit_xml coverage_json json_metrics : ReportParser

pub data Comparison : Type 0 where
  candidate baseline candidate_minus_baseline : Comparison

pub data AssertionOperator : Type 0 where
  eq ne gt gte lt lte : AssertionOperator

pub record ExitClasses : Type 0 where
  pub passed : List ℤ
  pub fail : List ℤ
  pub error : List ℤ

-- `xs & ys` is not empty.
abbrev pub overlaps : List ℤ → List ℤ → Bool
overlaps xs ys = any (λ i. has i ys) xs

-- `ExitClasses.validate_classes`: whether it returns; otherwise it raises `ValueError`.
unfoldable pub validate_classes : ExitClasses → Bool
validate_classes classes =
    not (overlaps classes.passed classes.fail || overlaps classes.passed classes.error)
    && (not (overlaps classes.fail classes.error)
        && not (any is_negative classes.passed || any is_negative classes.fail))

-- `float | int | str | bool | None`
pub data Scalar (N : Type 0) : Type 0 where
  number : N → Scalar N
  text : String → Scalar N
  boolean : Bool → Scalar N
  null : Scalar N

pub record Report : Type 0 where
  pub id : String
  pub parser : ReportParser
  pub path : String
  pub required : Bool
  pub max_bytes : Option ℕ

pub record Assertion (N : Type 0) : Type 0 where
  pub report : String
  pub metric : String
  pub comparison : Comparison
  pub operator : AssertionOperator
  pub value : Scalar N

-- The fields of a `Check` beside those of its `CommandSpec`.
pub record Check (N : Type 0) : Type 0 where
  pub id : String
  pub mode : CheckMode
  pub severity : Severity
  pub reports : List Report
  pub assertions : List (Assertion N)

pub record Scope : Type 0 where
  pub allowed_paths : List String
  pub forbidden_paths : List String
  pub review_required_paths : List String
