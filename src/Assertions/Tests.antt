-- ===== src/Assertions/Tests.antt =====
-- Runs of the assertions on natural numbers.
use blindspot_remediation.Prelude.{
  ℕ, true, false, not, none, some, [], ◌∷◌, leb, nat_beq, has_prefix, ◌-◌, if◌then◌else◌, ◌≡◌, refl,
}
use blindspot_remediation.Config.{Assertion, AssertionOperator, Comparison, number, text}
use blindspot_remediation.Assertions.{AssertionState}
use blindspot_remediation.Assertions.Pointers.{
  Members, scalar, dict, member, no_member, Digits, resolve_pointer,
}
use blindspot_remediation.Assertions.Evaluation.{Numbers, Reports, evaluate_assertion}
use blindspot_remediation.Assertions.Escapes.{escape, resolve_pointer-escape}

abbrev no_digits : Digits
no_digits = record { isdigit = λ s. false; int = λ s. none }

abbrev naturals : Numbers ℕ
naturals = record {
  minus = λ a b. if leb b a then some (a - b) else none;
  is_finite = λ n. true;
  eq = nat_beq;
  gt = λ a b. not (leb a b);
  gte = λ a b. leb b a;
  lt = λ a b. not (leb b a);
  lte = leb;
}

abbrev coverage : Members ℕ
coverage = member "a/b" (scalar (number 80)) (member "name" (scalar (text "unit")) no_member)

abbrev reports : Reports ℕ
reports = ("coverage", some (dict coverage)) ∷ []

abbrev at_least : Assertion ℕ
at_least = record {
  report = "coverage";
  metric = "/a~1b";
  comparison = Comparison.candidate;
  operator = AssertionOperator.gte;
  value = number 75;
}

passes_at_80 :
    (evaluate_assertion no_digits naturals at_least reports none).state ≡ AssertionState.pass
unfolding evaluate_assertion resolve_pointer has_prefix
passes_at_80 = refl

resolve_pointer-escape_example :
    resolve_pointer no_digits (dict coverage) "/a~1b" ≡ some (scalar (number 80))
unfolding escape
resolve_pointer-escape_example = resolve_pointer-escape no_digits "a/b" coverage
