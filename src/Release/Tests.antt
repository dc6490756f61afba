-- ===== src/Release/Tests.antt =====
-- The policy of the service on a few controls, and the instances of the theorems on them.
use blindspot_remediation.Prelude.{
  ℕ, String, true, false, some, [], ◌∷◌, ltb, leb, nat_beq, ◌≡◌, refl,
}
use blindspot_remediation.Release.Models.{
  pass, fail, human_review_required, failed, error, advisory, mandatory, ControlResult,
  greater_than_or_equal, missing_more_evidence, MetricThreshold, ReleasePolicy,
}
use blindspot_remediation.Release.Engine.{
  PolicyDecision, Floats, Reason, dominant_failed, mandatory_failed, advisory_failed, warned,
  inconclusive, unavailable, violated, all_passed, contradiction, precedence, decide,
}
use blindspot_remediation.Release.Engine.Ranks.{
  larger, controls_rank, thresholds_rank, decide-worst,
}
use blindspot_remediation.Release.Contract.{validate_gate_outcome}
use blindspot_remediation.Release.Contract.Validity.{
  validate_gate_outcome-decide, validate_gate_outcome-unflagged,
}
use blindspot_remediation.Release.Contract.Contradictions.{decide-contradictions}

-- Whole percentages stand for floats.
abbrev message : Reason ℕ → String
message (dominant_failed id) = "dominant"
message (mandatory_failed id) = "mandatory"
message (advisory_failed id) = "advisory"
message (warned id) = "warning"
message (inconclusive id) = "inconclusive"
message (unavailable threshold) = "unavailable"
message (violated threshold actual) = "violated"
message all_passed = "passed"
message (contradiction id reason) = reason

abbrev percent : Floats ℕ
percent = record {
  isfinite = λ x. true;
  less = ltb;
  less_eq = leb;
  isclose = nat_beq;
  casefold = λ text. text;
  message = message;
}

abbrev coverage : MetricThreshold ℕ
coverage = record {
  threshold_id = "coverage";
  metric = "tests.coverage";
  operator = greater_than_or_equal;
  expected_value = 80;
  failure_decision = human_review_required;
  missing_metric_action = missing_more_evidence;
  description = "Coverage.";
}

abbrev policy : ReleasePolicy ℕ
policy = record {
  fail_on_mandatory_control_failure = true;
  fail_on_dominant_failure = true;
  human_review_on_advisory_failure = true;
  human_review_on_warning = true;
  more_evidence_on_skipped_mandatory_control = true;
  metric_thresholds = coverage ∷ [];
}

abbrev broken : ControlResult
broken = record {
  control_id = "compile";
  status = error;
  severity = mandatory;
  reasons = "reports contradict each other" ∷ [];
}

abbrev noisy : ControlResult
noisy = record { control_id = "lint"; status = failed; severity = advisory; reasons = [] }

abbrev failing : PolicyDecision
failing = record {
  decision = fail;
  reasons = "mandatory" ∷ [];
  unmet_obligations = "unavailable" ∷ [];
  contradictions = [];
}

fails : decide percent (noisy ∷ broken ∷ []) [] policy ≡ some failing
unfolding decide
fails = refl

abbrev reviewed : PolicyDecision
reviewed = record {
  decision = human_review_required;
  reasons = "advisory" ∷ "violated" ∷ [];
  unmet_obligations = [];
  contradictions = [];
}

reviews : decide percent (noisy ∷ []) (("tests.coverage", 79) ∷ []) policy ≡ some reviewed
unfolding decide
reviews = refl

decide-worst_example :
    precedence fail
    ≡ larger
        (controls_rank policy (noisy ∷ broken ∷ []))
        (thresholds_rank percent [] (coverage ∷ []))
decide-worst_example = decide-worst percent (noisy ∷ broken ∷ []) [] policy failing fails

validate_gate_outcome-decide_example :
    validate_gate_outcome fail (noisy ∷ broken ∷ []) ("unavailable" ∷ []) [] ≡ true
validate_gate_outcome-decide_example =
    validate_gate_outcome-decide percent policy refl refl (noisy ∷ broken ∷ []) [] failing refl
      fails

decide-contradictions_example : failing.contradictions ≡ []
decide-contradictions_example =
    decide-contradictions percent (noisy ∷ broken ∷ []) [] policy failing refl refl refl fails

abbrev lenient : ReleasePolicy ℕ
lenient = record policy { fail_on_mandatory_control_failure = false; metric_thresholds = [] }

abbrev stalled : ControlResult
stalled = record broken { status = failed }

abbrev passing : PolicyDecision
passing = record {
  decision = pass;
  reasons = "passed" ∷ [];
  unmet_obligations = [];
  contradictions = [];
}

passes : decide percent (stalled ∷ []) [] lenient ≡ some passing
unfolding decide
passes = refl

validate_gate_outcome-unflagged_example : validate_gate_outcome pass (stalled ∷ []) [] [] ≡ false
validate_gate_outcome-unflagged_example =
    validate_gate_outcome-unflagged percent (stalled ∷ []) [] lenient passing passes refl refl refl
