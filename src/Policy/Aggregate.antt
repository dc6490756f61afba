-- ===== src/Policy/Aggregate.antt =====
-- release-gate/src/release_gate/policy.py: `aggregate_verdict` and the reasons found before any check.
use blindspot_remediation.Prelude.{
  String, Bool, true, false, not, ◌||◌, List, [], ◌∷◌, ◌++◌, is_empty, sorted_set, if◌then◌else◌,
}
use blindspot_remediation.Config.{Severity}
use blindspot_remediation.Policy.{
  Verdict, CheckStatus, ScopeOutcome, CheckOutcome, GateDecision, reason_if, verdict_reasons,
}

-- The three locals of the loop of `aggregate_verdict`.
pub record Tally : Type 0 where
  pub needs_human : Bool
  pub failed : Bool
  pub contributing : List String

abbrev is_needs_human : Verdict → Bool
is_needs_human Verdict.needs_human = true
is_needs_human _ = false

abbrev is_fail_verdict : Verdict → Bool
is_fail_verdict Verdict.fail = true
is_fail_verdict _ = false

abbrev review : List String → Tally → Tally
review reasons t = record t {
  needs_human = true;
  contributing = t.contributing ++ verdict_reasons reasons;
}

abbrev block : List String → Tally → Tally
block reasons t = record t {
  failed = true;
  contributing = t.contributing ++ verdict_reasons reasons;
}

-- The body of the loop: the branches on the status and the severity of one outcome.
unfoldable pub absorb : CheckStatus → Severity → List String → Tally → Tally
absorb CheckStatus.error severity reasons t = review reasons t
absorb CheckStatus.skipped severity reasons t = review reasons t
absorb CheckStatus.fail Severity.advisory reasons t = review reasons t
absorb CheckStatus.fail Severity.blocking reasons t = block reasons t
absorb CheckStatus.fail Severity.informational reasons t = t
absorb CheckStatus.pass severity reasons t = t

unfoldable pub decide_tally : Tally → GateDecision
decide_tally t =
    if t.needs_human
    then record { verdict = Verdict.needs_human; reason_codes = sorted_set t.contributing }
    else if t.failed
    then record { verdict = Verdict.fail; reason_codes = sorted_set t.contributing }
    else record { verdict = Verdict.pass; reason_codes = sorted_set [] }

-- The locals before the loop.
abbrev pub opening : ScopeOutcome → List String → Tally
opening scope run_reasons = record {
  needs_human = is_needs_human scope.verdict || not (is_empty run_reasons);
  failed = is_fail_verdict scope.verdict;
  contributing = scope.reason_codes ++ run_reasons;
}

module _ {N : Type 0} where
  unfoldable pub absorb_all : List (CheckOutcome N) → Tally → Tally
  unfolding absorb
  absorb_all [] t = t
  absorb_all (c ∷ checks) t = absorb_all checks (absorb c.status c.severity c.reason_codes t)

  unfoldable pub aggregate_verdict :
      ScopeOutcome → List (CheckOutcome N) → List String → GateDecision
  unfolding absorb_all decide_tally
  aggregate_verdict scope checks run_reasons =
      decide_tally (absorb_all checks (opening scope run_reasons))

unfoldable pub preflight_reasons : Bool → Bool → List String
preflight_reasons policy_changed launcher_changed = sorted_set (
    reason_if launcher_changed "CONTROL_LAUNCHER_REVIEW"
    ++ reason_if policy_changed "POLICY_FILE_CHANGED")
