-- ===== src/Release/Engine.antt =====
-- A3-release-gate-service/src/ai_engineering_release_gate/policy.py: `GatePolicyEngine.decide`.
-- `none` stands for `PolicyEvaluationError`.
pub mod Ranks
use blindspot_remediation.Prelude.{
  ℕ, String, Bool, true, false, not, ◌&&◌, ◌||◌, Option, none, some, List, [], ◌∷◌, ◌++◌, map, keep,
  contains, from_keys, nat_beq, ltb, if◌then◌else◌, ◌==◌,
}
use blindspot_remediation.Release.Models.{
  GateDecision, pass, fail, human_review_required, more_evidence_required, CheckStatus, passed,
  failed, warning, skipped, error, not_applicable, ControlSeverity, informational, advisory,
  mandatory, dominant_failure, ControlResult, ComparisonOperator, greater_than,
  greater_than_or_equal, less_than, less_than_or_equal, equal, not_equal, MissingMetricAction,
  missing_fail, missing_human_review, missing_more_evidence, MetricThreshold, ReleasePolicy,
}

pub record PolicyDecision : Type 0 where
  pub decision : GateDecision
  pub reasons : List String
  pub unmet_obligations : List String
  pub contradictions : List String

-- What the messages are made of; their formatting is Python's.
pub data Reason (F : Type 0) : Type 0 where
  dominant_failed mandatory_failed advisory_failed warned inconclusive : String → Reason F
  unavailable : MetricThreshold F → Reason F
  violated : MetricThreshold F → F → Reason F
  all_passed : Reason F
  contradiction : String → String → Reason F

-- What the policy takes from Python: floats, `math`, `str.casefold` and formatting.
pub record Floats (F : Type 0) : Type 0 where
  pub isfinite : F → Bool
  pub less : F → F → Bool
  pub less_eq : F → F → Bool
  pub isclose : F → F → Bool
  pub casefold : String → String
  pub message : Reason F → String

-- The locals of `decide`.
pub record Locals : Type 0 where
  pub candidate_decisions : List (GateDecision × String)
  pub unmet_obligations : List String
  pub contradictions : List String

abbrev pub is_failed : ControlResult → Bool
is_failed control = elim control.status [ failed ↦ true | error ↦ true | _ ↦ false ]

abbrev pub is_incomplete : ControlResult → Bool
is_incomplete control = elim control.status [ skipped ↦ true | not_applicable ↦ true | _ ↦ false ]

abbrev pub is_error : ControlResult → Bool
is_error control = elim control.status [ error ↦ true | _ ↦ false ]

abbrev pub is_warning : ControlResult → Bool
is_warning control = elim control.status [ warning ↦ true | _ ↦ false ]

abbrev pub is_dominant : ControlResult → Bool
is_dominant control = elim control.severity [ dominant_failure ↦ true | _ ↦ false ]

abbrev pub is_mandatory : ControlResult → Bool
is_mandatory control = elim control.severity [ mandatory ↦ true | _ ↦ false ]

abbrev pub is_advisory : ControlResult → Bool
is_advisory control = elim control.severity [ advisory ↦ true | _ ↦ false ]

-- `_PRECEDENCE`
abbrev pub precedence : GateDecision → ℕ
precedence pass = 0
precedence more_evidence_required = 1
precedence human_review_required = 2
precedence fail = 3

-- `_missing_action_to_decision`
abbrev pub missing_action_to_decision : MissingMetricAction → GateDecision
missing_action_to_decision missing_fail = fail
missing_action_to_decision missing_human_review = human_review_required
missing_action_to_decision missing_more_evidence = more_evidence_required

abbrev pub add_candidate : GateDecision → String → Locals → Locals
add_candidate decision reason l = record l {
  candidate_decisions = l.candidate_decisions ++ (decision, reason) ∷ [];
}

abbrev pub add_unmet : String → Locals → Locals
add_unmet message l = record l { unmet_obligations = l.unmet_obligations ++ message ∷ [] }

-- The first of the greatest, as `max` with the precedence as its key returns it.
unfoldable pub max_decision : GateDecision → List (GateDecision × String) → GateDecision
max_decision best [] = best
max_decision best ((decision, reason) ∷ rest) =
    max_decision (if ltb (precedence best) (precedence decision) then decision else best) rest

-- The reasons of the given precedence.
unfoldable pub reasons_of : ℕ → List (GateDecision × String) → List String
reasons_of rank [] = []
reasons_of rank ((decision, reason) ∷ rest) =
    let others = reasons_of rank rest in
    if nat_beq (precedence decision) rank then reason ∷ others else others

module _ {F : Type 0} (floats : Floats F) where
  open floats use {isfinite, less, less_eq, isclose, casefold, message}

  -- `_compare`
  abbrev pub compare : F → ComparisonOperator → F → Bool
  compare actual greater_than expected = less expected actual
  compare actual greater_than_or_equal expected = less_eq expected actual
  compare actual less_than expected = less actual expected
  compare actual less_than_or_equal expected = less_eq actual expected
  compare actual equal expected = isclose actual expected
  compare actual not_equal expected = not (isclose actual expected)

  -- What a control that was not refused at once adds.
  abbrev pub add_advisory : ReleasePolicy F → ControlResult → Locals → Locals
  add_advisory policy control l =
      if is_failed control && (is_advisory control && policy.human_review_on_advisory_failure)
      then add_candidate human_review_required (message (advisory_failed control.control_id)) l
      else l

  abbrev pub add_warning : ReleasePolicy F → ControlResult → Locals → Locals
  add_warning policy control l =
      if is_warning control && policy.human_review_on_warning
      then add_candidate human_review_required (message (warned control.control_id)) l
      else l

  abbrev pub add_incomplete : ReleasePolicy F → ControlResult → Locals → Locals
  add_incomplete policy control l =
      if is_incomplete control
        && ((is_mandatory control || is_dominant control)
            && policy.more_evidence_on_skipped_mandatory_control)
      then add_unmet (message (inconclusive control.control_id))
          (add_candidate more_evidence_required (message (inconclusive control.control_id)) l)
      else l

  -- The reasons of an error that speak of a contradiction, after the control's name.
  abbrev pub contradicting : ControlResult → List String
  contradicting control =
      map (λ reason. message (contradiction control.control_id reason))
        (keep (λ reason. contains "contradict" (casefold reason)) control.reasons)

  abbrev pub add_contradictions : ControlResult → Locals → Locals
  add_contradictions control l =
      if is_error control
      then record l { contradictions = l.contradictions ++ contradicting control }
      else l

  -- One pass of the loop over the controls.
  unfoldable pub on_control : ReleasePolicy F → ControlResult → Locals → Locals
  unfolding contains
  on_control policy control l =
      if is_failed control && (is_dominant control && policy.fail_on_dominant_failure)
      then add_candidate fail (message (dominant_failed control.control_id)) l
      else if is_failed control
          && (is_mandatory control && policy.fail_on_mandatory_control_failure)
      then add_candidate fail (message (mandatory_failed control.control_id)) l
      else add_contradictions control (
          add_incomplete policy control
            (add_warning policy control (add_advisory policy control l)))

  unfoldable pub on_controls : ReleasePolicy F → List ControlResult → Locals → Locals
  unfolding on_control
  on_controls policy [] l = l
  on_controls policy (control ∷ controls) l =
      on_controls policy controls (on_control policy control l)

  abbrev pub add_missing : MetricThreshold F → Locals → Locals
  add_missing threshold l =
      let text = message (unavailable threshold) in
      add_unmet text
        (add_candidate (missing_action_to_decision threshold.missing_metric_action) text l)

  abbrev pub is_more_evidence : GateDecision → Bool
  is_more_evidence more_evidence_required = true
  is_more_evidence _ = false

  abbrev pub add_violated : MetricThreshold F → F → Locals → Locals
  add_violated threshold actual l =
      let text = message (violated threshold actual) in
      let added = add_candidate threshold.failure_decision text l in
      if is_more_evidence threshold.failure_decision then add_unmet text added else added

  abbrev pub on_metric : Option F → MetricThreshold F → Locals → Option Locals
  on_metric none threshold l = some (add_missing threshold l)
  on_metric (some actual) threshold l =
      if not (isfinite actual)
      then none
      else if compare actual threshold.operator threshold.expected_value
      then some l
      else some (add_violated threshold actual l)

  abbrev pub find_metric : String → List (String × F) → Option F
  find_metric name [] = none
  find_metric name ((n, value) ∷ metrics) =
      if name == n then some value else find_metric name metrics

  abbrev pub then_locals : (Locals → Option Locals) → Option Locals → Option Locals
  then_locals k none = none
  then_locals k (some l) = k l

  -- The loop over the thresholds.
  unfoldable pub on_thresholds :
      List (String × F) → List (MetricThreshold F) → Locals → Option Locals
  on_thresholds metrics [] l = some l
  on_thresholds metrics (threshold ∷ thresholds) l =
      then_locals (on_thresholds metrics thresholds)
        (on_metric (find_metric threshold.metric metrics) threshold l)

  -- The end of `decide`.
  abbrev pub conclude : Locals → List (GateDecision × String) → PolicyDecision
  conclude l [] = record {
    decision = pass;
    reasons = message all_passed ∷ [];
    unmet_obligations = [];
    contradictions = [];
  }
  conclude l ((decision, reason) ∷ rest) =
      let final = max_decision decision rest in
      record {
        decision = final;
        reasons = reasons_of (precedence final) ((decision, reason) ∷ rest);
        unmet_obligations = from_keys l.unmet_obligations;
        contradictions = from_keys l.contradictions;
      }

  abbrev pub concluded : Option Locals → Option PolicyDecision
  concluded none = none
  concluded (some l) = some (conclude l l.candidate_decisions)

  abbrev pub no_locals : Locals
  no_locals = record { candidate_decisions = []; unmet_obligations = []; contradictions = [] }

  -- `decide`
  unfoldable pub decide :
      List ControlResult → List (String × F) → ReleasePolicy F → Option PolicyDecision
  unfolding on_controls on_thresholds max_decision reasons_of from_keys
  decide controls metrics policy =
      concluded
        (on_thresholds metrics policy.metric_thresholds (on_controls policy controls no_locals))
