-- ===== src/Release/Contract/Validity.antt =====
-- Whether the contract of the result accepts what the policy decided.
use blindspot_remediation.Prelude.{
  ℕ, ◌≤◌, String, true, false, ◌||◌, some, List, [], ◌∷◌, is_empty, ◌≡◌, refl, arith,
}
use blindspot_remediation.Release.Models.{
  GateDecision, pass, fail, human_review_required, more_evidence_required, ControlResult,
  ReleasePolicy,
}
use blindspot_remediation.Release.Engine.{
  PolicyDecision, Floats, no_locals, precedence, on_controls, on_thresholds, decide,
}
use blindspot_remediation.Release.Engine.Ranks.{
  larger, controls_rank, thresholds_rank, concluded-some, decide-worst,
}
use blindspot_remediation.Release.Contract.Obligations.{
  accepted_thresholds, on_controls-Named, on_thresholds-Named, on_controls-Serious,
  on_thresholds-Serious, conclude-obliged, conclude-unburdened,
}
use blindspot_remediation.Release.Contract.{
  has_dominant_failure, has_mandatory_failure, validate_gate_outcome,
}

module _ {F : Type 0} (floats : Floats F) where
  dominant-rank :
      (policy : ReleasePolicy F) (controls : List ControlResult)
      → policy.fail_on_dominant_failure ≡ true
      → has_dominant_failure controls ≡ true
      → 3 ≤ controls_rank policy controls
  dominant-rank policy [] f h = absurd (ground arith)
  dominant-rank policy (control ∷ controls) f h = ground (arith, dominant-rank policy controls)

  mandatory-rank :
      (policy : ReleasePolicy F) (controls : List ControlResult)
      → policy.fail_on_mandatory_control_failure ≡ true
      → has_mandatory_failure controls ≡ true
      → 3 ≤ controls_rank policy controls
  mandatory-rank policy [] f h = absurd (ground arith)
  mandatory-rank policy (control ∷ controls) f h = ground (arith, mandatory-rank policy controls)

  precedence_bound : (d : GateDecision) → 3 ≤ precedence d → d ≡ fail
  precedence_bound d h = ground arith

  larger-ge : (a b : ℕ) → 3 ≤ a → 3 ≤ larger a b
  larger-ge a b h = ground arith

  module _ (policy : ReleasePolicy F) (dominant : policy.fail_on_dominant_failure ≡ true)
      (required : policy.fail_on_mandatory_control_failure ≡ true) where
    dominant-fail :
        (controls : List ControlResult) (metrics : List (String × F)) (d : PolicyDecision)
        → decide floats controls metrics policy ≡ some d
        → (has_dominant_failure controls || has_mandatory_failure controls) ≡ true
        → d.decision ≡ fail
    dominant-fail controls metrics d h k =
        let ranked = decide-worst floats controls metrics policy d h in
        let serious : 3 ≤ controls_rank policy controls =
          ground (arith, dominant-rank policy controls, mandatory-rank policy controls) in
        precedence_bound d.decision (
          rw ranked (
            larger-ge (controls_rank policy controls)
              (thresholds_rank floats metrics policy.metric_thresholds) serious))

    validate_parts :
        (decision : GateDecision) (controls : List ControlResult)
        (unmet contradictions : List String)
        → ((has_dominant_failure controls || has_mandatory_failure controls) ≡ true
            → decision ≡ fail)
        → (decision ≡ pass → (is_empty unmet ≡ true) × (is_empty contradictions ≡ true))
        → (decision ≡ more_evidence_required → is_empty unmet ≡ false)
        → validate_gate_outcome decision controls unmet contradictions ≡ true
    unfolding validate_gate_outcome
    validate_parts pass controls unmet contradictions f p m = ground (arith, p refl)
    validate_parts fail controls unmet contradictions f p m = refl
    validate_parts human_review_required controls unmet contradictions f p m = ground arith
    validate_parts more_evidence_required controls unmet contradictions f p m =
        ground (arith, m refl)

    -- Where both flags for failures are set and no threshold is configured to pass when it is
    -- violated, the contract of the result accepts what `decide` returns: a dominant failure
    -- fails, a pass has no failed control that is mandatory or dominant, no obligation and no
    -- contradiction, and a call for more evidence has no dominant failure and names an obligation
    -- or a contradiction.
    pub validate_gate_outcome-decide :
        (controls : List ControlResult) (metrics : List (String × F)) (d : PolicyDecision)
        → accepted_thresholds floats policy.metric_thresholds ≡ true
        → decide floats controls metrics policy ≡ some d
        → validate_gate_outcome d.decision controls d.unmet_obligations d.contradictions ≡ true
    unfolding decide
    validate_gate_outcome-decide controls metrics d accepted h =
        let (l, run, e) =
          concluded-some floats
            (on_thresholds floats metrics policy.metric_thresholds
              (on_controls floats policy controls (no_locals floats)))
            d h in
        let named =
          on_thresholds-Named floats metrics policy.metric_thresholds
            (on_controls floats policy controls (no_locals floats)) l run
            (on_controls-Named floats policy controls (no_locals floats)
              (λ k. absurd (ground arith))) in
        let serious =
          on_thresholds-Serious floats metrics policy.metric_thresholds
            (on_controls floats policy controls (no_locals floats)) l accepted run
            (on_controls-Serious floats policy controls (no_locals floats) refl) in
        validate_parts d.decision controls d.unmet_obligations d.contradictions
          (dominant-fail controls metrics d h)
          (rw (← e) (conclude-unburdened floats l l.candidate_decisions refl serious))
          (rw (← e) (conclude-obliged floats l l.candidate_decisions refl named))

  -- Where neither a control, by the flags of the policy, nor a threshold asks for more than a
  -- pass, but a mandatory control failed, the contract of the result refuses what `decide`
  -- returns.
  pub validate_gate_outcome-unflagged :
      (controls : List ControlResult) (metrics : List (String × F)) (policy : ReleasePolicy F)
      (d : PolicyDecision)
      → decide floats controls metrics policy ≡ some d
      → controls_rank policy controls ≡ 0
      → thresholds_rank floats metrics policy.metric_thresholds ≡ 0
      → has_mandatory_failure controls ≡ true
      → validate_gate_outcome d.decision controls d.unmet_obligations d.contradictions ≡ false
  unfolding validate_gate_outcome
  validate_gate_outcome-unflagged controls metrics policy d h c t failing =
      let ranked = decide-worst floats controls metrics policy d h in
      let passes : d.decision ≡ pass = ground arith in rw (passes, failing) (ground arith)
