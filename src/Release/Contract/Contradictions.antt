-- ===== src/Release/Contract/Contradictions.antt =====
-- Which contradictions the policy reports.
use blindspot_remediation.Prelude.{
  String, Bool, true, not, ◌||◌, Option, none, some, List, [], ◌∷◌, all, from_keys, ◌≡◌, refl, ◌∙◌,
  arith,
}
use blindspot_remediation.Release.Models.{
  GateDecision, ControlResult, MetricThreshold, ReleasePolicy,
}
use blindspot_remediation.Release.Engine.{
  PolicyDecision, Floats, Locals, no_locals, is_error, is_dominant, is_mandatory, find_metric,
  on_control, on_controls, on_metric, on_thresholds, conclude, decide,
}
use blindspot_remediation.Release.Engine.Ranks.{then_locals-some, concluded-some}

-- A control that ended with an error is mandatory or dominant.
abbrev pub is_required_error : ControlResult → Bool
is_required_error control = not (is_error control) || (is_mandatory control || is_dominant control)

module _ {F : Type 0} (floats : Floats F) where
  on_control-contradictions :
      (policy : ReleasePolicy F) (control : ControlResult) (l : Locals)
      → policy.fail_on_dominant_failure ≡ true
      → policy.fail_on_mandatory_control_failure ≡ true
      → is_required_error control ≡ true
      → (on_control floats policy control l).contradictions ≡ l.contradictions
  unfolding on_control
  on_control-contradictions policy control l f g h = ground arith

  on_controls-contradictions :
      (policy : ReleasePolicy F) (controls : List ControlResult) (l : Locals)
      → policy.fail_on_dominant_failure ≡ true
      → policy.fail_on_mandatory_control_failure ≡ true
      → all is_required_error controls ≡ true
      → (on_controls floats policy controls l).contradictions ≡ l.contradictions
  unfolding on_controls
  on_controls-contradictions policy [] l f g h = refl
  on_controls-contradictions policy (control ∷ controls) l f g h =
      on_controls-contradictions policy controls (on_control floats policy control l) f g
        (ground arith)
      ∙ on_control-contradictions policy control l f g (ground arith)

  on_metric-contradictions :
      (actual : Option F) (threshold : MetricThreshold F) (l l' : Locals)
      → on_metric floats actual threshold l ≡ some l'
      → l'.contradictions ≡ l.contradictions
  on_metric-contradictions none threshold l l' e = ground arith
  on_metric-contradictions (some actual) threshold l l' e = ground arith

  on_thresholds-contradictions :
      (metrics : List (String × F)) (thresholds : List (MetricThreshold F)) (l l' : Locals)
      → on_thresholds floats metrics thresholds l ≡ some l'
      → l'.contradictions ≡ l.contradictions
  unfolding on_thresholds
  on_thresholds-contradictions metrics [] l l' e = ground arith
  on_thresholds-contradictions metrics (threshold ∷ thresholds) l l' e =
      let (m, one, rest) =
        then_locals-some floats (on_thresholds floats metrics thresholds)
          (on_metric floats (find_metric floats threshold.metric metrics) threshold l) l' e in
      on_thresholds-contradictions metrics thresholds m l' rest
      ∙ on_metric-contradictions (find_metric floats threshold.metric metrics) threshold l m one

  conclude-contradictions :
      (l : Locals) (cs : List (GateDecision × String))
      → l.contradictions ≡ []
      → (conclude floats l cs).contradictions ≡ []
  unfolding from_keys
  conclude-contradictions l [] h = refl
  conclude-contradictions l ((d, r) ∷ cs) h = rw h refl

  -- Where both flags for failures are set and every control that ended with an error is mandatory
  -- or dominant, a decision that is returned has no contradiction, whatever the reasons of these
  -- controls say.
  pub decide-contradictions :
      (controls : List ControlResult) (metrics : List (String × F)) (policy : ReleasePolicy F)
      (d : PolicyDecision)
      → policy.fail_on_dominant_failure ≡ true
      → policy.fail_on_mandatory_control_failure ≡ true
      → all is_required_error controls ≡ true
      → decide floats controls metrics policy ≡ some d
      → d.contradictions ≡ []
  unfolding decide
  decide-contradictions controls metrics policy d f g h e =
      let (l, run, same) =
        concluded-some floats
          (on_thresholds floats metrics policy.metric_thresholds
            (on_controls floats policy controls (no_locals floats)))
          d e in
      rw (← same) (
        conclude-contradictions l l.candidate_decisions (
          on_thresholds-contradictions metrics policy.metric_thresholds _ l run
          ∙ on_controls-contradictions policy controls (no_locals floats) f g h))
