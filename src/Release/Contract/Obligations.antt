-- ===== src/Release/Contract/Obligations.antt =====
-- What the policy collects beside its candidates: obligations, and no candidate that passes.
use blindspot_remediation.Prelude.{
  String, Bool, true, false, not, ◌||◌, Option, none, some, List, [], ◌∷◌, ◌++◌, all, any,
  any-append, is_empty, from_keys, any-from_keys, ◌≡◌, refl, ◌∙◌, arith,
}
use blindspot_remediation.Release.Models.{
  GateDecision, pass, fail, human_review_required, more_evidence_required, ControlResult,
  MetricThreshold, ReleasePolicy,
}
use blindspot_remediation.Release.Engine.{
  Floats, Locals, missing_action_to_decision, max_decision, find_metric, is_more_evidence,
  on_control, on_controls, on_metric, on_thresholds, conclude, inconclusive, unavailable, violated,
  dominant_failed, mandatory_failed, advisory_failed, warned,
}
use blindspot_remediation.Release.Engine.Ranks.{then_locals-some}

module _ {F : Type 0} (floats : Floats F) where
  -- Some candidate asks for more evidence.
  abbrev pub asks : List (GateDecision × String) → Bool
  asks cs = any (λ c. is_more_evidence floats c.0) cs

  -- Whoever asks for more evidence names an obligation.
  abbrev pub Named : Locals → Type 0
  Named l = asks l.candidate_decisions ≡ true → is_empty l.unmet_obligations ≡ false

  asks-snoc :
      (cs : List (GateDecision × String)) (d : GateDecision) (r : String)
      → asks (cs ++ (d, r) ∷ []) ≡ (asks cs || is_more_evidence floats d)
  asks-snoc cs d r = any-append (λ c. is_more_evidence floats c.0) cs ((d, r) ∷ []) ∙ ground arith

  nonempty-snoc : (xs : List String) (x : String) → is_empty (xs ++ x ∷ []) ≡ false
  nonempty-snoc [] x = refl
  nonempty-snoc (y ∷ xs) x = refl

  on_control-Named :
      (policy : ReleasePolicy F) (control : ControlResult) (l : Locals)
      → Named l
      → Named (on_control floats policy control l)
  unfolding on_control
  on_control-Named policy control l h = λ e. ground (
    arith,
    h,
    asks-snoc l.candidate_decisions fail (floats.message (dominant_failed control.control_id)),
    asks-snoc l.candidate_decisions fail (floats.message (mandatory_failed control.control_id)),
    asks-snoc l.candidate_decisions human_review_required
        (floats.message (advisory_failed control.control_id)),
    asks-snoc l.candidate_decisions human_review_required
        (floats.message (warned control.control_id)),
    nonempty-snoc l.unmet_obligations (floats.message (inconclusive control.control_id)),
  )

  pub on_controls-Named :
      (policy : ReleasePolicy F) (controls : List ControlResult) (l : Locals)
      → Named l
      → Named (on_controls floats policy controls l)
  unfolding on_controls
  on_controls-Named policy [] l h = h
  on_controls-Named policy (control ∷ controls) l h =
      on_controls-Named policy controls (on_control floats policy control l)
        (on_control-Named policy control l h)

  on_metric-Named :
      (actual : Option F) (threshold : MetricThreshold F) (l l' : Locals)
      → on_metric floats actual threshold l ≡ some l'
      → Named l
      → Named l'
  on_metric-Named none threshold l l' e h = λ k.
      ground (arith, nonempty-snoc l.unmet_obligations (floats.message (unavailable threshold)))
  on_metric-Named (some actual) threshold l l' e h = λ k. ground (
    arith,
    h,
    asks-snoc l.candidate_decisions threshold.failure_decision
        (floats.message (violated threshold actual)),
    nonempty-snoc l.unmet_obligations (floats.message (violated threshold actual)),
  )

  pub on_thresholds-Named :
      (metrics : List (String × F)) (thresholds : List (MetricThreshold F)) (l l' : Locals)
      → on_thresholds floats metrics thresholds l ≡ some l'
      → Named l
      → Named l'
  unfolding on_thresholds
  on_thresholds-Named metrics [] l l' e h = ground arith
  on_thresholds-Named metrics (threshold ∷ thresholds) l l' e h =
      let (m, one, rest) =
        then_locals-some floats (on_thresholds floats metrics thresholds)
          (on_metric floats (find_metric floats threshold.metric metrics) threshold l) l' e in
      on_thresholds-Named metrics thresholds m l' rest
        (on_metric-Named (find_metric floats threshold.metric metrics) threshold l m one h)

  max_decision-asks :
      (best : GateDecision) (cs : List (GateDecision × String))
      → is_more_evidence floats (max_decision best cs) ≡ true
      → (is_more_evidence floats best || asks cs) ≡ true
  unfolding max_decision
  max_decision-asks best [] h = ground arith
  max_decision-asks best ((d, r) ∷ cs) h =
      ground (arith, max_decision-asks d cs, max_decision-asks best cs)

  any-nonempty : (xs : List String) → any (λ x. true) xs ≡ not (is_empty xs)
  any-nonempty [] = refl
  any-nonempty (x ∷ xs) = refl

  is_empty-from_keys : (xs : List String) → is_empty (from_keys xs) ≡ is_empty xs
  is_empty-from_keys xs =
      ground (arith, any-nonempty xs, any-nonempty (from_keys xs), any-from_keys (λ x. true) xs)

  -- More evidence is asked for with an obligation.
  pub conclude-obliged :
      (l : Locals) (cs : List (GateDecision × String))
      → l.candidate_decisions ≡ cs
      → Named l
      → (conclude floats l cs).decision ≡ more_evidence_required
      → is_empty (conclude floats l cs).unmet_obligations ≡ false
  conclude-obliged l [] e h k = absurd (ground arith)
  conclude-obliged l ((d, r) ∷ cs) e h k =
      let asked : asks l.candidate_decisions ≡ true = rw e (max_decision-asks d cs (rw k refl)) in
      is_empty-from_keys l.unmet_obligations ∙ h asked

  -- The thresholds that the configuration accepts: a violated one does not pass.
  abbrev pub is_pass : GateDecision → Bool
  is_pass pass = true
  is_pass _ = false

  abbrev pub accepted_thresholds : List (MetricThreshold F) → Bool
  accepted_thresholds thresholds = all (λ t. not (is_pass t.failure_decision)) thresholds

  abbrev pub Serious : Locals → Type 0
  Serious l = any (λ c. is_pass c.0) l.candidate_decisions ≡ false

  pass-snoc :
      (cs : List (GateDecision × String)) (d : GateDecision) (r : String)
      → any (λ c. is_pass c.0) (cs ++ (d, r) ∷ []) ≡ (any (λ c. is_pass c.0) cs || is_pass d)
  pass-snoc cs d r = any-append (λ c. is_pass c.0) cs ((d, r) ∷ []) ∙ ground arith

  on_control-Serious :
      (policy : ReleasePolicy F) (control : ControlResult) (l : Locals)
      → Serious l
      → Serious (on_control floats policy control l)
  unfolding on_control
  on_control-Serious policy control l h = ground (
    arith,
    pass-snoc l.candidate_decisions fail (floats.message (dominant_failed control.control_id)),
    pass-snoc l.candidate_decisions fail (floats.message (mandatory_failed control.control_id)),
    pass-snoc l.candidate_decisions human_review_required
        (floats.message (advisory_failed control.control_id)),
    pass-snoc l.candidate_decisions human_review_required
        (floats.message (warned control.control_id)),
    pass-snoc l.candidate_decisions more_evidence_required
        (floats.message (inconclusive control.control_id)),
  )

  pub on_controls-Serious :
      (policy : ReleasePolicy F) (controls : List ControlResult) (l : Locals)
      → Serious l
      → Serious (on_controls floats policy controls l)
  unfolding on_controls
  on_controls-Serious policy [] l h = h
  on_controls-Serious policy (control ∷ controls) l h =
      on_controls-Serious policy controls (on_control floats policy control l)
        (on_control-Serious policy control l h)

  on_metric-Serious :
      (actual : Option F) (threshold : MetricThreshold F) (l l' : Locals)
      → is_pass threshold.failure_decision ≡ false
      → on_metric floats actual threshold l ≡ some l'
      → Serious l
      → Serious l'
  on_metric-Serious none threshold l l' p e h = ground (
    arith,
    pass-snoc l.candidate_decisions (missing_action_to_decision threshold.missing_metric_action)
        (floats.message (unavailable threshold)),
  )
  on_metric-Serious (some actual) threshold l l' p e h = ground (
    arith,
    pass-snoc l.candidate_decisions threshold.failure_decision
        (floats.message (violated threshold actual)),
  )

  pub on_thresholds-Serious :
      (metrics : List (String × F)) (thresholds : List (MetricThreshold F)) (l l' : Locals)
      → accepted_thresholds thresholds ≡ true
      → on_thresholds floats metrics thresholds l ≡ some l'
      → Serious l
      → Serious l'
  unfolding on_thresholds
  on_thresholds-Serious metrics [] l l' p e h = ground arith
  on_thresholds-Serious metrics (threshold ∷ thresholds) l l' p e h =
      let (m, one, rest) =
        then_locals-some floats (on_thresholds floats metrics thresholds)
          (on_metric floats (find_metric floats threshold.metric metrics) threshold l) l' e in
      on_thresholds-Serious metrics thresholds m l' (ground arith) rest (
        on_metric-Serious (find_metric floats threshold.metric metrics) threshold l m (ground arith)
          one h)

  max_decision-pass :
      (best : GateDecision) (cs : List (GateDecision × String))
      → max_decision best cs ≡ pass
      → is_pass best ≡ true
  unfolding max_decision
  max_decision-pass best [] h = ground arith
  max_decision-pass best ((d, r) ∷ cs) h =
      ground (arith, max_decision-pass d cs, max_decision-pass best cs)

  -- A pass is given without obligations and contradictions.
  pub conclude-unburdened :
      (l : Locals) (cs : List (GateDecision × String))
      → l.candidate_decisions ≡ cs
      → Serious l
      → (conclude floats l cs).decision ≡ pass
      → (is_empty (conclude floats l cs).unmet_obligations ≡ true)
        × (is_empty (conclude floats l cs).contradictions ≡ true)
  conclude-unburdened l [] e h k = (refl, refl)
  conclude-unburdened l ((d, r) ∷ cs) e h k =
      let first : is_pass d ≡ true = max_decision-pass d cs k in
      let none_passes = rw e at h in absurd (ground arith)
