-- ===== src/Release/Engine/Ranks.antt =====
-- The decision of the policy is the most serious of what each control and each threshold asks for.
use blindspot_remediation.Prelude.{
  ℕ, String, Bool, true, false, Option, none, some, List, [], ◌∷◌, ◌++◌, ltb, if◌then◌else◌, ◌≡◌,
  refl, ap, Bool-cases, inl, inr, ◌∙◌, arith,
}
use blindspot_remediation.Release.Models.{
  GateDecision, fail, human_review_required, more_evidence_required, CheckStatus, passed, failed,
  warning, skipped, error, not_applicable, ControlSeverity, informational, advisory, mandatory,
  dominant_failure, ControlResult, MetricThreshold, ReleasePolicy,
}
use blindspot_remediation.Release.Engine.{
  PolicyDecision, Floats, Locals, no_locals, precedence, missing_action_to_decision, max_decision,
  compare, find_metric, on_control, on_controls, on_metric, on_thresholds, then_locals, conclude,
  concluded, decide, dominant_failed, mandatory_failed, advisory_failed, warned, inconclusive,
  unavailable, violated,
}

abbrev pub larger : ℕ → ℕ → ℕ
larger a b = if ltb a b then b else a

-- The greatest precedence that was collected.
abbrev pub top : List (GateDecision × String) → ℕ
top [] = 0
top ((decision, reason) ∷ rest) = larger (precedence decision) (top rest)

abbrev pub when : Bool → ℕ → ℕ
when true rank = rank
when false rank = 0

module _ {F : Type 0} (policy : ReleasePolicy F) where
  -- What a failed control of the severity asks for.
  abbrev pub failed_rank : ControlSeverity → ℕ
  failed_rank dominant_failure = when policy.fail_on_dominant_failure 3
  failed_rank mandatory = when policy.fail_on_mandatory_control_failure 3
  failed_rank advisory = when policy.human_review_on_advisory_failure 2
  failed_rank informational = 0

  abbrev pub skipped_rank : ControlSeverity → ℕ
  skipped_rank dominant_failure = when policy.more_evidence_on_skipped_mandatory_control 1
  skipped_rank mandatory = when policy.more_evidence_on_skipped_mandatory_control 1
  skipped_rank advisory = 0
  skipped_rank informational = 0

  -- What a control asks for, by its status and its severity.
  abbrev pub rank_at : CheckStatus → ControlSeverity → ℕ
  rank_at passed severity = 0
  rank_at warning severity = when policy.human_review_on_warning 2
  rank_at failed severity = failed_rank severity
  rank_at error severity = failed_rank severity
  rank_at skipped severity = skipped_rank severity
  rank_at not_applicable severity = skipped_rank severity

  abbrev pub control_rank : ControlResult → ℕ
  control_rank control = rank_at control.status control.severity

  abbrev pub controls_rank : List ControlResult → ℕ
  controls_rank [] = 0
  controls_rank (control ∷ controls) = larger (control_rank control) (controls_rank controls)

module _ {F : Type 0} (floats : Floats F) where
  abbrev pub metric_rank : Option F → MetricThreshold F → ℕ
  metric_rank none threshold =
      precedence (missing_action_to_decision threshold.missing_metric_action)
  metric_rank (some actual) threshold =
      if compare floats actual threshold.operator threshold.expected_value
      then 0
      else precedence threshold.failure_decision

  -- What the thresholds ask for.
  abbrev pub thresholds_rank : List (String × F) → List (MetricThreshold F) → ℕ
  thresholds_rank metrics [] = 0
  thresholds_rank metrics (threshold ∷ thresholds) =
      larger (metric_rank (find_metric floats threshold.metric metrics) threshold)
        (thresholds_rank metrics thresholds)

  top-snoc :
      (cs : List (GateDecision × String)) (decision : GateDecision) (reason : String)
      → top (cs ++ (decision, reason) ∷ []) ≡ larger (top cs) (precedence decision)
  top-snoc [] decision reason = ground arith
  top-snoc ((d, r) ∷ cs) decision reason = ground (arith, top-snoc cs decision reason)

  on_control_at :
      (policy : ReleasePolicy F) (id : String) (status : CheckStatus) (severity : ControlSeverity)
      (reasons : List String) (l : Locals)
      → top
          (on_control floats policy
            (record { control_id = id; status = status; severity = severity; reasons = reasons })
            l).candidate_decisions
        ≡ larger (top l.candidate_decisions) (rank_at policy status severity)
  unfolding on_control
  on_control_at policy id status severity reasons l = ground (
    arith,
    top-snoc l.candidate_decisions fail (floats.message (dominant_failed id)),
    top-snoc l.candidate_decisions fail (floats.message (mandatory_failed id)),
    top-snoc l.candidate_decisions human_review_required (floats.message (advisory_failed id)),
    top-snoc l.candidate_decisions human_review_required (floats.message (warned id)),
    top-snoc l.candidate_decisions more_evidence_required (floats.message (inconclusive id)),
  )

  larger_assoc : (a b c : ℕ) → larger (larger a b) c ≡ larger a (larger b c)
  larger_assoc a b c = ground arith

  on_controls-top :
      (policy : ReleasePolicy F) (controls : List ControlResult) (l : Locals)
      → top (on_controls floats policy controls l).candidate_decisions
        ≡ larger (top l.candidate_decisions) (controls_rank policy controls)
  unfolding on_controls
  on_controls-top policy [] l = ground arith
  on_controls-top policy (control ∷ controls) l =
      on_controls-top policy controls (on_control floats policy control l)
      ∙ ap (λ (n : ℕ). larger n (controls_rank policy controls))
          (on_control_at policy control.control_id control.status control.severity control.reasons
            l)
      ∙ larger_assoc (top l.candidate_decisions) (control_rank policy control)
          (controls_rank policy controls)

  pub then_locals-some :
      (k : Locals → Option Locals) (o : Option Locals) (l' : Locals)
      → then_locals floats k o ≡ some l'
      → (l : Locals) × (o ≡ some l) × (k l ≡ some l')
  then_locals-some k none l' h = absurd (ground arith)
  then_locals-some k (some l) l' h = (l, refl, h)

  pub concluded-some :
      (o : Option Locals) (d : PolicyDecision)
      → concluded floats o ≡ some d
      → (l : Locals) × (o ≡ some l) × (conclude floats l l.candidate_decisions ≡ d)
  concluded-some none d h = absurd (ground arith)
  concluded-some (some l) d h = (l, refl, ground arith)

  pub on_metric-top :
      (actual : Option F) (threshold : MetricThreshold F) (l l' : Locals)
      → on_metric floats actual threshold l ≡ some l'
      → top l'.candidate_decisions
        ≡ larger (top l.candidate_decisions) (metric_rank actual threshold)
  on_metric-top none threshold l l' h = ground (
    arith,
    top-snoc l.candidate_decisions (missing_action_to_decision threshold.missing_metric_action)
        (floats.message (unavailable threshold)),
  )
  on_metric-top (some actual) threshold l l' h = ground (
    arith,
    top-snoc l.candidate_decisions threshold.failure_decision
        (floats.message (violated threshold actual)),
  )

  on_thresholds-top :
      (metrics : List (String × F)) (thresholds : List (MetricThreshold F)) (l l' : Locals)
      → on_thresholds floats metrics thresholds l ≡ some l'
      → top l'.candidate_decisions
        ≡ larger (top l.candidate_decisions) (thresholds_rank metrics thresholds)
  unfolding on_thresholds
  on_thresholds-top metrics [] l l' h = ground arith
  on_thresholds-top metrics (threshold ∷ thresholds) l l' h =
      let (m, one, rest) =
        then_locals-some (on_thresholds floats metrics thresholds)
          (on_metric floats (find_metric floats threshold.metric metrics) threshold l) l' h in
      on_thresholds-top metrics thresholds m l' rest
      ∙ ap (λ (n : ℕ). larger n (thresholds_rank metrics thresholds))
          (on_metric-top (find_metric floats threshold.metric metrics) threshold l m one)
      ∙ larger_assoc (top l.candidate_decisions)
          (metric_rank (find_metric floats threshold.metric metrics) threshold)
          (thresholds_rank metrics thresholds)

  max_decision-top :
      (best : GateDecision) (cs : List (GateDecision × String))
      → precedence (max_decision best cs) ≡ larger (precedence best) (top cs)
  unfolding max_decision
  max_decision-top best [] = ground arith
  max_decision-top best ((d, r) ∷ cs) = elim (Bool-cases (ltb (precedence best) (precedence d))) [
    | inl e ↦ rw e (max_decision-top d cs ∙ ground arith)
    | inr e ↦ rw e (max_decision-top best cs ∙ ground arith)
  ]

  conclude-top :
      (l : Locals) (cs : List (GateDecision × String))
      → precedence (conclude floats l cs).decision ≡ top cs
  conclude-top l [] = refl
  conclude-top l ((d, r) ∷ cs) = max_decision-top d cs

  -- Where `decide` returns, the precedence of its decision is the greatest of what each control
  -- asks for, by its status, its severity and the flags of the policy, and of what each threshold
  -- asks for, by its metric.
  pub decide-worst :
      (controls : List ControlResult) (metrics : List (String × F)) (policy : ReleasePolicy F)
      (d : PolicyDecision)
      → decide floats controls metrics policy ≡ some d
      → precedence d.decision
        ≡ larger (controls_rank policy controls) (thresholds_rank metrics policy.metric_thresholds)
  unfolding decide
  decide-worst controls metrics policy d h =
      let (l, run, e) =
        concluded-some
          (on_thresholds floats metrics policy.metric_thresholds
            (on_controls floats policy controls (no_locals floats)))
          d h in
      rw (← e) (
        conclude-top l l.candidate_decisions
        ∙ on_thresholds-top metrics policy.metric_thresholds
            (on_controls floats policy controls (no_locals floats)) l run
        ∙ ap (λ (n : ℕ). larger n (thresholds_rank metrics policy.metric_thresholds))
            (on_controls-top policy controls (no_locals floats) ∙ ground arith))
