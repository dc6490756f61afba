-- ===== src/Orchestrator/Costs.antt =====
-- What each part of a call of `run` spends on a meter.
use blindspot_remediation.Prelude.{
  ℕ, ◌+◌, String, Bool, true, false, not, Option, none, some, ltb, if◌then◌else◌, ◌≡◌, refl, arith,
  Bool-cases, inl, inr,
}
use blindspot_remediation.Orchestrator.Models.{
  RunState, GateDisposition, FinalDisposition, TaskRequest, TaskDefinition, CandidatePatch,
  ReleaseGateResult, RunOutcome,
}
use blindspot_remediation.Orchestrator.Machine.{is_allowed, moved, transition}
use blindspot_remediation.Orchestrator.Budgets.{validate, over_usage, over_time, after_usage}
use blindspot_remediation.Orchestrator.Actions.{
  exception, Result, ok, err, Ports, Action, State, resume,
}
use blindspot_remediation.Orchestrator.Service.{
  transition_and_record, transition_then_record, outcome_of, outcome, finish,
}
use blindspot_remediation.Orchestrator.Execution.{
  ended, continued, withhold, deploy, on_pass, more_evidence, on_disposition,
}
use blindspot_remediation.Orchestrator.Meter.{
  Meter, metered, Costs, costs, onward, spend, call_then,
}

module _ {W : Type 0} where
  -- Nothing was called, and the counters and the meter are as they were.
  pub still :
      {A : Type 0} (r : Result A) (s t : State (Meter × W))
      → t.world.0 ≡ s.world.0
      → t.run.usage.execution_attempts ≡ s.run.usage.execution_attempts
      → t.run.usage.gate_attempts ≡ s.run.usage.gate_attempts
      → Costs 0 0 s (r, t)
  still r s t m executions gates =
      costs r t (rw m (omega arith), rw m (omega arith), λ h. rw (m, executions, gates) h)

  pub branch-Costs :
      {A : Type 0} {e g : ℕ} (b : Bool) (m n : Action (Meter × W) A) (s : State (Meter × W))
      → Costs e g s (m s)
      → Costs e g s (n s)
      → Costs e g s ((if b then m else n) s)
  branch-Costs true m n s h k = h
  branch-Costs false m n s h k = k

module _ {W : Type 0} (ports : Ports W) where
  abbrev pub on_meter : Ports (Meter × W)
  on_meter = metered ports

  pub transition_and_record-free :
      (state : RunState) (reason : String) (evidence : Option String) (s : State (Meter × W))
      → Costs 0 0 s (transition_and_record on_meter state reason evidence s)
  unfolding transition_and_record transition
  transition_and_record-free state reason evidence s =
      elim (Bool-cases (is_allowed s.run.state state)) [
        | inl e ↦ rw e (
            call_then s (record s { world = (s.world.0, (ports.now s.world.1).1) }) _
              (ports.record_run (moved state reason evidence (ports.now s.world.1).0 s.run))
              (λ reference w. still (ok tt) s _ refl refl refl)
              (λ w. (omega arith, omega arith, λ h. h)))
        | inr e ↦ rw e (still (err (exception "InvalidStateTransitionError")) s s refl refl refl)
      ]

  pub transition_then_record-free :
      (state : RunState) (reason : String) (s : State (Meter × W))
      → Costs 0 0 s (transition_then_record on_meter state reason s)
  unfolding transition_then_record transition
  transition_then_record-free state reason s = elim (Bool-cases (is_allowed s.run.state state)) [
    | inl e ↦ rw e (
        call_then s
          (record s {
            run = moved state reason none (ports.now s.world.1).0 s.run;
            world = (s.world.0, (ports.now s.world.1).1);
          })
          _ (ports.record_run (moved state reason none (ports.now s.world.1).0 s.run))
          (λ reference w. still (ok tt) s _ refl refl refl)
          (λ w. (omega arith, omega arith, λ h. h)))
    | inr e ↦ rw e (still (err (exception "InvalidStateTransitionError")) s s refl refl refl)
  ]

  pub outcome-free :
      (disposition : FinalDisposition) (s : State (Meter × W))
      → Costs 0 0 s (outcome on_meter disposition s)
  unfolding outcome
  outcome-free disposition s =
      call_then s (record s { world = (s.world.0, (ports.now s.world.1).1) }) _
        (ports.record_outcome (
          outcome_of s.run disposition (ports.now s.world.1).0 s.evidence_references
            s.reason_codes))
        (λ reference w. still (ok _) s _ refl refl refl) (λ w. (omega arith, omega arith, λ h. h))

  pub finish-free :
      (state : RunState) (reason : String) (evidence : Option String)
      (disposition : FinalDisposition) (s : State (Meter × W))
      → Costs 0 0 s (finish on_meter state reason evidence disposition s)
  finish-free state reason evidence disposition s =
      spend (transition_and_record-free state reason evidence s) (λ _ t. outcome-free disposition t)

  module _ (definition : TaskDefinition) (task : TaskRequest) where
    pub validate-free :
        (s : State (Meter × W)) → Costs 0 0 s (validate on_meter definition.budget s)
    unfolding validate
    validate-free s = checked (over_usage definition.budget s.run.usage)
      where
        checked :
            (over : Option String)
            → Costs 0 0 s (after_usage on_meter definition.budget s.run.started_at over s)
        checked (some text) = still _ s s refl refl refl
        checked none =
            elim (Bool-cases
              (over_time definition.budget s.run.started_at (ports.now s.world.1).0)) [
                | inl late ↦ rw late (still _ s _ refl refl refl)
                | inr timely ↦ rw timely (still _ s _ refl refl refl)
              ]

    withhold-free : (s : State (Meter × W)) → Costs 0 0 s (withhold on_meter definition task s)
    withhold-free s =
        onward 0 0 0 0 s _ _ (omega arith, omega arith, λ h. h)
          (spend (transition_then_record-free RunState.pipeline_error _ _)
            (λ _ t. outcome-free FinalDisposition.pipeline_error t))

    deploy-free :
        (candidate : CandidatePatch) (s : State (Meter × W))
        → Costs 0 0 s (deploy on_meter definition task candidate s)
    deploy-free candidate s =
        call_then s s _ (ports.release s.run.run_id task candidate)
          (λ reference w.
            onward 0 0 0 0 s _ _ (omega arith, omega arith, λ h. h)
              (finish-free RunState.released _ _ FinalDisposition.released _))
          (λ w. (omega arith, omega arith, λ h. h))

    on_pass-free :
        (candidate : CandidatePatch) (result : ReleaseGateResult) (s : State (Meter × W))
        → Costs 0 0 s (on_pass on_meter definition task candidate result s)
    on_pass-free candidate result s =
        spend (transition_and_record-free RunState.ready_for_release _ _ s) (λ _ t.
          branch-Costs (not definition.automatic_release_allowed) _ _ t (withhold-free t)
            (deploy-free candidate t))

    ends-free :
        {s : State (Meter × W)} {x : Result RunOutcome × State (Meter × W)}
        → Costs 0 0 s x
        → Costs 0 0 s (resume (λ made t. (ok (ended made), t)) x)
    ends-free h = spend h (λ made t. still (ok (ended made)) t t refl refl refl)

    pub somes-free :
        {s : State (Meter × W)} {x : Result RunOutcome × State (Meter × W)}
        → Costs 0 0 s x
        → Costs 0 0 s (resume (λ made t. (ok (some made), t)) x)
    somes-free h = spend h (λ made t. still (ok (some made)) t t refl refl refl)

    more_evidence-free :
        (cycle : ℕ) (result : ReleaseGateResult) (s : State (Meter × W))
        → Costs 0 0 s (more_evidence on_meter definition task cycle result s)
    more_evidence-free cycle result s =
        onward 0 0 0 0 s _ _ (omega arith, omega arith, λ h. h)
          (transition_and_record-free RunState.more_evidence _ _ _)

    pub on_disposition-free :
        (candidate : CandidatePatch) (cycle : ℕ) (result : ReleaseGateResult)
        (disposition : GateDisposition) (s : State (Meter × W))
        → Costs 0 0 s (on_disposition on_meter definition task candidate cycle result disposition s)
    on_disposition-free candidate cycle result GateDisposition.pass s =
        ends-free (on_pass-free candidate result s)
    on_disposition-free candidate cycle result GateDisposition.fail s =
        ends-free (finish-free RunState.gate_failed _ _ FinalDisposition.rejected s)
    on_disposition-free candidate cycle result GateDisposition.human_review_required s =
        ends-free
          (finish-free RunState.human_review_required _ _ FinalDisposition.human_review_required s)
    on_disposition-free candidate cycle result GateDisposition.more_evidence_required s =
        branch-Costs (ltb definition.maximum_more_evidence_cycles (cycle + 1)) _ _ s
          (ends-free (
            onward 0 0 0 0 s _ _ (omega arith, omega arith, λ h. h)
              (finish-free RunState.human_review_required _ _ FinalDisposition.human_review_required
                _)))
          (spend (more_evidence-free (cycle + 1) result s)
            (λ _ t. still (ok (continued (cycle + 1))) t t refl refl refl))
