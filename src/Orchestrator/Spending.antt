-- ===== src/Orchestrator/Spending.antt =====
-- What a whole call of `run` spends on a meter.
use blindspot_remediation.Prelude.{
  ℕ, suc, ◌≤◌, String, not, Option, none, some, any, contains, ◌≡◌, refl, arith,
}
use blindspot_remediation.Orchestrator.Models.{
  RunState, FinalDisposition, TaskRequest, TaskDefinition, CandidatePatch, ChangeExecutionResult,
}
use blindspot_remediation.Orchestrator.Machine.{is_terminal}
use blindspot_remediation.Orchestrator.Actions.{
  Failure, over_budget, exception, Result, ok, err, Ports, Action, State, resume, in_world,
}
use blindspot_remediation.Orchestrator.Execution.{
  change_failed, gate_candidate, with_candidate, on_execution, run_body,
}
use blindspot_remediation.Orchestrator.Handlers.{
  recover, on_over_budget, on_exception, handle, created, run_with,
}
use blindspot_remediation.Orchestrator.Meter.{
  Meter, metered, Spent, Costs, costs, onward, spend, unread, after_execute,
}
use blindspot_remediation.Orchestrator.Costs.{
  still, branch-Costs, on_meter, transition_and_record-free, transition_then_record-free,
  outcome-free, finish-free, validate-free, somes-free,
}
use blindspot_remediation.Orchestrator.Outcomes.{run_with-cycles}
use blindspot_remediation.Orchestrator.Passes.{within, gate_loop-Costs}

module _ {W : Type 0} (ports : Ports W) where
  module _ (definition : TaskDefinition) (task : TaskRequest) where
    gate_candidate-Costs :
        (candidate : CandidatePatch) (s : State (Meter × W))
        → Costs 0
            (suc definition.maximum_more_evidence_cycles)
            s
            (gate_candidate (on_meter ports) definition task candidate s)
    gate_candidate-Costs candidate s = within (omega arith) (omega arith) (
        onward 0 0 _ _ s _ _ (omega arith, omega arith, λ h. h)
          (spend (transition_and_record-free ports RunState.candidate_available _ _ _) (λ _ t.
            gate_loop-Costs ports definition task (suc definition.maximum_more_evidence_cycles)
              candidate 0 t)))

    with_candidate-Costs :
        (candidate : Option CandidatePatch) (s : State (Meter × W))
        → Costs 0
            (suc definition.maximum_more_evidence_cycles)
            s
            (with_candidate (on_meter ports) definition task candidate s)
    with_candidate-Costs none s = costs _ s (omega arith, omega arith, λ h. h)
    with_candidate-Costs (some candidate) s = gate_candidate-Costs candidate s

    change_failed-free :
        (result : ChangeExecutionResult) (s : State (Meter × W))
        → Costs 0 0 s (change_failed (on_meter ports) definition task result s)
    change_failed-free result s =
        onward 0 0 0 0 s _ _ (omega arith, omega arith, λ h. h)
          (finish-free ports RunState.change_failed _ _ FinalDisposition.rejected _)

    -- The call of the executor that returned is counted.
    on_execution-Costs :
        (result : ChangeExecutionResult) (s t : State (Meter × W))
        → t.run ≡ s.run
        → t.world.0 ≡ after_execute (ok result) s.world.0
        → Costs 1
            (suc definition.maximum_more_evidence_cycles)
            s
            (on_execution (on_meter ports) definition task result t)
    on_execution-Costs result s t run m = within (omega arith) (omega arith) (
        onward 1 0 _ _ s _ _
          (rw m (omega arith), rw m (omega arith), λ h. rw (m, run) (omega (arith, h.0), h.1))
          (spend (validate-free ports definition task _) (λ _ u.
            branch-Costs (not result.succeeded) _ _ u
              (within (omega arith) (omega arith)
                (somes-free ports definition task (change_failed-free result u)))
              (with_candidate-Costs result.candidate u))))

    run_body-Costs :
        (s : State (Meter × W))
        → Costs 1
            (suc definition.maximum_more_evidence_cycles)
            s
            (run_body (on_meter ports) definition task s)
    unfolding run_body
    run_body-Costs s = within (omega arith) (omega arith) (
        spend (transition_and_record-free ports RunState.validating _ _ s) (λ _ s1.
          spend {e = 0} {g = 0}
            (branch-Costs
              (any (λ pattern. contains pattern task.repository_uri)
                definition.allowed_repository_patterns)
              _ _ s1 (still (ok tt) s1 s1 refl refl refl)
              (still (err (exception "OrchestratorError")) s1 s1 refl refl refl))
            (λ _ s2. spend (transition_and_record-free ports RunState.ready _ _ s2) (λ _ s3.
              spend (validate-free ports definition task s3) (λ _ s4.
                spend (transition_and_record-free ports RunState.executing_change _ _ s4) (λ _ s5.
                  executed s5 (ports.execute s5.run.run_id task definition s5.world.1)))))))
      where
        executed :
            (t : State (Meter × W)) (x : Result ChangeExecutionResult × W)
            → Costs 1 (suc definition.maximum_more_evidence_cycles) t (
                resume
                  (on_execution (on_meter ports) definition task)
                  (in_world t (x.0, (after_execute x.0 t.world.0, x.1))))
        executed t (ok result, w) =
            on_execution-Costs result t
              (record t { world = (after_execute (ok result) t.world.0, w) }) refl refl
        executed t (err failure, w) = costs (err failure) _ (omega arith, omega arith, λ h. h)

    on_over_budget-free :
        (text : String) (s : State (Meter × W))
        → Costs 0 0 s (on_over_budget (on_meter ports) text s)
    unfolding on_over_budget
    on_over_budget-free text s =
        onward 0 0 0 0 s _ _ (omega arith, omega arith, λ h. h)
          (spend {e = 0} {g = 0}
            (branch-Costs (is_terminal s.run.state) _ _ _ (still (ok tt) _ _ refl refl refl)
              (transition_then_record-free ports RunState.budget_exceeded text _))
            (λ _ t. outcome-free ports FinalDisposition.budget_exceeded t))

    recover-Costs :
        {A : Type 0} {e g : ℕ} {s : State (Meter × W)} (handler : Failure → Action (Meter × W) A)
        (x : Result A × State (Meter × W))
        → Costs e g s x
        → ((f : Failure) (t : State (Meter × W)) → Costs 0 0 t (handler f t))
        → Costs e g s (recover handler x)
    recover-Costs handler _ (costs (ok a) t h) k = costs (ok a) t h
    recover-Costs {e = e} {g = g} {s = s} handler _ (costs (err f) t h) k =
        within (omega arith) (omega arith) (onward e g 0 0 s t _ h (k f t))

    on_exception-free :
        (name : String) (s : State (Meter × W)) → Costs 0 0 s (on_exception (on_meter ports) name s)
    unfolding on_exception
    on_exception-free name s =
        onward 0 0 0 0 s _ _ (omega arith, omega arith, λ h. h)
          (spend {e = 0} {g = 0}
            (branch-Costs (is_terminal s.run.state) _ _ _ (still (ok tt) _ _ refl refl refl) (
              recover-Costs _ _ (transition_then_record-free ports RunState.pipeline_error _ _)
                (λ _ t. still (ok tt) t t refl refl refl)))
            (λ _ t. outcome-free ports FinalDisposition.pipeline_error t))

    handle-free : (f : Failure) (s : State (Meter × W)) → Costs 0 0 s (handle (on_meter ports) f s)
    handle-free (over_budget text) s = somes-free ports definition task (on_over_budget-free text s)
    handle-free (exception name) s = somes-free ports definition task (on_exception-free name s)

    run_with-Costs :
        (run_id : String) (w : W)
        → Costs 1
            (suc definition.maximum_more_evidence_cycles)
            (created (on_meter ports) run_id task definition (unread, w))
            (run_with (on_meter ports) definition run_id task (unread, w))
    unfolding run_with
    run_with-Costs run_id w =
        recover-Costs (handle (on_meter ports)) _
          (run_body-Costs (created (on_meter ports) run_id task definition (unread, w))) handle-free

    spent :
        {A : Type 0} {e g : ℕ} {s : State (Meter × W)} {x : Result A × State (Meter × W)}
        → Costs e g s x
        → Spent e g s x.1
    spent (costs r t h) = h

    -- However a call of `run` ends, whatever the ports do: the change executor was called at most
    -- once, the gate at most once more than the definition allows further evidence cycles, the
    -- usage of the run counts exactly the calls of each that returned, and it counts no more
    -- cycles than the definition allows.
    pub run_with-attempts :
        (run_id : String) (w : W)
        → let s = (run_with (metered ports) definition run_id task (unread, w)).1 in
          (s.world.0.executed ≤ 1)
          × (s.world.0.evaluated ≤ suc definition.maximum_more_evidence_cycles)
          × (s.run.usage.execution_attempts ≡ s.world.0.executions_returned)
          × (s.run.usage.gate_attempts ≡ s.world.0.evaluations_returned)
          × (s.run.usage.more_evidence_cycles ≤ definition.maximum_more_evidence_cycles)
    run_with-attempts run_id w =
        let (executed, evaluated, counts) = spent (run_with-Costs run_id w) in
        let (executions, gates) = counts (refl, refl) in
        (
          omega arith,
          omega arith,
          executions,
          gates,
          run_with-cycles (metered ports) definition run_id task (unread, w),
        )
