-- ===== src/Orchestrator/Passes.antt =====
-- What the passes of the gate loop spend on a meter.
use blindspot_remediation.Prelude.{ℕ, zero, suc, ◌≤◌, Option, none, some, ◌≡◌, refl, arith}
use blindspot_remediation.Orchestrator.Models.{
  RunState, TaskRequest, TaskDefinition, CandidatePatch, ReleaseGateResult, RunOutcome,
}
use blindspot_remediation.Orchestrator.Actions.{
  Result, ok, err, Ports, Action, State, resume, in_world,
}
use blindspot_remediation.Orchestrator.Execution.{
  Round, ended, continued, on_result, gate_round, after_round, gate_loop,
}
use blindspot_remediation.Orchestrator.Meter.{Meter, Costs, costs, onward, spend, after_evaluate}
use blindspot_remediation.Orchestrator.Costs.{
  still, on_meter, transition_and_record-free, validate-free, on_disposition-free,
}

pub within :
    {W A : Type 0} {e g e' g' : ℕ} {s : State (Meter × W)} {x : Result A × State (Meter × W)}
    → e ≤ e'
    → g ≤ g'
    → Costs e g s x
    → Costs e' g' s x
within p q (costs r t (a, b, keeps)) = costs r t (omega arith, omega arith, keeps)

module _ {W : Type 0} (ports : Ports W) where
  module _ (definition : TaskDefinition) (task : TaskRequest) where
    -- The pass counts the call of the gate that returned.
    on_result-Costs :
        (candidate : CandidatePatch) (cycle : ℕ) (result : ReleaseGateResult)
        (s t : State (Meter × W))
        → t.run ≡ s.run
        → t.world.0 ≡ after_evaluate (ok result) s.world.0
        → Costs 0 1 s (on_result (on_meter ports) definition task candidate cycle result t)
    on_result-Costs candidate cycle result s t run m =
        onward 0 1 0 0 s _ _
          (rw m (omega arith), rw m (omega arith), λ h. rw (m, run) (h.0, omega (arith, h.1)))
          (spend (validate-free ports definition task _) (λ _ u.
            on_disposition-free ports definition task candidate cycle result result.disposition u))

    gate_round-Costs :
        (candidate : CandidatePatch) (cycle : ℕ) (s : State (Meter × W))
        → Costs 0 1 s (gate_round (on_meter ports) definition task candidate cycle s)
    unfolding gate_round
    gate_round-Costs candidate cycle s = spend (validate-free ports definition task s) (λ _ s1.
        spend (transition_and_record-free ports RunState.gating _ _ s1) (λ _ s2.
          evaluated s2 (ports.evaluate s2.run.run_id task candidate definition cycle s2.world.1)))
      where
        evaluated :
            (t : State (Meter × W)) (x : Result ReleaseGateResult × W)
            → Costs 0 1 t (
                resume
                  (on_result (on_meter ports) definition task candidate cycle)
                  (in_world t (x.0, (after_evaluate x.0 t.world.0, x.1))))
        evaluated t (ok result, w) =
            on_result-Costs candidate cycle result t
              (record t { world = (after_evaluate (ok result) t.world.0, w) }) refl refl
        evaluated t (err failure, w) = costs (err failure) _ (omega arith, omega arith, λ h. h)

    after_round-Costs :
        (g : ℕ) (again : ℕ → Action (Meter × W) (Option RunOutcome)) (round : Round)
        (s : State (Meter × W))
        → ((next : ℕ) (t : State (Meter × W)) → Costs 0 g t (again next t))
        → Costs 0 g s (after_round (on_meter ports) definition task again round s)
    after_round-Costs g again (ended made) s k =
        costs (ok (some made)) s (omega arith, omega arith, λ h. h)
    after_round-Costs g again (continued next) s k = k next s

    pub gate_loop-Costs :
        (fuel : ℕ) (candidate : CandidatePatch) (cycle : ℕ) (s : State (Meter × W))
        → Costs 0 fuel s (gate_loop (on_meter ports) definition task fuel candidate cycle s)
    unfolding gate_loop
    gate_loop-Costs zero candidate cycle s = still (ok none) s s refl refl refl
    gate_loop-Costs (suc fuel) candidate cycle s = within (omega arith) (omega arith) (
        spend {e = 0} {g = 1} {e' = 0} {g' = fuel} (gate_round-Costs candidate cycle s) (λ round t.
          after_round-Costs fuel _ round t (λ next u. gate_loop-Costs fuel candidate next u)))
