-- ===== src/Orchestrator/Rounds.antt =====
-- The passes of the gate loop and the whole body of `run`, under the invariant of the log and counters.
use blindspot_remediation.Prelude.{
  ℕ, zero, suc, ◌+◌, ◌≤◌, ◌<◌, true, not, Option, none, some, ◌≡◌, refl, arith, ltb,
}
use blindspot_remediation.Orchestrator.Models.{
  RunState, GateDisposition, FinalDisposition, TaskRequest, TaskDefinition, CandidatePatch,
  ReleaseGateResult, OrchestrationRun, RunOutcome,
}
use blindspot_remediation.Orchestrator.Actions.{
  Action, Result, ok, Ports, State, pure, resume, ◌>>◌,
}
use blindspot_remediation.Orchestrator.Service.{add_gate_usage}
use blindspot_remediation.Orchestrator.Execution.{
  Round, ended, continued, deploy, on_pass, withhold, exhausted, on_disposition, on_result,
  gate_round, after_round, more_evidence, gate_loop,
}
use blindspot_remediation.Orchestrator.Triples.{Holds, returned, bind, branch, call-Holds}
use blindspot_remediation.Orchestrator.Trails.{Sound, transition_and_record-Holds}
use blindspot_remediation.Orchestrator.Endings.{
  Ended, limit, outcome-Holds, finish-Holds, validate-Holds, transition_then_record-Holds,
}

-- A sound run whose gate was called `gates` times.
abbrev pub Gated : TaskDefinition → ℕ → OrchestrationRun → Type 0
Gated definition gates run = Sound (limit definition) run × (run.usage.gate_attempts ≡ gates)

-- What a pass leaves: an outcome, or a next cycle that is allowed.
abbrev pub RoundEnds : TaskDefinition → ℕ → Round → OrchestrationRun → Type 0
RoundEnds definition cycle (ended made) run = Ended definition made run
RoundEnds definition cycle (continued next) run =
    Gated definition next run × (next ≡ cycle + 1) × (next ≤ limit definition)

-- The loop ended with an outcome.
abbrev pub LoopEnds : TaskDefinition → Option RunOutcome → OrchestrationRun → Type 0
LoopEnds definition none run = ⊥
LoopEnds definition (some made) run = Ended definition made run

module _ {W : Type 0} (ports : Ports W) (definition : TaskDefinition) (task : TaskRequest)
    (candidate : CandidatePatch) where
  deploy-Holds :
      definition.automatic_release_allowed ≡ true
      → (s : State W) → Sound (limit definition) s.run
      → Holds
          (Ended definition)
          (Sound (limit definition))
          (deploy ports definition task candidate s)
  deploy-Holds allowed s sound =
      bind
        (call-Holds (Sound (limit definition)) (ports.release s.run.run_id task candidate) s sound
          sound)
        (λ reference s' h.
          finish-Holds ports definition _ RunState.released _ _ FinalDisposition.released h allowed)

  withhold-Holds :
      (s : State W)
      → Sound (limit definition) s.run
      → Holds (Ended definition) (Sound (limit definition)) (withhold ports definition task s)
  withhold-Holds s sound =
      bind (transition_then_record-Holds ports definition _ RunState.pipeline_error _ sound)
        (λ _ s' h. outcome-Holds ports definition s' FinalDisposition.pipeline_error h.0 refl)

  on_pass-Holds :
      (result : ReleaseGateResult) (s : State W)
      → Sound (limit definition) s.run
      → Holds
          (Ended definition)
          (Sound (limit definition))
          (on_pass ports definition task candidate result s)
  on_pass-Holds result s sound =
      bind
        (transition_and_record-Holds ports (limit definition) RunState.ready_for_release _ _ s
          sound)
        (λ _ s' h.
          branch (not definition.automatic_release_allowed) _ _ _ (λ e. withhold-Holds s' h.0)
            (λ e. deploy-Holds (ground arith) s' h.0))

  exhausted-Holds :
      (result : ReleaseGateResult) (s : State W)
      → Sound (limit definition) s.run
      → Holds
          (Ended definition)
          (Sound (limit definition))
          (exhausted ports definition task result s)
  exhausted-Holds result s sound =
      finish-Holds ports definition _ RunState.human_review_required _ _
        FinalDisposition.human_review_required sound refl

  ends-Holds :
      (cycle : ℕ) {x : Result RunOutcome × State W}
      → Holds (Ended definition) (Sound (limit definition)) x
      → Holds
          (RoundEnds definition cycle)
          (Sound (limit definition))
          (resume (λ made s. (ok (ended made), s)) x)
  ends-Holds cycle h = bind h (λ made s e. returned (ended made) s e)

  more_evidence-Holds :
      (cycle : ℕ) (result : ReleaseGateResult) (s : State W)
      → Gated definition (cycle + 1) s.run
      → cycle + 1 ≤ limit definition
      → Holds (RoundEnds definition cycle) (Sound (limit definition)) (
          (more_evidence ports definition task (cycle + 1) result >> pure (continued (cycle + 1)))
            s)
  more_evidence-Holds cycle result s ((trail, executions, gates, cycles), e) h =
      bind
        (transition_and_record-Holds ports (limit definition) RunState.more_evidence _ _
          (record s {
            run = record s.run { usage = record s.run.usage { more_evidence_cycles = cycle + 1 } };
          })
          (trail, executions, gates, h))
        (λ _ s' at. returned (continued (cycle + 1)) s' ((at.0, rw at.2 e), refl, h))

  on_disposition-Holds :
      (cycle : ℕ) (result : ReleaseGateResult) (disposition : GateDisposition) (s : State W)
      → Gated definition (cycle + 1) s.run
      → Holds
          (RoundEnds definition cycle)
          (Sound (limit definition))
          (on_disposition ports definition task candidate cycle result disposition s)
  on_disposition-Holds cycle result GateDisposition.pass s h =
      ends-Holds cycle (on_pass-Holds result s h.0)
  on_disposition-Holds cycle result GateDisposition.fail s h =
      ends-Holds cycle (
        finish-Holds ports definition s RunState.gate_failed _ _ FinalDisposition.rejected h.0 refl)
  on_disposition-Holds cycle result GateDisposition.human_review_required s h = ends-Holds cycle (
      finish-Holds ports definition s RunState.human_review_required _ _
        FinalDisposition.human_review_required h.0 refl)
  on_disposition-Holds cycle result GateDisposition.more_evidence_required s h =
      branch (ltb (limit definition) (cycle + 1)) _ _ _
        (λ e. ends-Holds cycle (exhausted-Holds result s h.0))
        (λ e. more_evidence-Holds cycle result s h (ground arith))

  on_result-Holds :
      (cycle : ℕ) (result : ReleaseGateResult) (s : State W)
      → Gated definition cycle s.run
      → cycle ≤ limit definition
      → Holds
          (RoundEnds definition cycle)
          (Sound (limit definition))
          (on_result ports definition task candidate cycle result s)
  on_result-Holds cycle result s ((trail, executions, gates, cycles), e) h =
      bind (validate-Holds ports definition _ (Gated definition (cycle + 1)) counted counted.0)
        (λ _ s' p. on_disposition-Holds cycle result result.disposition s' p)
    where
      counted : Gated definition (cycle + 1) (record s.run {
        usage =
            add_gate_usage s.run.usage result.input_tokens result.output_tokens result.llm_requests;
      })
      counted = ((trail, executions, omega arith, cycles), omega arith)

  gate_round-Holds :
      (cycle : ℕ) (s : State W)
      → Gated definition cycle s.run
      → cycle ≤ limit definition
      → Holds
          (RoundEnds definition cycle)
          (Sound (limit definition))
          (gate_round ports definition task candidate cycle s)
  unfolding gate_round
  gate_round-Holds cycle s h bound =
      bind (validate-Holds ports definition s (Gated definition cycle) h h.0) (λ _ s1 h1.
        bind (transition_and_record-Holds ports (limit definition) RunState.gating _ _ s1 h1.0)
          (λ _ s2 at.
            bind
              (call-Holds (Gated definition cycle)
                (ports.evaluate s2.run.run_id task candidate definition cycle) s2
                (at.0, rw at.2 h1.1) at.0)
              (λ result s3 h3. on_result-Holds cycle result s3 h3 bound)))

  after_round-Holds :
      (cycle : ℕ) (again : ℕ → Action W (Option RunOutcome)) (round : Round) (s : State W)
      → RoundEnds definition cycle round s.run
      → (cycle + 1 ≤ limit definition
          → Gated definition (cycle + 1) s.run
          → Holds (LoopEnds definition) (Sound (limit definition)) (again (cycle + 1) s))
      → Holds
          (LoopEnds definition)
          (Sound (limit definition))
          (after_round ports definition task again round s)
  after_round-Holds cycle again (ended made) s h k = returned (some made) s h
  after_round-Holds cycle again (continued next) s (gated, e, bound) k =
      rw e (k (rw (← e) bound) (rw (← e) gated))

  -- With as much fuel as there are cycles left, the loop does not run out of it.
  pub gate_loop-Holds :
      (fuel cycle : ℕ) (s : State W)
      → fuel + cycle ≡ suc (limit definition)
      → 0 < fuel
      → Gated definition cycle s.run
      → Holds
          (LoopEnds definition)
          (Sound (limit definition))
          (gate_loop ports definition task fuel candidate cycle s)
  unfolding gate_loop
  gate_loop-Holds zero cycle s e positive h = absurd (omega arith)
  gate_loop-Holds (suc fuel) cycle s e positive h =
      bind (gate_round-Holds cycle s h (omega arith)) (λ round s' ends.
        after_round-Holds cycle _ round s' ends
          (λ bound gated. gate_loop-Holds fuel (cycle + 1) s' (omega arith) (omega arith) gated))
