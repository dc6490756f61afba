-- ===== src/Orchestrator/Runs.antt =====
-- The body of `run`, its handlers and the whole call, under the invariant of the log and the counters.
use blindspot_remediation.Prelude.{
  suc, String, true, not, Option, none, some, any, contains, ◌≡◌, refl, ◌∙◌, arith,
}
use blindspot_remediation.Orchestrator.Models.{
  RunState, FinalDisposition, TaskRequest, TaskDefinition, CandidatePatch, ChangeExecutionResult,
  OrchestrationRun, no_usage,
}
use blindspot_remediation.Orchestrator.Machine.{is_terminal}
use blindspot_remediation.Orchestrator.Actions.{
  Failure, over_budget, exception, Action, Result, Ports, State,
}
use blindspot_remediation.Orchestrator.Service.{add_execution_usage}
use blindspot_remediation.Orchestrator.Execution.{
  gate_candidate, with_candidate, on_execution, run_body,
}
use blindspot_remediation.Orchestrator.Handlers.{
  recover, on_over_budget, on_exception, handle, created, run_with,
}
use blindspot_remediation.Orchestrator.Triples.{
  Holds, returned, raised, bind, weaken, branch, call-Holds,
}
use blindspot_remediation.Orchestrator.Trails.{Sound, At, start, transition_and_record-Holds}
use blindspot_remediation.Orchestrator.Endings.{
  Ended, limit, outcome-Holds, finish-Holds, validate-Holds, transition_then_record-Holds,
}
use blindspot_remediation.Orchestrator.Rounds.{LoopEnds, gate_loop-Holds}

-- A sound run that has used nothing yet.
abbrev Unused : TaskDefinition → OrchestrationRun → Type 0
Unused definition run = Sound (limit definition) run × (run.usage ≡ no_usage)

pub recover-Holds :
    {W A : Type 0} {E : OrchestrationRun → Type 0} {Q : A → OrchestrationRun → Type 0}
    {handler : Failure → Action W A} {x : Result A × State W}
    → Holds Q E x
    → ((e : Failure) (s : State W) → E s.run → Holds Q E (handler e s))
    → Holds Q E (recover handler x)
recover-Holds (returned a s h) k = returned a s h
recover-Holds (raised e s h) k = k e s h

module _ {W : Type 0} (ports : Ports W) (definition : TaskDefinition) (task : TaskRequest) where
  gate_candidate-Holds :
      (candidate : CandidatePatch) (s : State W)
      → Sound (limit definition) s.run
      → s.run.usage.gate_attempts ≡ 0
      → Holds
          (LoopEnds definition)
          (Sound (limit definition))
          (gate_candidate ports definition task candidate s)
  gate_candidate-Holds candidate s sound e =
      bind
        (transition_and_record-Holds ports (limit definition) RunState.candidate_available _ _
          (record s { run = record s.run { candidate = some candidate }; evidence_references = _ })
          sound)
        (λ _ s' at.
          gate_loop-Holds ports definition task candidate (suc (limit definition)) 0 s'
            (omega arith) (omega arith) (at.0, rw at.2 e))

  on_execution-Holds :
      (result : ChangeExecutionResult) (s : State W)
      → Unused definition s.run
      → Holds
          (LoopEnds definition)
          (Sound (limit definition))
          (on_execution ports definition task result s)
  on_execution-Holds result s ((trail, executions, gates, cycles), e) =
      bind
        (validate-Holds ports definition _
          (λ run. Sound (limit definition) run × (run.usage.gate_attempts ≡ 0)) used used.0)
        (λ _ s' p.
          branch (not result.succeeded) _ _ _
            (λ _.
              bind
                (finish-Holds ports definition _ RunState.change_failed _ _
                  FinalDisposition.rejected p.0 refl)
                (λ made s2 end. returned (some made) s2 end))
            (λ _. candidate_case result.candidate s' p))
    where
      used :
          let usage =
            add_execution_usage s.run.usage result.input_tokens result.output_tokens
              result.llm_requests in
          Sound (limit definition) (record s.run { usage = usage }) × (usage.gate_attempts ≡ 0)
      used = ((trail, rw e (omega arith), gates, cycles), rw e refl)

      candidate_case :
          (candidate : Option CandidatePatch) (s' : State W)
          → Sound (limit definition) s'.run × (s'.run.usage.gate_attempts ≡ 0)
          → Holds
              (LoopEnds definition)
              (Sound (limit definition))
              (with_candidate ports definition task candidate s')
      candidate_case none s' p = raised _ s' p.0
      candidate_case (some candidate) s' p = gate_candidate-Holds candidate s' p.0 p.1

  run_body-Holds :
      (s : State W)
      → Unused definition s.run
      → Holds (LoopEnds definition) (Sound (limit definition)) (run_body ports definition task s)
  unfolding run_body
  run_body-Holds s fresh =
      bind (transition_and_record-Holds ports (limit definition) RunState.validating _ _ s fresh.0)
        (λ _ s1 h1.
          bind {Q = λ _ run. At (limit definition) RunState.validating s.run.usage run}
            (branch
              (any (λ pattern. contains pattern task.repository_uri)
                definition.allowed_repository_patterns)
              _ _ s1 (λ _. returned tt s1 h1) (λ _. raised _ s1 h1.0))
            (λ _ s2 h2.
              bind (transition_and_record-Holds ports (limit definition) RunState.ready _ _ s2 h2.0)
                (λ _ s3 h3.
                  bind
                    (validate-Holds ports definition s3 (Unused definition)
                      (h3.0, h3.2 ∙ h2.2 ∙ fresh.1) h3.0)
                    (λ _ s4 h4.
                      bind
                        (transition_and_record-Holds ports (limit definition)
                          RunState.executing_change _ _ s4 h4.0)
                        (λ _ s5 h5.
                          bind
                            (call-Holds (Unused definition)
                              (ports.execute s5.run.run_id task definition) s5 (h5.0, h5.2 ∙ h4.1)
                              h5.0)
                            (λ result s6 h6. on_execution-Holds result s6 h6))))))

  on_over_budget-Holds :
      (text : String) (s : State W)
      → Sound (limit definition) s.run
      → Holds (Ended definition) (Sound (limit definition)) (on_over_budget ports text s)
  unfolding on_over_budget
  on_over_budget-Holds text s sound =
      bind {Q = λ _ run. Sound (limit definition) run × (is_terminal run.state ≡ true)}
        (branch (is_terminal s.run.state) _ _ _ (λ e. returned tt _ (sound, e))
          (λ _.
            weaken
              (transition_then_record-Holds ports definition _ RunState.budget_exceeded text sound)
              (λ _ s' h. (h.0, rw h.1 refl))))
        (λ _ s' h. outcome-Holds ports definition s' FinalDisposition.budget_exceeded h.0 h.1)

  on_exception-Holds :
      (name : String) (s : State W)
      → Sound (limit definition) s.run
      → Holds (Ended definition) (Sound (limit definition)) (on_exception ports name s)
  unfolding on_exception
  on_exception-Holds name s sound =
      bind {Q = λ _ run. Sound (limit definition) run}
        (branch (is_terminal s.run.state) _ _ _ (λ e. returned tt _ sound)
          (λ _.
            recover-Holds
              (weaken
                (transition_then_record-Holds ports definition _ RunState.pipeline_error _ sound)
                (λ _ s' h. h.0))
              (λ _ s' h. returned tt s' h)))
        (λ _ s' h. outcome-Holds ports definition s' FinalDisposition.pipeline_error h refl)

  handle-Holds :
      (e : Failure) (s : State W)
      → Sound (limit definition) s.run
      → Holds (LoopEnds definition) (Sound (limit definition)) (handle ports e s)
  handle-Holds (over_budget text) s sound =
      bind (on_over_budget-Holds text s sound) (λ made s' end. returned (some made) s' end)
  handle-Holds (exception name) s sound =
      bind (on_exception-Holds name s sound) (λ made s' end. returned (some made) s' end)

  pub run_with-Holds :
      (run_id : String) (w : W)
      → Holds
          (LoopEnds definition)
          (Sound (limit definition))
          (run_with ports definition run_id task w)
  unfolding run_with
  run_with-Holds run_id w =
      recover-Holds
        (run_body-Holds (created ports run_id task definition w)
          ((start, omega arith, omega arith, omega arith), refl))
        handle-Holds
