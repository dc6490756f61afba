-- ===== src/Orchestrator/Endings.antt =====
-- The steps that end a run: the budgets, the transitions of the handlers, and the outcome.
use blindspot_remediation.Prelude.{
  ℕ, String, Bool, true, false, Option, none, some, ◌≡◌, refl, Bool-cases, inl, inr,
}
use blindspot_remediation.Orchestrator.Models.{
  RunState, FinalDisposition, TaskDefinition, RunOutcome, OrchestrationRun,
}
use blindspot_remediation.Orchestrator.Machine.{is_terminal}
use blindspot_remediation.Orchestrator.Budgets.{validate, over_usage, over_time, after_usage}
use blindspot_remediation.Orchestrator.Actions.{Ports, State}
use blindspot_remediation.Orchestrator.Service.{
  outcome_of, referenced, transition_then_record, outcome, finish,
}
use blindspot_remediation.Orchestrator.Triples.{Holds, returned, raised, bind, call-Holds}
use blindspot_remediation.Orchestrator.Trails.{
  Sound, At, transition-Holds, transition_and_record-Holds,
}

-- The final states that a disposition stands for.
abbrev pub agrees : TaskDefinition → FinalDisposition → RunState → Bool
agrees definition FinalDisposition.released RunState.released = definition.automatic_release_allowed
agrees definition FinalDisposition.released _ = false
agrees definition FinalDisposition.rejected RunState.change_failed = true
agrees definition FinalDisposition.rejected RunState.gate_failed = true
agrees definition FinalDisposition.rejected _ = false
agrees definition FinalDisposition.human_review_required RunState.human_review_required = true
agrees definition FinalDisposition.human_review_required _ = false
agrees definition FinalDisposition.budget_exceeded state = is_terminal state
agrees definition FinalDisposition.pipeline_error _ = true
agrees definition FinalDisposition.cancelled _ = false

abbrev pub limit : TaskDefinition → ℕ
limit definition = definition.maximum_more_evidence_cycles

-- What an outcome says of the run it was made of.
abbrev pub Ended : TaskDefinition → RunOutcome → OrchestrationRun → Type 0
Ended definition made run =
    Sound (limit definition) run
    × (made.final_state ≡ run.state)
    × (made.usage ≡ run.usage)
    × (agrees definition made.disposition made.final_state ≡ true)

module _ {W : Type 0} (ports : Ports W) (definition : TaskDefinition) (s : State W) where
  pub outcome-Holds :
      (disposition : FinalDisposition)
      → Sound (limit definition) s.run
      → agrees definition disposition s.run.state ≡ true
      → Holds (Ended definition) (Sound (limit definition)) (outcome ports disposition s)
  unfolding outcome
  outcome-Holds disposition sound e =
      bind (call-Holds IsEnd (ports.record_outcome made) _ (sound, refl, refl, e) sound)
        (λ reference s' at. returned (referenced made reference) s' at)
    where
      IsEnd : OrchestrationRun → Type 0
      IsEnd run =
          Sound (limit definition) run
          × (s.run.state ≡ run.state)
          × (s.run.usage ≡ run.usage)
          × (agrees definition disposition s.run.state ≡ true)

      made : RunOutcome
      made = outcome_of s.run disposition (ports.now s.world).0 s.evidence_references s.reason_codes

  module _ (P : OrchestrationRun → Type 0) (p : P s.run)
      (sound : Sound (limit definition) s.run) where
    after_usage-Holds :
        (over : Option String)
        → Holds
            (λ _. P)
            (Sound (limit definition))
            (after_usage ports definition.budget s.run.started_at over s)
    after_usage-Holds none =
        elim (Bool-cases (over_time definition.budget s.run.started_at (ports.now s.world).0)) [
          | inl late ↦ rw late (raised _ _ sound)
          | inr timely ↦ rw timely (returned _ _ p)
        ]
    after_usage-Holds (some text) = raised _ _ sound

    pub validate-Holds :
        Holds (λ _. P) (Sound (limit definition)) (validate ports definition.budget s)
    unfolding validate
    validate-Holds = after_usage-Holds (over_usage definition.budget s.run.usage)

  -- The transition that a handler makes.
  pub transition_then_record-Holds :
      (state : RunState) (reason : String)
      → Sound (limit definition) s.run
      → Holds
          (λ _. At (limit definition) state s.run.usage)
          (Sound (limit definition))
          (transition_then_record ports state reason s)
  unfolding transition_then_record
  transition_then_record-Holds state reason sound =
      bind (transition-Holds ports (limit definition) state reason none s sound) (λ updated s1 h.
        bind
          (call-Holds (At (limit definition) state s.run.usage) (ports.record_run updated)
            (record s1 { run = updated }) h.0 h.0.0)
          (λ _ s2 at. returned tt _ at))

pub finish-Holds :
    {W : Type 0} (ports : Ports W) (definition : TaskDefinition) (s : State W) (state : RunState)
    (reason : String) (evidence : Option String) (disposition : FinalDisposition)
    → Sound (limit definition) s.run
    → agrees definition disposition state ≡ true
    → Holds
        (Ended definition)
        (Sound (limit definition))
        (finish ports state reason evidence disposition s)
finish-Holds ports definition s state reason evidence disposition sound e =
    bind (transition_and_record-Holds ports (limit definition) state reason evidence s sound)
      (λ _ s' h. outcome-Holds ports definition s' disposition h.0 (rw h.1 e))
