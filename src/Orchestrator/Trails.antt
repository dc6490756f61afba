-- ===== src/Orchestrator/Trails.antt =====
-- The transitions that a run has recorded, and the counters of its usage.
use blindspot_remediation.Prelude.{
  ℕ, suc, ◌≤◌, String, true, Option, List, [], ◌∷◌, ◌++◌, ◌≡◌, refl, inl, inr, Bool-cases,
}
use blindspot_remediation.Orchestrator.Models.{
  RunState, StateTransition, UsageLedger, OrchestrationRun,
}
use blindspot_remediation.Orchestrator.Machine.{is_allowed, moved, transition}
use blindspot_remediation.Orchestrator.Actions.{Ports, State}
use blindspot_remediation.Orchestrator.Service.{transition_and_record}
use blindspot_remediation.Orchestrator.Triples.{Holds, returned, raised, bind, call-Holds}

-- The records of allowed moves, each from the state that the one before it reached.
pub data Trail : List StateTransition → RunState → Type 0 where
  start : Trail [] RunState.created
  move :
      {log : List StateTransition} {state : RunState} (t : StateTransition)
      → Trail log state
      → t.from_state ≡ state
      → is_allowed state t.to_state ≡ true
      → Trail (log ++ t ∷ []) t.to_state

-- A run whose log leads from CREATED to its state, and whose counters are within the limits.
abbrev pub Sound : ℕ → OrchestrationRun → Type 0
Sound limit run =
    Trail run.transitions run.state
    × (run.usage.execution_attempts ≤ 1)
    × (run.usage.gate_attempts ≤ suc limit)
    × (run.usage.more_evidence_cycles ≤ limit)

-- A sound run in the given state, with the given usage.
abbrev pub At : ℕ → RunState → UsageLedger → OrchestrationRun → Type 0
At limit state usage run = Sound limit run × (run.state ≡ state) × (run.usage ≡ usage)

moved-Sound :
    (limit now : ℕ) (to_state : RunState) (reason : String) (evidence : Option String)
    (run : OrchestrationRun)
    → Sound limit run
    → is_allowed run.state to_state ≡ true
    → Sound limit (moved to_state reason evidence now run)
moved-Sound limit now to_state reason evidence run sound allowed =
    let (trail, executions, gates, cycles) = sound in
    (move _ trail refl allowed, executions, gates, cycles)

module _ {W : Type 0} (ports : Ports W) (limit : ℕ) (to_state : RunState) (reason : String)
    (evidence : Option String) (s : State W) where
  -- An allowed transition gives the run that it moved; another one raises.
  pub transition-Holds :
      Sound limit s.run
      → Holds
          (λ updated run. At limit to_state s.run.usage updated × (run ≡ s.run))
          (Sound limit)
          (transition ports to_state reason evidence s)
  unfolding transition
  transition-Holds sound = elim (Bool-cases (is_allowed s.run.state to_state)) [
    | inl e ↦ rw e (
        returned _ _
          ((moved-Sound limit _ to_state reason evidence s.run sound e, refl, refl), refl))
    | inr e ↦ rw e (raised _ s sound)
  ]

  -- The run moves when it was recorded, and stays when the transition or the record raises.
  pub transition_and_record-Holds :
      Sound limit s.run
      → Holds
          (λ _. At limit to_state s.run.usage)
          (Sound limit)
          (transition_and_record ports to_state reason evidence s)
  unfolding transition_and_record
  transition_and_record-Holds sound = bind (transition-Holds sound) (λ updated s1 h.
      bind (call-Holds (λ _. Unit) (ports.record_run updated) s1 tt (rw h.1 sound))
        (λ _ s2 u. returned tt _ h.0))
