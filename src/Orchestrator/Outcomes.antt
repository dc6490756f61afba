-- ===== src/Orchestrator/Outcomes.antt =====
-- What a whole call of `run` guarantees: its log, its counters, its end and its outcome.
use blindspot_remediation.Prelude.{
  ◌≤◌, String, ap, Bool, true, false, ◌||◌, Option, none, some, List, [], ◌∷◌, any, any-append, ◌≡◌,
  ◌≢◌, refl, sym, ◌∙◌, arith,
}
use blindspot_remediation.Orchestrator.Models.{
  RunState, FinalDisposition, TaskRequest, TaskDefinition, StateTransition, OrchestrationRun,
  RunOutcome,
}
use blindspot_remediation.Orchestrator.Machine.{is_allowed}
use blindspot_remediation.Orchestrator.Actions.{Result, ok, err, Ports, State}
use blindspot_remediation.Orchestrator.Handlers.{run_with}
use blindspot_remediation.Orchestrator.Triples.{Holds, returned, raised}
use blindspot_remediation.Orchestrator.Trails.{Trail, start, move, Sound}
use blindspot_remediation.Orchestrator.Endings.{agrees, limit}
use blindspot_remediation.Orchestrator.Rounds.{LoopEnds}
use blindspot_remediation.Orchestrator.Runs.{run_with-Holds}

-- The move that a passing gate makes.
abbrev pub is_gate_pass : RunState → RunState → Bool
is_gate_pass RunState.gating RunState.ready_for_release = true
is_gate_pass _ _ = false

abbrev pub was_passed : List StateTransition → Bool
was_passed log = any (λ t. is_gate_pass t.from_state t.to_state) log

-- A state from which a release is at most one move away.
abbrev is_past_gate : RunState → Bool
is_past_gate RunState.ready_for_release = true
is_past_gate RunState.released = true
is_past_gate _ = false

passes_gate :
    (from to : RunState)
    → is_allowed from to ≡ true
    → is_past_gate to ≡ true
    → (is_past_gate from || is_gate_pass from to) ≡ true
passes_gate from to e h = ground arith

Trail-was_passed :
    {log : List StateTransition} {state : RunState}
    → Trail log state
    → is_past_gate state ≡ true
    → was_passed log ≡ true
Trail-was_passed start h = ground arith
Trail-was_passed (move {log = log} {state = state} t trail e allowed) h = ground (
  arith,
  any-append (λ t. is_gate_pass t.from_state t.to_state) log (t ∷ []),
  Trail-was_passed trail,
  passes_gate state t.to_state allowed h,
  e,
)

abbrev value_or : {A : Type 0} → A → Result A → A
value_or a (ok b) = b
value_or a (err _) = a

module _ {W A : Type 0} {E : OrchestrationRun → Type 0} {Q : A → OrchestrationRun → Type 0} where
  Holds-run :
      {x : Result A × State W} (S : OrchestrationRun → Type 0)
      → Holds Q E x
      → ((a : A) (run : OrchestrationRun) → Q a run → S run)
      → ((run : OrchestrationRun) → E run → S run)
      → S x.1.run
  Holds-run S (returned a s h) j k = j a s.run h
  Holds-run S (raised e s h) j k = k s.run h

  pub Holds-value : {x : Result A × State W} (a : A) → Holds Q E x → x.0 ≡ ok a → Q a x.1.run
  Holds-value a (returned b s h) e = rw (← ap (value_or b) e) h
  Holds-value a (raised f s h) e = ground arith

released_agrees :
    (definition : TaskDefinition) (disposition : FinalDisposition) (state : RunState)
    → disposition ≡ FinalDisposition.released
    → agrees definition disposition state ≡ true
    → (definition.automatic_release_allowed ≡ true) × (state ≡ RunState.released)
released_agrees definition disposition state d e = ground (arith, d, e)

module _ {W : Type 0} (ports : Ports W) (definition : TaskDefinition) (run_id : String)
    (task : TaskRequest) (w : W) where
  run_with-Sound : Sound (limit definition) (run_with ports definition run_id task w).1.run
  run_with-Sound =
      Holds-run (Sound (limit definition)) (run_with-Holds ports definition task run_id w) ended
        (λ run h. h)
    where
      ended :
          (o : Option RunOutcome) (run : OrchestrationRun)
          → LoopEnds definition o run
          → Sound (limit definition) run
      ended none run h = absurd h
      ended (some made) run h = h.0

  -- However a call of the orchestrator's `run` ends, the transitions recorded in its run lead from
  -- CREATED to the run's state, each allowed by the state machine.
  pub run_with-Trail :
      let run = (run_with ports definition run_id task w).1.run in Trail run.transitions run.state
  run_with-Trail = run_with-Sound.0

  -- However a call of `run` ends, it counted no more cycles than the definition allows.
  pub run_with-cycles :
      (run_with ports definition run_id task w).1.run.usage.more_evidence_cycles
      ≤ definition.maximum_more_evidence_cycles
  run_with-cycles = let (trail, executions, gates, cycles) = run_with-Sound in cycles

  -- The loop over the gate ends: one pass more than the evidence cycles that the definition allows
  -- is never too few.
  pub run_with-ends : (run_with ports definition run_id task w).0 ≢ ok none
  run_with-ends e = Holds-value none (run_with-Holds ports definition task run_id w) e

  -- A returned outcome has the state and the usage of the run, and its disposition agrees with
  -- that state.
  pub run_with-agrees :
      (made : RunOutcome)
      → (run_with ports definition run_id task w).0 ≡ ok (some made)
      → let run = (run_with ports definition run_id task w).1.run in
        (made.final_state ≡ run.state)
        × (made.usage ≡ run.usage)
        × (agrees definition made.disposition made.final_state ≡ true)
  run_with-agrees made e =
      let (sound, state, usage, agreed) =
        Holds-value (some made) (run_with-Holds ports definition task run_id w) e in
      (state, usage, agreed)

  -- An outcome RELEASED is returned only if the definition allows automatic releases, the run is
  -- in the state RELEASED, and its log has the move that a passing gate makes.
  pub run_with-released :
      (made : RunOutcome)
      → (run_with ports definition run_id task w).0 ≡ ok (some made)
      → made.disposition ≡ FinalDisposition.released
      → let run = (run_with ports definition run_id task w).1.run in
        (definition.automatic_release_allowed ≡ true)
        × (run.state ≡ RunState.released)
        × (was_passed run.transitions ≡ true)
  run_with-released made e d =
      let (state, usage, agreed) = run_with-agrees made e in
      let (allowed, released) =
        released_agrees definition made.disposition made.final_state d agreed in
      (allowed, sym state ∙ released, Trail-was_passed run_with-Trail (rw (← state, released) refl))
