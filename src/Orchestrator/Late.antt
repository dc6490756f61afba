-- ===== src/Orchestrator/Late.antt =====
-- A run whose time is over when it becomes READY.
use blindspot_remediation.Prelude.{
  String, true, Option, none, some, any, contains, ◌≡◌, refl, arith,
}
use blindspot_remediation.Orchestrator.Models.{
  RunState, TaskRequest, TaskDefinition, OrchestrationRun, RunOutcome,
}
use blindspot_remediation.Orchestrator.Machine.{is_allowed, moved, transition}
use blindspot_remediation.Orchestrator.Budgets.{validate, over_usage, over_time, after_usage}
use blindspot_remediation.Orchestrator.Actions.{
  Failure, over_budget, exception, Result, ok, err, Ports, Action, State, resume,
}
use blindspot_remediation.Orchestrator.Service.{transition_and_record}
use blindspot_remediation.Orchestrator.Execution.{run_body}
use blindspot_remediation.Orchestrator.Handlers.{recover, handle, created, on_over_budget, run_with}
use blindspot_remediation.Orchestrator.Denied.{on_over_budget-escapes}

-- A record of a run is always taken.
abbrev pub TakesRecords : {W : Type 0} → Ports W → Type 0
TakesRecords {W = W} ports =
    (run : OrchestrationRun) (w : W)
    → (reference : String) × ((ports.record_run run w).0 ≡ ok reference)

-- The world after a transition whose record is the given run.
abbrev pub recorded : {W : Type 0} → Ports W → OrchestrationRun → W → W
recorded ports run w = (ports.record_run run (ports.now w).1).1

-- The step returned, and the state has the property.
data Arrives {W : Type 0} (P : State W → Type 0) : Result (Unit {0}) × State W → Type 0 where
  arrived : (s : State W) → P s → Arrives P (ok tt, s)

-- The step found the budget exceeded.
data Exceeds {W A : Type 0} (P : State W → Type 0) : Result A × State W → Type 0 where
  exceeded : (text : String) (s : State W) → P s → Exceeds P (err (over_budget text), s)

arrive_then :
    {W A : Type 0} {P Q : State W → Type 0} (f : Unit {0} → Action W A)
    {x : Result (Unit {0}) × State W}
    → Arrives P x
    → ((s : State W) → P s → Exceeds Q (f tt s))
    → Exceeds Q (resume f x)
arrive_then f (arrived s h) k = k s h

exceed_then :
    {W A B : Type 0} {Q : State W → Type 0} (f : A → Action W B) {x : Result A × State W}
    → Exceeds Q x
    → Exceeds Q (resume f x)
exceed_then f (exceeded text s h) = exceeded text s h

err_then :
    {W A B : Type 0} (f : A → Action W B) (e : Failure) (x : Result A × State W)
    → x.0 ≡ err e
    → ((resume f x).0 ≡ err e) × ((resume f x).1 ≡ x.1)
err_then f e (ok a, s) h = absurd (ground arith)
err_then f e (err e', s) h = (ground arith, refl)

module _ {W : Type 0} (ports : Ports W) (takes : TakesRecords ports) where
  transition_and_record-Arrives :
      (state : RunState) (reason : String) (evidence : Option String) (s : State W)
      → is_allowed s.run.state state ≡ true
      → Arrives
          (λ t.
            (t.run.state ≡ state)
            × (t.run.started_at ≡ s.run.started_at)
            × ((run : OrchestrationRun) × (t.world ≡ recorded ports run s.world)))
          (transition_and_record ports state reason evidence s)
  unfolding transition_and_record transition
  transition_and_record-Arrives state reason evidence s allowed =
      let updated = moved state reason evidence (ports.now s.world).0 s.run in
      let (reference, e) = takes updated (ports.now s.world).1 in
      rw (allowed, e) (arrived _ (refl, refl, (updated, refl)))

  module _ (definition : TaskDefinition) (task : TaskRequest) where
    -- The limits of the usage, or that of the time.
    validate-Exceeds :
        (P : State W → Type 0) (s : State W)
        → over_time definition.budget s.run.started_at (ports.now s.world).0 ≡ true
        → P s
        → P (record s { world = (ports.now s.world).1 })
        → Exceeds P (validate ports definition.budget s)
    unfolding validate
    validate-Exceeds P s late h h' = checked (over_usage definition.budget s.run.usage)
      where
        checked :
            (over : Option String)
            → Exceeds P (after_usage ports definition.budget s.run.started_at over s)
        checked (some text) = exceeded text s h
        checked none = rw late (exceeded _ _ h')

    abbrev IsReady : State W → Type 0
    IsReady s = s.run.state ≡ RunState.ready

    run_body-Exceeds :
        (s : State W)
        → s.run.state ≡ RunState.created
        → any
            (λ pattern. contains pattern task.repository_uri)
            definition.allowed_repository_patterns
          ≡ true
        → ((first second : OrchestrationRun)
            → over_time definition.budget s.run.started_at
                (ports.now (recorded ports second (recorded ports first s.world))).0
              ≡ true)
        → Exceeds IsReady (run_body ports definition task s)
    unfolding run_body
    run_body-Exceeds s new permitted late =
        arrive_then _ (transition_and_record-Arrives RunState.validating _ _ s (rw new refl))
          (λ s1 (at1, start1, (first, world1)). rw permitted (
            arrive_then _ (transition_and_record-Arrives RunState.ready _ _ s1 (rw at1 refl))
              (λ s2 (at2, start2, (second, world2)). exceed_then _ (
                validate-Exceeds IsReady s2
                  (rw (start2, start1, world2, world1) (late first second)) at2 at2))))

    recover-escapes :
        {x : Result (Option RunOutcome) × State W}
        → Exceeds IsReady x
        → ((recover (handle ports) x).0 ≡ err (exception "InvalidStateTransitionError"))
          × ((recover (handle ports) x).1.run.state ≡ RunState.ready)
    recover-escapes (exceeded text s ready) =
        let (same, stays) = on_over_budget-escapes ports text s (rw ready refl) (rw ready refl) in
        let (raised, kept) =
          err_then (λ made t. (ok (some made), t)) _ (on_over_budget ports text s) same in
        (raised, rw kept (rw stays ready))

  -- Where the repository is permitted and records of the run are always taken, and after two
  -- transitions, whatever runs they recorded, the clock is past the time that the budget allows
  -- since the start: the call leaves with InvalidStateTransitionError in place of an outcome, and
  -- its run is in the state READY.
  pub run_with-late :
      (definition : TaskDefinition) (run_id : String) (task : TaskRequest) (w : W)
      → any (λ pattern. contains pattern task.repository_uri) definition.allowed_repository_patterns
        ≡ true
      → ((first second : OrchestrationRun)
          → over_time definition.budget
              (ports.now w).0
              (ports.now (recorded ports second (recorded ports first (ports.now w).1))).0
            ≡ true)
      → ((run_with ports definition run_id task w).0
          ≡ err (exception "InvalidStateTransitionError"))
        × ((run_with ports definition run_id task w).1.run.state ≡ RunState.ready)
  unfolding run_with
  run_with-late definition run_id task w permitted late = recover-escapes definition task (
      run_body-Exceeds definition task (created ports run_id task definition w) refl permitted late)
