-- ===== src/Orchestrator/Actions.antt =====
-- The state that a call of `EngineeringAutomationOrchestrator.run` changes, and the ports that it
-- calls. The ports and the clock change a world `W` of their own and may raise.
use blindspot_remediation.Prelude.{ℕ, String, List, [], ◌∷◌, ◌++◌}
use blindspot_remediation.Orchestrator.Models.{
  TaskRequest, TaskDefinition, CandidatePatch, ChangeExecutionResult, ReleaseGateResult,
  OrchestrationRun, RunOutcome,
}

-- An exception: a `BudgetExceededError` with its text, or another one with the name of its class.
pub data Failure : Type 0 where
  over_budget : String → Failure
  exception : String → Failure

pub data Result (A : Type 0) : Type 0 where
  ok : A → Result A
  err : Failure → Result A

-- ports.py
pub record Ports (W : Type 0) : Type 0 where
  pub execute : String → TaskRequest → TaskDefinition → W → Result ChangeExecutionResult × W
  pub evaluate :
      String → TaskRequest → CandidatePatch → TaskDefinition → ℕ → W → Result ReleaseGateResult × W
  pub record_run : OrchestrationRun → W → Result String × W
  pub record_outcome : RunOutcome → W → Result String × W
  pub release : String → TaskRequest → CandidatePatch → W → Result String × W
  pub now : W → ℕ × W

-- The locals of `run` that its handlers read, and the world of the ports.
pub record State (W : Type 0) : Type 0 where
  pub run : OrchestrationRun
  pub evidence_references : List String
  pub reason_codes : List String
  pub world : W

abbrev pub Action : Type 0 → Type 0 → Type 0
Action W A = State W → Result A × State W

module _ {W : Type 0} where
  abbrev pub pure : {A : Type 0} → A → Action W A
  pure a s = (ok a, s)

  abbrev pub raise : {A : Type 0} → Failure → Action W A
  raise e s = (err e, s)

  -- What comes after a step that returned or raised.
  abbrev pub resume : {A B : Type 0} → (A → Action W B) → Result A × State W → Result B × State W
  resume f (ok a, s) = f a s
  resume f (err e, s) = (err e, s)

  infixl 5 ◌>>=◌ ◌>>◌
  abbrev pub ◌>>=◌ : {A B : Type 0} → Action W A → (A → Action W B) → Action W B
  ◌>>=◌ m f s = resume f (m s)

  abbrev pub ◌>>◌ : {A B : Type 0} → Action W A → Action W B → Action W B
  m >> k = m >>= λ _. k

  abbrev pub in_world : {A : Type 0} → State W → Result A × W → Result A × State W
  in_world s (r, w) = (r, record s { world = w })

  -- A call of a port.
  abbrev pub call : {A : Type 0} → (W → Result A × W) → Action W A
  call port s = in_world s (port s.world)

  abbrev pub clock : Ports W → Action W ℕ
  clock ports s = let (t, w) = ports.now s.world in (ok t, record s { world = w })

  abbrev pub get_run : Action W OrchestrationRun
  get_run s = (ok s.run, s)

  abbrev pub set_run : OrchestrationRun → Action W (Unit {0})
  set_run run s = (ok tt, record s { run = run })

  abbrev pub add_evidence : String → Action W (Unit {0})
  add_evidence reference s =
      (ok tt, record s { evidence_references = s.evidence_references ++ reference ∷ [] })

  abbrev pub add_reasons : List String → Action W (Unit {0})
  add_reasons reasons s = (ok tt, record s { reason_codes = s.reason_codes ++ reasons })
