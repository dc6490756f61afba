-- ===== src/Orchestrator/Triples.antt =====
-- Pre- and postconditions of the steps of a run: what holds of the run when a step returned, and what
-- holds of it when the step raised. The ports are arbitrary.
use blindspot_remediation.Prelude.{true, ◌≡◌, refl}
use blindspot_remediation.Prelude.{Bool, true, false, if◌then◌else◌, ◌≡◌, refl}
use blindspot_remediation.Orchestrator.Models.{OrchestrationRun}
use blindspot_remediation.Orchestrator.Actions.{
  Failure, Result, ok, err, Action, State, call, in_world, resume,
}

-- `Q` of the value and the run after a return, `E` of the run after a raise.
pub data Holds {W A : Type 0} (Q : A → OrchestrationRun → Type 0) (E : OrchestrationRun → Type 0)
    : Result A × State W → Type 0 where
  returned : (a : A) (s : State W) → Q a s.run → Holds Q E (ok a, s)
  raised : (e : Failure) (s : State W) → E s.run → Holds Q E (err e, s)

pub bind :
    {W A B : Type 0} {E : OrchestrationRun → Type 0} {Q : A → OrchestrationRun → Type 0}
    {R : B → OrchestrationRun → Type 0} {f : A → Action W B} {x : Result A × State W}
    → Holds Q E x
    → ((a : A) (s : State W) → Q a s.run → Holds R E (f a s))
    → Holds R E (resume f x)
bind (returned a s h) k = k a s h
bind (raised e s h) k = raised e s h

pub weaken :
    {W A : Type 0} {E : OrchestrationRun → Type 0} {Q R : A → OrchestrationRun → Type 0}
    {x : Result A × State W}
    → Holds Q E x
    → ((a : A) (s : State W) → Q a s.run → R a s.run)
    → Holds R E x
weaken (returned a s h) k = returned a s (k a s h)
weaken (raised e s h) k = raised e s h

-- A test, with what it says in each branch.
pub branch :
    {W A : Type 0} {E : OrchestrationRun → Type 0} {Q : A → OrchestrationRun → Type 0} (b : Bool)
    (m n : Action W A) (s : State W)
    → (b ≡ true → Holds Q E (m s))
    → (b ≡ false → Holds Q E (n s))
    → Holds Q E ((if b then m else n) s)
branch true m n s h k = h refl
branch false m n s h k = k refl

module _ {W A : Type 0} {E : OrchestrationRun → Type 0} (P : OrchestrationRun → Type 0) where
  in_world-Holds :
      (s : State W) (x : Result A × W) → P s.run → E s.run → Holds (λ _ r. P r) E (in_world s x)
  in_world-Holds s (ok a, w) p e = returned a _ p
  in_world-Holds s (err f, w) p e = raised f _ e

  -- A port leaves the run as it is.
  pub call-Holds :
      (port : W → Result A × W) (s : State W)
      → P s.run
      → E s.run
      → Holds (λ _ r. P r) E (call port s)
  call-Holds port s p e = in_world-Holds s (port s.world) p e
