-- ===== src/Orchestrator/Meter.antt =====
-- The ports of a run with a meter beside their world: how often the change executor and the gate were
-- called, and how often they returned.
use blindspot_remediation.Prelude.{ℕ, ◌+◌, ◌≤◌, ◌≡◌, arith}
use blindspot_remediation.Orchestrator.Actions.{
  Result, ok, err, Ports, Action, State, resume, in_world, call,
}

pub record Meter : Type 0 where
  pub executed : ℕ
  pub executions_returned : ℕ
  pub evaluated : ℕ
  pub evaluations_returned : ℕ

abbrev pub unread : Meter
unread = record { executed = 0; executions_returned = 0; evaluated = 0; evaluations_returned = 0 }

-- One more where the port returned.
abbrev pub plus_returned : {A : Type 0} → Result A → ℕ → ℕ
plus_returned (ok a) n = n + 1
plus_returned (err e) n = n

abbrev pub after_execute : {A : Type 0} → Result A → Meter → Meter
after_execute r m = record m {
  executed = m.executed + 1;
  executions_returned = plus_returned r m.executions_returned;
}

abbrev pub after_evaluate : {A : Type 0} → Result A → Meter → Meter
after_evaluate r m = record m {
  evaluated = m.evaluated + 1;
  evaluations_returned = plus_returned r m.evaluations_returned;
}

abbrev beside : {W A : Type 0} → Meter → A × W → A × (Meter × W)
beside m (a, w) = (a, (m, w))

abbrev read_by :
    {W A : Type 0} → (Result A → Meter → Meter) → Meter → Result A × W → Result A × (Meter × W)
read_by read m (r, w) = (r, (read r m, w))

-- The given ports, with each call of the executor and of the gate on the meter.
abbrev pub metered : {W : Type 0} → Ports W → Ports (Meter × W)
metered ports = record {
  execute = λ run_id task definition w.
      read_by after_execute w.0 (ports.execute run_id task definition w.1);
  evaluate = λ run_id task candidate definition cycle w.
      read_by after_evaluate w.0 (ports.evaluate run_id task candidate definition cycle w.1);
  record_run = λ run w. beside w.0 (ports.record_run run w.1);
  record_outcome = λ made w. beside w.0 (ports.record_outcome made w.1);
  release = λ run_id task candidate w. beside w.0 (ports.release run_id task candidate w.1);
  now = λ w. beside w.0 (ports.now w.1);
}

-- The ledger of the run counts the calls that returned.
abbrev pub Counted : {W : Type 0} → State (Meter × W) → Type 0
Counted s =
    (s.run.usage.execution_attempts ≡ s.world.0.executions_returned)
    × (s.run.usage.gate_attempts ≡ s.world.0.evaluations_returned)

-- At most so many calls were made between two states, and a ledger that counted still does.
abbrev pub Spent : {W : Type 0} → ℕ → ℕ → State (Meter × W) → State (Meter × W) → Type 0
Spent executions evaluations s t =
    (t.world.0.executed ≤ s.world.0.executed + executions)
    × (t.world.0.evaluated ≤ s.world.0.evaluated + evaluations)
    × (Counted s → Counted t)

-- What an action spends, however it ends.
pub data Costs {W A : Type 0} (executions evaluations : ℕ) (s : State (Meter × W))
    : Result A × State (Meter × W) → Type 0 where
  costs :
      (r : Result A) (t : State (Meter × W))
      → Spent executions evaluations s t
      → Costs executions evaluations s (r, t)

module _ {W : Type 0} where
  -- What came before is added.
  pub onward :
      {B : Type 0} (e g e' g' : ℕ) (s t : State (Meter × W)) (y : Result B × State (Meter × W))
      → Spent e g s t
      → Costs e' g' t y
      → Costs (e + e') (g + g') s y
  onward e g e' g' s t _ (a, b, keeps) (costs r u (c, d, keeps')) =
      costs r u (omega arith, omega arith, λ h. keeps' (keeps h))

  pub spend :
      {A B : Type 0} {e g e' g' : ℕ} {s : State (Meter × W)} {f : A → Action (Meter × W) B}
      {x : Result A × State (Meter × W)}
      → Costs e g s x
      → ((a : A) (t : State (Meter × W)) → Costs e' g' t (f a t))
      → Costs (e + e') (g + g') s (resume f x)
  spend {e = e} {g = g} {e' = e'} {g' = g'} {s = s} {f = f} (costs (ok a) t h) k =
      onward e g e' g' s t (f a t) h (k a t)
  spend (costs (err e) t (a, b, keeps)) k = costs (err e) t (omega arith, omega arith, keeps)

  -- A call that the meter does not count.
  pub call-free :
      {A : Type 0} (port : W → Result A × W) (s : State (Meter × W))
      → Costs 0 0 s (call (λ w. beside w.0 (port w.1)) s)
  call-free port s = told (port s.world.1)
    where
      told : {A : Type 0} (x : Result A × W) → Costs 0 0 s (in_world s (beside s.world.0 x))
      told (r, w) = costs r _ (omega arith, omega arith, λ h. h)

  -- Such a call and what follows it, from a state before them.
  pub call_then :
      {A B : Type 0} {e g : ℕ} (s t : State (Meter × W)) (f : A → Action (Meter × W) B)
      (port : W → Result A × W)
      → ((a : A) (w : W) → Costs e g s (f a (record t { world = (t.world.0, w) })))
      → ((w : W) → Spent e g s (record t { world = (t.world.0, w) }))
      → Costs e g s (resume f (call (λ w. beside w.0 (port w.1)) t))
  call_then {A = A} {e = e} {g = g} s t f port k h = told (port t.world.1)
    where
      told : (x : Result A × W) → Costs e g s (resume f (in_world t (beside t.world.0 x)))
      told (ok a, w) = k a w
      told (err failure, w) = costs (err failure) _ (h w)
