-- ===== src/Orchestrator/Budgets.antt =====
-- A9-orchestrator/src/ai_engineering_orchestrator/budgets.py: the limits of a run.
use blindspot_remediation.Prelude.{ℕ, String, Bool, Option, none, some, ltb, ◌-◌, if◌then◌else◌}
use Prim.Native.Nat.{◌*◌}
use blindspot_remediation.Orchestrator.Models.{ResourceBudget, UsageLedger}
use blindspot_remediation.Orchestrator.Actions.{
  Ports, Action, over_budget, pure, raise, ◌>>=◌, clock, get_run,
}

-- The limits on what was used: the text of the first one that is exceeded.
unfoldable pub over_usage : ResourceBudget → UsageLedger → Option String
over_usage budget usage =
    if ltb budget.maximum_execution_attempts usage.execution_attempts
    then some "Maximum change-execution attempts exceeded."
    else if ltb budget.maximum_gate_attempts usage.gate_attempts
    then some "Maximum release-gate attempts exceeded."
    else if ltb budget.maximum_total_llm_input_tokens usage.input_tokens
    then some "Maximum LLM input-token budget exceeded."
    else if ltb budget.maximum_total_llm_output_tokens usage.output_tokens
    then some "Maximum LLM output-token budget exceeded."
    else if ltb budget.maximum_total_llm_requests usage.llm_requests
    then some "Maximum LLM request budget exceeded."
    else none

-- `elapsed > budget.maximum_elapsed_seconds`, in microseconds
abbrev pub over_time : ResourceBudget → ℕ → ℕ → Bool
over_time budget started_at now =
    ltb (budget.maximum_elapsed_seconds * 1_000_000) (now - started_at)

abbrev check_time : {W : Type 0} → ResourceBudget → ℕ → ℕ → Action W (Unit {0})
check_time budget started_at now =
    if over_time budget started_at now
    then raise (over_budget "Maximum orchestration elapsed-time budget exceeded.")
    else pure tt

-- The test of the elapsed time, after those of the usage; the clock is read for it alone.
abbrev pub after_usage :
    {W : Type 0} → Ports W → ResourceBudget → ℕ → Option String → Action W (Unit {0})
after_usage ports budget started_at (some text) = raise (over_budget text)
after_usage ports budget started_at none = clock ports >>= λ now. check_time budget started_at now

-- `BudgetManager.validate`, of the usage and the start of the current run.
unfoldable pub validate : {W : Type 0} → Ports W → ResourceBudget → Action W (Unit {0})
unfolding over_usage
validate ports budget = do
  run ← get_run
  after_usage ports budget run.started_at (over_usage budget run.usage)
