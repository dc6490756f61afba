-- ===== src/Policy/Reasons.antt =====
-- `aggregate_verdict`: which reasons it reports, and in which order.
use blindspot_remediation.Prelude.{
  String, Bool, true, false, not, ◌&&◌, ◌||◌, List, [], ◌∷◌, any, mem, ◌≡◌, ◌∙◌, arith,
  if◌then◌else◌, mem-append, mem-sorted_set, mem-keep, ascending, sorted_set-ascending,
}
use blindspot_remediation.Policy.{
  Verdict, passes, ScopeOutcome, CheckOutcome, is_diagnostic, verdict_reasons,
}
use blindspot_remediation.Policy.Aggregate.{
  Tally, absorb, absorb_all, decide_tally, opening, aggregate_verdict,
}
use blindspot_remediation.Policy.Verdicts.{says}

or_assoc : (a b c : Bool) → ((a || b) || c) ≡ (a || (b || c))
or_assoc a b c = ground arith

-- A PASS is reported with no reasons, another verdict with all that contributed.
decide_tally-mem :
    (r : String) (t : Tally)
    → mem r (decide_tally t).reason_codes
      ≡ (if passes (decide_tally t).verdict then false else mem r t.contributing)
unfolding decide_tally
decide_tally-mem r t = ground (arith, mem-sorted_set r t.contributing, mem-sorted_set r [])

decide_tally-ascending : (t : Tally) → ascending (decide_tally t).reason_codes ≡ true
unfolding decide_tally
decide_tally-ascending t =
    ground (arith, sorted_set-ascending t.contributing, sorted_set-ascending [])

module _ {N : Type 0} where
  -- A check that bears on the verdict reports a reason unless it is a mere diagnostic.
  abbrev pub reports : String → CheckOutcome N → Bool
  reports r c = elim (says c.status c.severity) [
    | Verdict.pass ↦ false
    | Verdict.fail ↦ not (is_diagnostic r) && mem r c.reason_codes
    | Verdict.needs_human ↦ not (is_diagnostic r) && mem r c.reason_codes
  ]

  absorb-mem :
      (r : String) (c : CheckOutcome N) (t : Tally)
      → mem r (absorb c.status c.severity c.reason_codes t).contributing
        ≡ (mem r t.contributing || reports r c)
  unfolding absorb
  absorb-mem r c t = ground (
    arith,
    mem-append r t.contributing (verdict_reasons c.reason_codes),
    mem-keep r (λ s. not (is_diagnostic s)) c.reason_codes,
  )

  absorb_all-mem :
      (r : String) (checks : List (CheckOutcome N)) (t : Tally)
      → mem r (absorb_all checks t).contributing ≡ (mem r t.contributing || any (reports r) checks)
  unfolding absorb_all
  absorb_all-mem r [] t = ground arith
  absorb_all-mem r (c ∷ checks) t =
      let t' = absorb c.status c.severity c.reason_codes t in
      absorb_all-mem r checks t'
      ∙ cc (absorb-mem r c t)
      ∙ or_assoc (mem r t.contributing) (reports r c) (any (reports r) checks)

  -- A PASS is reported without reasons; another verdict is reported with the reasons of the scope,
  -- those of the run, and the reasons, the two harmless diagnostics excepted, of the checks that
  -- bear on it.
  pub aggregate_verdict-mem :
      (scope : ScopeOutcome) (checks : List (CheckOutcome N)) (run_reasons : List String)
      (r : String)
      → let d = aggregate_verdict scope checks run_reasons in
        mem r d.reason_codes ≡ (
          if passes d.verdict
          then false
          else mem r scope.reason_codes || (mem r run_reasons || any (reports r) checks))
  unfolding aggregate_verdict
  aggregate_verdict-mem scope checks run_reasons r =
      decide_tally-mem r (absorb_all checks (opening scope run_reasons))
      ∙ cc (
        absorb_all-mem r checks (opening scope run_reasons),
        mem-append r scope.reason_codes run_reasons,
        or_assoc (mem r scope.reason_codes) (mem r run_reasons) (any (reports r) checks),
      )

  -- The reasons of a run's verdict stand in ascending order, without repetition.
  pub aggregate_verdict-ascending :
      (scope : ScopeOutcome) (checks : List (CheckOutcome N)) (run_reasons : List String)
      → ascending (aggregate_verdict scope checks run_reasons).reason_codes ≡ true
  unfolding aggregate_verdict
  aggregate_verdict-ascending scope checks run_reasons =
      decide_tally-ascending (absorb_all checks (opening scope run_reasons))
