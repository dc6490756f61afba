-- ===== src/Engine/Codes.antt =====
-- The entries `check_reason_codes` that the records of a run keep; those of skipped controls have none.
use blindspot_remediation.Prelude.{
  ℕ, Bool, false, not, ◌||◌, Option, none, some, List, [], ◌∷◌, ◌++◌, any, any-append, is_empty,
  ◌≡◌, refl, ◌∙◌, arith,
}
use blindspot_remediation.Config.CommandSpecs.{resolve}
use blindspot_remediation.Engine.Records.{
  Phase, Side, CheckControl, ExecutionRecord, Execution, is_differential, sides_of, skipped_record,
  skip_check, skipped_checks,
}
use blindspot_remediation.Engine.Schedule.{
  Runner, Progress, budget_reason, adding, skip_rest, skip_checks, stop_at_baseline,
  baseline_entries, popped,
}

-- The record has the entry.
abbrev pub keeps_codes : {N : Type 0} → ExecutionRecord N → Bool
keeps_codes entry = not (is_empty entry.check_reason_codes)

abbrev pub any_keeps : {N : Type 0} → List (ExecutionRecord N) → Bool
any_keeps records = any keeps_codes records

module _ {N W : Type 0} (runner : Runner N W) where
  append-keeps :
      (xs ys : List (ExecutionRecord N)) (b : Bool)
      → any_keeps ys ≡ b
      → any_keeps (xs ++ ys) ≡ (any_keeps xs || b)
  append-keeps xs ys b e = any-append keeps_codes xs ys ∙ rw e refl

  pub append-none :
      (xs ys : List (ExecutionRecord N))
      → any_keeps ys ≡ false
      → any_keeps (xs ++ ys) ≡ any_keeps xs
  append-none xs ys e = ground (arith, append-keeps xs ys false e)

  skip_check-keeps :
      (now : ℕ) (sides : List Side) (control : CheckControl N)
      → any_keeps (skip_check runner.upper runner.family budget_reason now sides control) ≡ false
  unfolding skipped_record
  skip_check-keeps now [] control = refl
  skip_check-keeps now (side ∷ sides) control = skip_check-keeps now sides control

  skipped_checks-keeps :
      (now : ℕ) (controls : List (CheckControl N))
      → any_keeps (skipped_checks runner.upper runner.family budget_reason now controls) ≡ false
  unfolding skipped_checks
  skipped_checks-keeps now [] = refl
  skipped_checks-keeps now (control ∷ controls) =
      let sides = sides_of (is_differential control.check.mode) in
      append-none (skip_check runner.upper runner.family budget_reason now sides control) _
        (skipped_checks-keeps now controls)
      ∙ skip_check-keeps now sides control

  pub skip_checks-keeps :
      (controls : List (CheckControl N)) (p : Progress N W)
      → any_keeps (skip_checks runner controls p).1.records ≡ any_keeps p.records
  skip_checks-keeps controls p =
      append-none p.records _ (skipped_checks-keeps (runner.now p.world).0 controls)

  pub popped-keeps :
      (baseline : Option (Execution N)) (current : Execution N)
      → any_keeps (baseline_entries runner baseline ++ popped runner current.entry ∷ []) ≡ false
  popped-keeps none current = refl
  popped-keeps (some baseline) current = refl

  pub stop_at_baseline-keeps :
      (control : CheckControl N) (controls : List (CheckControl N)) (baseline : Execution N)
      (p : Progress N W)
      → any_keeps (stop_at_baseline runner control controls baseline p).1.records
        ≡ (any_keeps p.records || keeps_codes baseline.entry)
  unfolding skipped_record
  stop_at_baseline-keeps control controls baseline p =
      let p1 = adding runner (baseline.entry ∷ []) p in
      let skip = λ (now : ℕ).
        skipped_record {N = N} control.check.id Phase.check Side.candidate
          (resolve runner.upper control.command runner.family) budget_reason now runner.family
        ∷ [] in
      skip_checks-keeps controls (skip_rest runner skip p1)
      ∙ (append-none p1.records (skip (runner.now p1.world).0) refl
          ∙ append-keeps p.records (baseline.entry ∷ []) (keeps_codes baseline.entry)
              (ground arith))
