-- ===== src/Engine/Unpopped.antt =====
-- When a record of a run keeps its entry `check_reason_codes`, which the manifest's schema does not allow.
use blindspot_remediation.Prelude.{
  Bool, true, false, ◌||◌, Option, none, some, List, [], ◌∷◌, ◌++◌, if◌then◌else◌, ◌≡◌, ◌↔◌, ◌⊎◌,
  refl, sym, ◌∙◌, arith, Bool-cases, inl, inr,
}
use blindspot_remediation.Policy.{CheckOutcome}
use blindspot_remediation.Engine.Records.{Side, CheckControl, Execution, is_differential}
use blindspot_remediation.Engine.Schedule.{
  Runner, Progress, skip_checks, run_candidate, run_differential, run_checks, baseline_entries,
  popped,
}
use blindspot_remediation.Engine.Codes.{
  any_keeps, keeps_codes, skip_checks-keeps, append-none, popped-keeps, stop_at_baseline-keeps,
}

no_cause : {C : Type 0} (a b : Bool) → b ≡ a → (C → ⊥) → (b ≡ true) ↔ ((a ≡ true) ⊎ C)
no_cause a b e n = (λ h. inl (sym e ∙ h), λ c. elim c [ inl h ↦ e ∙ h | inr x ↦ absurd (n x) ])

same_cause :
    {C D : Type 0} (a a' b : Bool)
    → a' ≡ a
    → (b ≡ true) ↔ ((a' ≡ true) ⊎ C)
    → (C → D)
    → (D → C)
    → (b ≡ true) ↔ ((a ≡ true) ⊎ D)
same_cause a a' b e h to from = (
  λ t. elim (h.0 t) [ inl x ↦ inl (sym e ∙ x) | inr c ↦ inr (to c) ],
  λ x. elim x [ inl t ↦ h.1 (inl (e ∙ t)) | inr d ↦ h.1 (inr (from d)) ],
)

or_cause :
    {D : Type 0} (a b c : Bool)
    → b ≡ (a || c)
    → (c ≡ true → D)
    → (D → c ≡ true)
    → (b ≡ true) ↔ ((a ≡ true) ⊎ D)
or_cause true b c e to from = (λ h. inl refl, λ x. e)
or_cause false b c e to from =
    (λ h. inr (to (sym e ∙ h)), λ x. elim x [ inl t ↦ absurd (ground arith) | inr d ↦ e ∙ from d ])

module _ {N W : Type 0} (runner : Runner N W) where
  -- The world after the base side of a check.
  abbrev pub after_base : CheckControl N → W → W
  after_base control w = (runner.execute_check control Side.base w).1

  -- The checks, begun in the given world, come to a differential check whose base side exhausts the
  -- budget with reasons of its reports.
  pub data Unpopped : List (CheckControl N) → W → Type 0 where
    at_baseline :
        {control : CheckControl N} {controls : List (CheckControl N)} {w : W}
        → is_differential control.check.mode ≡ true
        → (runner.execute_check control Side.base w).0.budget_exhausted ≡ true
        → keeps_codes (runner.execute_check control Side.base w).0.entry ≡ true
        → Unpopped (control ∷ controls) w
    past_candidate :
        {control : CheckControl N} {controls : List (CheckControl N)} {w : W}
        → is_differential control.check.mode ≡ false
        → (runner.execute_check control Side.candidate w).0.budget_exhausted ≡ false
        → Unpopped controls (runner.execute_check control Side.candidate w).1
        → Unpopped (control ∷ controls) w
    past_both :
        {control : CheckControl N} {controls : List (CheckControl N)} {w : W}
        → is_differential control.check.mode ≡ true
        → (runner.execute_check control Side.base w).0.budget_exhausted ≡ false
        → (runner.execute_check control Side.candidate (after_base control w)).0.budget_exhausted
          ≡ false
        → Unpopped controls (runner.execute_check control Side.candidate (after_base control w)).1
        → Unpopped (control ∷ controls) w

  at_its_baseline :
      {control : CheckControl N} {controls : List (CheckControl N)} {w : W}
      → is_differential control.check.mode ≡ true
      → (runner.execute_check control Side.base w).0.budget_exhausted ≡ true
      → Unpopped (control ∷ controls) w
      → keeps_codes (runner.execute_check control Side.base w).0.entry ≡ true
  at_its_baseline d e (at_baseline d' e' kept) = kept
  at_its_baseline d e (past_candidate d' e' u) = absurd (ground arith)
  at_its_baseline d e (past_both d' e' c u) = absurd (ground arith)

  past_its_baseline :
      {control : CheckControl N} {controls : List (CheckControl N)} {w : W}
      → is_differential control.check.mode ≡ true
      → (runner.execute_check control Side.base w).0.budget_exhausted ≡ false
      → Unpopped (control ∷ controls) w
      → let current = runner.execute_check control Side.candidate (after_base control w) in
        (current.0.budget_exhausted ≡ false) × Unpopped controls current.1
  past_its_baseline d e (at_baseline d' e' kept) = absurd (ground arith)
  past_its_baseline d e (past_candidate d' e' u) = absurd (ground arith)
  past_its_baseline d e (past_both d' e' c u) = (c, u)

  past_its_candidate :
      {control : CheckControl N} {controls : List (CheckControl N)} {w : W}
      → is_differential control.check.mode ≡ false
      → Unpopped (control ∷ controls) w
      → let current = runner.execute_check control Side.candidate w in
        (current.0.budget_exhausted ≡ false) × Unpopped controls current.1
  past_its_candidate d (at_baseline d' e' kept) = absurd (ground arith)
  past_its_candidate d (past_candidate d' c u) = (c, u)
  past_its_candidate d (past_both d' e' c u) = absurd (ground arith)

  -- The records keep an entry exactly when they did before, or for the given cause.
  abbrev Keeps : Type 0 → Progress N W → List (CheckOutcome N) × Progress N W → Type 0
  Keeps cause p x = (any_keeps x.1.records ≡ true) ↔ ((any_keeps p.records ≡ true) ⊎ cause)

  module _ (control : CheckControl N) (controls : List (CheckControl N))
      (next : Progress N W → List (CheckOutcome N) × Progress N W)
      (keeps : (p : Progress N W) → Keeps (Unpopped controls p.world) p (next p)) where
    continue-Keeps :
        (exhausted : Bool) (p p' : Progress N W)
        → any_keeps p'.records ≡ any_keeps p.records
        → Keeps
            ((exhausted ≡ false) × Unpopped controls p'.world)
            p
            (if exhausted then skip_checks runner controls p' else next p')
    continue-Keeps true p p' same =
        no_cause _ _ (skip_checks-keeps runner controls p' ∙ same) (λ c. absurd (ground arith))
    continue-Keeps false p p' same = same_cause _ _ _ same (keeps p') (λ u. (refl, u)) (λ c. c.1)

    run_candidate-Keeps :
        (baseline : Option (Execution N)) (p : Progress N W)
        → let current = runner.execute_check control Side.candidate p.world in
          Keeps
            ((current.0.budget_exhausted ≡ false) × Unpopped controls current.1)
            p
            (run_candidate runner control controls next baseline p)
    run_candidate-Keeps baseline p =
        let current = runner.execute_check control Side.candidate p.world in
        let entries = baseline_entries runner baseline ++ popped runner current.0.entry ∷ [] in
        continue-Keeps current.0.budget_exhausted p
          (record { records = p.records ++ entries; world = current.1 })
          (append-none runner p.records entries (popped-keeps runner baseline current.0))

    run_differential-Keeps :
        is_differential control.check.mode ≡ true
        → (p : Progress N W)
        → Keeps
            (Unpopped (control ∷ controls) p.world)
            p
            (run_differential runner control controls next p)
    run_differential-Keeps d p =
        let baseline = runner.execute_check control Side.base p.world in
        let p' : Progress N W = record p { world = baseline.1 } in
        elim (Bool-cases baseline.0.budget_exhausted) [
          | inl e ↦ rw e (
              or_cause _ _ _ (stop_at_baseline-keeps runner control controls baseline.0 p')
                (λ kept. at_baseline d e kept) (at_its_baseline d e))
          | inr e ↦ rw e (
              same_cause _ _ _ refl (run_candidate-Keeps (some baseline.0) p')
                (λ c. past_both d e c.0 c.1) (past_its_baseline d e))
        ]

  none_left : {w : W} → Unpopped [] w → ⊥
  none_left u = elim u [ ]

  run_checks-Keeps :
      (controls : List (CheckControl N)) (p : Progress N W)
      → Keeps (Unpopped controls p.world) p (run_checks runner controls p)
  unfolding run_checks
  run_checks-Keeps [] p = no_cause _ _ refl none_left
  run_checks-Keeps (control ∷ controls) p =
      let next = λ (p' : Progress N W). run_checks runner controls p' in
      let keeps = λ (p' : Progress N W). run_checks-Keeps controls p' in
      elim (Bool-cases (is_differential control.check.mode)) [
        | inl d ↦ rw d (run_differential-Keeps control controls next keeps d p)
        | inr d ↦ rw d (
            same_cause _ _ _ refl (run_candidate-Keeps control controls next keeps none p)
              (λ c. past_candidate d c.0 c.1) (past_its_candidate d))
      ]

  -- Over all checks of a run from its first record on: some record keeps an entry
  -- `check_reason_codes` exactly when the checks come to a differential check whose base side
  -- exhausts the budget with reasons of its reports.
  pub run_checks-Unpopped :
      (controls : List (CheckControl N)) (w : W)
      → (any_keeps (run_checks runner controls (record { records = []; world = w })).1.records
          ≡ true)
        ↔ Unpopped controls w
  run_checks-Unpopped controls w =
      let (to, from) = run_checks-Keeps controls (record { records = []; world = w }) in
      (λ h. elim (to h) [ inl x ↦ absurd (ground arith) | inr u ↦ u ], λ u. from (inr u))
