-- ===== src/Engine/Slots.antt =====
-- The controls and sides that the records of a run stand for, in their order.
use blindspot_remediation.Prelude.{
  ℕ, String, Bool, true, false, Option, none, some, List, [], ◌∷◌, ◌++◌, map, ◌≡◌, refl, sym, ap,
  ◌∙◌, append-nil, append_assoc, Bool-cases, inl, inr, if◌then◌else◌,
}
use mathlib.Core.List.{map-append}
use blindspot_remediation.Config.{PlatformName}
use blindspot_remediation.Config.CommandSpecs.{resolve}
use blindspot_remediation.Policy.{CheckOutcome}
use blindspot_remediation.Engine.Records.{
  Phase, Side, CheckControl, ExecutionRecord, Execution, is_differential, sides_of, skipped_record,
  skip_check, skipped_checks,
}
use blindspot_remediation.Engine.Schedule.{
  Runner, Progress, budget_reason, adding, skip_rest, skip_checks, run_candidate, stop_at_baseline,
  run_differential, run_checks, baseline_entries, popped,
}

abbrev pub Slot : Type 0
Slot = String × (Phase × Side)

module _ {N : Type 0} where
  abbrev pub slot_of : ExecutionRecord N → Slot
  slot_of entry = (entry.control_id, (entry.phase, entry.side))

  abbrev pub slots : List (ExecutionRecord N) → List Slot
  slots records = map slot_of records

  abbrev pub check_slot : CheckControl N → Side → Slot
  check_slot control side = (control.check.id, (Phase.check, side))

  abbrev pub control_slots : List Side → CheckControl N → List Slot
  control_slots sides control = map (λ side. (control.check.id, (Phase.check, side))) sides

  -- The sides of the checks, in the order of the configuration, base before candidate.
  abbrev pub check_slots : List (CheckControl N) → List Slot
  check_slots [] = []
  check_slots (control ∷ controls) =
      control_slots (sides_of (is_differential control.check.mode)) control ++ check_slots controls

  module _ (upper : String → String) (family : PlatformName) (reasons : List String) (now : ℕ) where
    skip_check-slots :
        (sides : List Side) (control : CheckControl N)
        → slots (skip_check upper family reasons now sides control) ≡ control_slots sides control
    unfolding skipped_record
    skip_check-slots [] control = refl
    skip_check-slots (side ∷ sides) control =
        ap (λ xs. (control.check.id, (Phase.check, side)) ∷ xs) (skip_check-slots sides control)

    pub skipped_checks-slots :
        (controls : List (CheckControl N))
        → slots (skipped_checks upper family reasons now controls) ≡ check_slots controls
    unfolding skipped_checks
    skipped_checks-slots [] = refl
    skipped_checks-slots (control ∷ controls) =
        let sides = sides_of (is_differential control.check.mode) in
        map-append _ (skip_check upper family reasons now sides control)
          (skipped_checks upper family reasons now controls)
        ∙ (ap (λ xs. xs ++ slots (skipped_checks upper family reasons now controls))
              (skip_check-slots sides control)
            ∙ ap (λ xs. control_slots sides control ++ xs) (skipped_checks-slots controls))

module _ {N W : Type 0} (runner : Runner N W) where
  -- `_execute_control` labels its record with the control, the phase and the side it was called for.
  abbrev pub LabelsChecks : Type 0
  LabelsChecks =
      (control : CheckControl N) (side : Side) (w : W)
      → slot_of (runner.execute_check control side w).0.entry ≡ check_slot control side

  -- The records grew by records of the given slots.
  abbrev Grew : List (ExecutionRecord N) → List Slot → List (ExecutionRecord N) → Type 0
  Grew before added after = slots after ≡ slots before ++ added

  grow :
      (before records : List (ExecutionRecord N)) (added : List Slot)
      → slots records ≡ added
      → Grew before added (before ++ records)
  grow before records added e = map-append _ before records ∙ ap (λ xs. slots before ++ xs) e

  more :
      (xs ys zs : List (ExecutionRecord N)) (first second : List Slot)
      → Grew xs first ys
      → Grew ys second zs
      → Grew xs (first ++ second) zs
  more xs ys zs first second e f =
      f ∙ (ap (λ slots. slots ++ second) e ∙ append_assoc (slots xs) first second)

  skip_checks-slots :
      (controls : List (CheckControl N)) (p : Progress N W)
      → Grew p.records (check_slots controls) (skip_checks runner controls p).1.records
  skip_checks-slots controls p = grow p.records _ (check_slots controls) (
      skipped_checks-slots runner.upper runner.family budget_reason (runner.now p.world).0 controls)

  module _ (labels : LabelsChecks) (control : CheckControl N) (controls : List (CheckControl N))
      (next : Progress N W → List (CheckOutcome N) × Progress N W)
      (grows : (p : Progress N W) → Grew p.records (check_slots controls) (next p).1.records) where
    continue-slots :
        (exhausted : Bool) (p : Progress N W)
        → Grew p.records
            (check_slots controls)
            (if exhausted then skip_checks runner controls p else next p).1.records
    continue-slots true p = skip_checks-slots controls p
    continue-slots false p = grows p

    run_candidate-slots :
        (baseline : Option (Execution N)) (p : Progress N W) (first : List Slot)
        → slots (baseline_entries runner baseline) ≡ first
        → Grew p.records
            ((first ++ check_slot control Side.candidate ∷ []) ++ check_slots controls)
            (run_candidate runner control controls next baseline p).1.records
    run_candidate-slots baseline p first e =
        let current = runner.execute_check control Side.candidate p.world in
        let entries = baseline_entries runner baseline ++ popped runner current.0.entry ∷ [] in
        let p' : Progress N W = record { records = p.records ++ entries; world = current.1 } in
        more p.records p'.records _ (first ++ check_slot control Side.candidate ∷ [])
          (check_slots controls)
          (grow p.records entries (first ++ check_slot control Side.candidate ∷ []) (
            map-append _ (baseline_entries runner baseline) (popped runner current.0.entry ∷ [])
            ∙ (ap (λ xs. xs ++ slot_of current.0.entry ∷ []) e
                ∙ ap (λ x. first ++ x ∷ []) (labels control Side.candidate p.world))))
          (continue-slots current.0.budget_exhausted p')

    stop_at_baseline-slots :
        (baseline : Execution N) (p : Progress N W)
        → slot_of baseline.entry ≡ check_slot control Side.base
        → Grew p.records
            (check_slot control Side.base
              ∷ check_slot control Side.candidate
              ∷ check_slots controls)
            (stop_at_baseline runner control controls baseline p).1.records
    unfolding skipped_record
    stop_at_baseline-slots baseline p e =
        let skip = λ (now : ℕ).
          skipped_record {N = N} control.check.id Phase.check Side.candidate
            (resolve runner.upper control.command runner.family) budget_reason now runner.family
          ∷ [] in
        let p1 : Progress N W = adding runner (baseline.entry ∷ []) p in
        let p2 = skip_rest runner skip p1 in
        more p.records p1.records _ (check_slot control Side.base ∷ [])
          (check_slot control Side.candidate ∷ check_slots controls)
          (grow p.records (baseline.entry ∷ []) (check_slot control Side.base ∷ [])
            (ap (λ x. x ∷ []) e))
          (more p1.records p2.records _ (check_slot control Side.candidate ∷ [])
            (check_slots controls)
            (grow p1.records (skip (runner.now p1.world).0) (check_slot control Side.candidate ∷ [])
              refl)
            (skip_checks-slots controls p2))

    run_differential-slots :
        (p : Progress N W)
        → Grew p.records
            (check_slot control Side.base
              ∷ check_slot control Side.candidate
              ∷ check_slots controls)
            (run_differential runner control controls next p).1.records
    run_differential-slots p =
        let baseline = runner.execute_check control Side.base p.world in
        let p' : Progress N W = record p { world = baseline.1 } in
        elim (Bool-cases baseline.0.budget_exhausted) [
          | inl e ↦ rw e (stop_at_baseline-slots baseline.0 p' (labels control Side.base p.world))
          | inr e ↦ rw e (
              run_candidate-slots (some baseline.0) p' (check_slot control Side.base ∷ [])
                (ap (λ x. x ∷ []) (labels control Side.base p.world)))
        ]

  -- Where every execution is recorded under its control, phase and side, the records of the checks
  -- are one for each side of each check, in the order of the configuration, whatever was skipped.
  pub run_checks-slots :
      LabelsChecks
      → (controls : List (CheckControl N)) (p : Progress N W)
      → slots (run_checks runner controls p).1.records ≡ slots p.records ++ check_slots controls
  unfolding run_checks
  run_checks-slots labels [] p = sym (append-nil (slots p.records))
  run_checks-slots labels (control ∷ controls) p =
      elim (Bool-cases (is_differential control.check.mode)) [
        | inl e ↦ rw e (
            run_differential-slots labels control controls (λ p'. run_checks runner controls p')
              (λ p'. run_checks-slots labels controls p') p)
        | inr e ↦ rw e (
            run_candidate-slots labels control controls (λ p'. run_checks runner controls p')
              (λ p'. run_checks-slots labels controls p') none p [] refl)
      ]
