-- ===== src/Repair/Eligibility.antt =====
-- `assess_attempt` against a description of the runs that may be repaired.
use blindspot_remediation.Prelude.{
  String, Bool, true, false, not, ◌&&◌, ◌||◌, Option, none, some, List, [], ◌∷◌, ◌++◌, any, all,
  mem, is_empty, if◌then◌else◌, ◌==◌, ◌≡◌, refl, ◌↔◌, ◌∙◌, arith, keep, any-not, eq_iff, append-nil,
  append_assoc, Option-cases, inl, inr,
}
use blindspot_remediation.Repair.Assessment.{
  CheckDocument, ResultDocument, holds, is_allowed_fail_reason, is_scope_code, CheckStep,
  check_step, failed_checks, conclude, guard_stop, assess_attempt,
}

-- The check failed.
abbrev pub fails : CheckDocument → Bool
fails c = holds c.status "FAIL"

-- A blocking check that failed for the allowed reasons alone.
abbrev pub is_plain_failure : CheckDocument → Bool
is_plain_failure c =
    holds c.severity "blocking"
    && (not (is_empty c.reason_codes) && all is_allowed_fail_reason c.reason_codes)

-- The check stands in no way of a repair.
abbrev pub is_repairable : CheckDocument → Bool
is_repairable c =
    not (holds c.status "ERROR")
    && (not (holds c.status "SKIPPED") && (not (fails c) || is_plain_failure c))

abbrev pub ids : List CheckDocument → List String
ids [] = []
ids (c ∷ checks) = c.id ∷ ids checks

-- The turn of the loop that the description of the check calls for.
abbrev expected_step : Bool → Bool → CheckStep
expected_step false failing = CheckStep.refused
expected_step true true = CheckStep.noted
expected_step true false = CheckStep.passed_over

check_step-expected : (c : CheckDocument) → check_step c ≡ expected_step (is_repairable c) (fails c)
unfolding check_step
check_step-expected c = ground (arith, any-not is_allowed_fail_reason c.reason_codes)

failed_checks-eq :
    (checks : List CheckDocument) (failed : List String)
    → failed_checks checks failed
      ≡ (if all is_repairable checks then some (failed ++ ids (keep fails checks)) else none)
unfolding failed_checks
failed_checks-eq [] failed = cc (append-nil failed)
failed_checks-eq (c ∷ checks) failed =
    split (is_repairable c) (fails c) (check_step-expected c) (failed_checks-eq checks)
  where
    split :
        (repairable failing : Bool)
        → check_step c ≡ expected_step repairable failing
        → ((noted : List String)
            → failed_checks checks noted ≡ (
                if all is_repairable checks then some (noted ++ ids (keep fails checks)) else none))
        → failed_checks (c ∷ checks) failed ≡ (
            if repairable && all is_repairable checks
            then some (failed ++ ids (if failing then c ∷ keep fails checks else keep fails checks))
            else none)
    split false failing e rest = rw (e, failed_checks)
    split true false e rest = rw (e, failed_checks) (rest failed)
    split true true e rest =
        rw (e, failed_checks)
          (rest (failed ++ c.id ∷ [])
            ∙ cc (append_assoc failed (c.id ∷ []) (ids (keep fails checks))))

-- A FAIL whose scope passed, with the policy and the launchers unchanged.
abbrev pub is_plain_fail : ResultDocument → Bool
is_plain_fail doc =
    doc.verdict == "FAIL"
    && (doc.scope_status == "PASS"
        && (not (mem "POLICY_FILE_CHANGED" doc.reason_codes)
            && (not (mem "POLICY_FILE_CHANGED" doc.scope_reason_codes)
                && (not (mem "CONTROL_LAUNCHER_REVIEW" doc.reason_codes)
                    && not (any is_scope_code doc.reason_codes)))))

-- The runs that may be repaired: a plain FAIL in which every check passed or failed plainly, at
-- least one of them failing.
abbrev pub may_repair : ResultDocument → Bool
may_repair doc = is_plain_fail doc && (all is_repairable doc.checks && any fails doc.checks)

fail_verdict :
    (v : String) → (v == "FAIL") ≡ true → ((v == "PASS") ≡ false) × ((v == "NEEDS_HUMAN") ≡ false)
fail_verdict v h = rw ((eq_iff v "FAIL").0 h) (refl, refl)

guard_stop-none : (doc : ResultDocument) → (guard_stop doc ≡ none) ↔ (is_plain_fail doc ≡ true)
unfolding guard_stop
guard_stop-none doc = ground (arith, fail_verdict doc.verdict)

-- The assessment of a plain FAIL, by the checks.
conclude-none :
    (doc : ResultDocument) (checks : List CheckDocument)
    → (conclude doc (some (ids (keep fails checks)))).eligible ≡ any fails checks
conclude-none doc [] = refl
conclude-none doc (c ∷ checks) = ground (arith, conclude-none doc checks)

conclude-ids :
    (doc : ResultDocument) (found : List String)
    → (conclude doc (some found)).failed_check_ids ≡ found
conclude-ids doc [] = refl
conclude-ids doc (i ∷ found) = refl

conclude-stop :
    (doc : ResultDocument) (found : Option (List String))
    → ((conclude doc found).eligible ≡ true) ↔ ((conclude doc found).stop_reason ≡ none)
conclude-stop doc none = ground arith
conclude-stop doc (some []) = ground arith
conclude-stop doc (some (i ∷ found)) = ground arith

conclude-eligible :
    (doc : ResultDocument) (b : Bool)
    → (conclude doc (if b then some (ids (keep fails doc.checks)) else none)).eligible
      ≡ (b && any fails doc.checks)
conclude-eligible doc true = conclude-none doc doc.checks
conclude-eligible doc false = refl

conclude-checks :
    (doc : ResultDocument)
    → (conclude doc (failed_checks doc.checks [])).eligible
      ≡ (all is_repairable doc.checks && any fails doc.checks)
conclude-checks doc =
    rw (failed_checks-eq doc.checks []) (conclude-eligible doc (all is_repairable doc.checks))

-- A run whose evidence was read is eligible for repair exactly when it is a FAIL whose scope
-- passed, without a reason of the policy, the launchers or the scope, in which no check is an
-- error or skipped, each failed check is blocking and has allowed reasons only, and at least one
-- check failed.
pub assess_attempt-eligible :
    (doc : ResultDocument) → (assess_attempt (some doc)).eligible ≡ may_repair doc
unfolding assess_attempt
assess_attempt-eligible doc = elim (Option-cases (guard_stop doc)) [
  | inl e ↦ rw (e, (guard_stop-none doc).0 e) (conclude-checks doc)
  | inr (reason, e) ↦ ground (arith, guard_stop-none doc)
]

-- A run is eligible for repair exactly when its assessment has no stop reason, also where its
-- evidence could not be read.
pub assess_attempt-stop_reason :
    (evidence : Option ResultDocument)
    → ((assess_attempt evidence).eligible ≡ true) ↔ ((assess_attempt evidence).stop_reason ≡ none)
unfolding assess_attempt
assess_attempt-stop_reason none = ground arith
assess_attempt-stop_reason (some doc) = elim (Option-cases (guard_stop doc)) [
  | inl e ↦ rw e (conclude-stop doc (failed_checks doc.checks []))
  | inr (reason, e) ↦ rw e (ground arith)
]

-- A run that may be repaired is assessed with the identifiers of its failed checks, in the order
-- of the document.
pub assess_attempt-failed :
    (doc : ResultDocument)
    → may_repair doc ≡ true
    → (assess_attempt (some doc)).failed_check_ids ≡ ids (keep fails doc.checks)
unfolding assess_attempt
assess_attempt-failed doc h =
    let plain : is_plain_fail doc ≡ true = ground arith in
    let every : all is_repairable doc.checks ≡ true = ground arith in
    rw ((guard_stop-none doc).1 plain, failed_checks-eq doc.checks [], every)
      (conclude-ids doc (ids (keep fails doc.checks)))
