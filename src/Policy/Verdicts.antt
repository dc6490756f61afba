-- ===== src/Policy/Verdicts.antt =====
-- `aggregate_verdict` against the order that it promises, NEEDS_HUMAN > FAIL > PASS.
use mathlib.Core.Logic.{∥∥₁_elim}
use mathlib.Core.List.{Perm, Permᴰ}
use blindspot_remediation.Prelude.{
  String, List, [], ◌∷◌, ◌++◌, ◌≡◌, refl, ◌⊎◌, ◌↔◌, ◌∙◌, sym, arith, All,
}
use blindspot_remediation.Config.{Severity}
use blindspot_remediation.Policy.{Verdict, CheckStatus, ScopeOutcome, CheckOutcome}
use blindspot_remediation.Policy.Aggregate.{
  Tally, absorb, absorb_all, decide_tally, opening, aggregate_verdict,
}

-- The more serious of two verdicts.
abbrev pub worse : Verdict → Verdict → Verdict
worse Verdict.needs_human v = Verdict.needs_human
worse Verdict.fail Verdict.needs_human = Verdict.needs_human
worse Verdict.fail _ = Verdict.fail
worse Verdict.pass v = v

-- What one check says of the candidate: an advisory failure asks for a review, an informational one
-- says nothing, and a check that could not be run is not a pass.
abbrev pub says : CheckStatus → Severity → Verdict
says CheckStatus.pass severity = Verdict.pass
says CheckStatus.fail Severity.blocking = Verdict.fail
says CheckStatus.fail Severity.advisory = Verdict.needs_human
says CheckStatus.fail Severity.informational = Verdict.pass
says CheckStatus.error severity = Verdict.needs_human
says CheckStatus.skipped severity = Verdict.needs_human

-- The verdict that the locals of the loop stand for.
abbrev standing : Tally → Verdict
standing t = (decide_tally t).verdict

absorb-worse :
    (status : CheckStatus) (severity : Severity) (reasons : List String) (t : Tally)
    → standing (absorb status severity reasons t) ≡ worse (standing t) (says status severity)
unfolding absorb decide_tally
absorb-worse status severity reasons t = ground arith

worse_assoc : (u v w : Verdict) → worse (worse u v) w ≡ worse u (worse v w)
worse_assoc u v w = ground arith

pub worse_comm : (u v : Verdict) → worse u v ≡ worse v u
worse_comm u v = ground arith

-- A run reason always asks for a review.
abbrev pub run_verdict : List String → Verdict
run_verdict [] = Verdict.pass
run_verdict (r ∷ rs) = Verdict.needs_human

standing-opening :
    (scope : ScopeOutcome) (run_reasons : List String)
    → standing (opening scope run_reasons) ≡ worse scope.verdict (run_verdict run_reasons)
unfolding decide_tally
standing-opening scope run_reasons = ground arith

worse-needs_human : (u : Verdict) → worse u Verdict.needs_human ≡ Verdict.needs_human
worse-needs_human u = ground arith

worse_swap : (u v w : Verdict) → worse u (worse v w) ≡ worse v (worse u w)
worse_swap u v w = ground arith

worse-pass :
    (u v : Verdict) → (worse u v ≡ Verdict.pass) ↔ ((u ≡ Verdict.pass) × (v ≡ Verdict.pass))
worse-pass u v = ground arith

opening-pass :
    (v : Verdict) (run_reasons : List String)
    → (worse v (run_verdict run_reasons) ≡ Verdict.pass) ↔ ((v ≡ Verdict.pass) × (run_reasons ≡ []))
opening-pass v [] = ground arith
opening-pass v (r ∷ rs) = ground arith

Verdict-set : IsSet Verdict
Verdict-set = hlevel

module _ {N : Type 0} where
  -- The most serious of what the checks say.
  abbrev pub worst : List (CheckOutcome N) → Verdict
  worst [] = Verdict.pass
  worst (c ∷ checks) = worse (says c.status c.severity) (worst checks)

  absorb_all-worst :
      (checks : List (CheckOutcome N)) (t : Tally)
      → standing (absorb_all checks t) ≡ worse (standing t) (worst checks)
  unfolding absorb_all
  absorb_all-worst [] t = ground arith
  absorb_all-worst (c ∷ checks) t =
      absorb_all-worst checks (absorb c.status c.severity c.reason_codes t)
      ∙ cc (absorb-worse c.status c.severity c.reason_codes t)
      ∙ worse_assoc (standing t) (says c.status c.severity) (worst checks)

  -- The verdict of a run is the most serious of what the scope, the run reasons and the checks
  -- say, in the order NEEDS_HUMAN, FAIL, PASS.
  pub aggregate_verdict-worst :
      (scope : ScopeOutcome) (checks : List (CheckOutcome N)) (run_reasons : List String)
      → (aggregate_verdict scope checks run_reasons).verdict
        ≡ worse (worse scope.verdict (run_verdict run_reasons)) (worst checks)
  unfolding aggregate_verdict
  aggregate_verdict-worst scope checks run_reasons =
      absorb_all-worst checks (opening scope run_reasons) ∙ cc (standing-opening scope run_reasons)

  -- A check that lets the candidate pass: it passed, or failed for information only.
  abbrev pub Clears : CheckOutcome N → Type 0
  Clears c =
      (c.status ≡ CheckStatus.pass)
      ⊎ ((c.status ≡ CheckStatus.fail) × (c.severity ≡ Severity.informational))

  says-pass : (c : CheckOutcome N) → (says c.status c.severity ≡ Verdict.pass) ↔ Clears c
  says-pass c = ground arith

  worst-pass : (checks : List (CheckOutcome N)) → (worst checks ≡ Verdict.pass) ↔ All Clears checks
  worst-pass [] = (λ _. tt, λ _. refl)
  worst-pass (c ∷ checks) =
      ground (
        arith,
        says-pass c,
        worst-pass checks,
        worse-pass (says c.status c.severity) (worst checks),
      )

  -- A run passes exactly when the scope passed, no run reason was given, and each check passed or
  -- failed for information only.
  pub aggregate_verdict-pass :
      (scope : ScopeOutcome) (checks : List (CheckOutcome N)) (run_reasons : List String)
      → ((aggregate_verdict scope checks run_reasons).verdict ≡ Verdict.pass)
        ↔ ((scope.verdict ≡ Verdict.pass) × (run_reasons ≡ []) × All Clears checks)
  aggregate_verdict-pass scope checks run_reasons = ground (
    arith,
    aggregate_verdict-worst scope checks run_reasons,
    worse-pass (worse scope.verdict (run_verdict run_reasons)) (worst checks),
    opening-pass scope.verdict run_reasons,
    worst-pass checks,
  )

  worst-needs_human :
      (xs ys : List (CheckOutcome N)) (c : CheckOutcome N)
      → says c.status c.severity ≡ Verdict.needs_human
      → worst (xs ++ c ∷ ys) ≡ Verdict.needs_human
  worst-needs_human [] ys c h = rw h
  worst-needs_human (x ∷ xs) ys c h =
      rw (worst-needs_human xs ys c h) (worse-needs_human (says x.status x.severity))

  -- One check outcome that asks for a human makes the run ask for a human, whatever the scope, the
  -- run reasons and the other outcomes are.
  pub aggregate_verdict-needs_human :
      (scope : ScopeOutcome) (run_reasons : List String) (xs ys : List (CheckOutcome N))
      (c : CheckOutcome N)
      → says c.status c.severity ≡ Verdict.needs_human
      → (aggregate_verdict scope (xs ++ c ∷ ys) run_reasons).verdict ≡ Verdict.needs_human
  aggregate_verdict-needs_human scope run_reasons xs ys c h =
      aggregate_verdict-worst scope (xs ++ c ∷ ys) run_reasons
      ∙ rw (worst-needs_human xs ys c h) (worse-needs_human _)

  worst-Permᴰ : {xs ys : List (CheckOutcome N)} → Permᴰ xs ys → worst xs ≡ worst ys
  worst-Permᴰ Permᴰ.nil = refl
  worst-Permᴰ (Permᴰ.cons e p) = cc (worst-Permᴰ p)
  worst-Permᴰ (Permᴰ.swap {a = c} {b = d} {l = l} e f) = rw (e, f) (worse_swap _ _ (worst l))
  worst-Permᴰ (Permᴰ.trans p q) = worst-Permᴰ p ∙ worst-Permᴰ q

  -- The verdict of a run does not depend on the order of the check outcomes.
  pub aggregate_verdict-perm :
      (scope : ScopeOutcome) (run_reasons : List String) (xs ys : List (CheckOutcome N))
      → Perm xs ys
      → (aggregate_verdict scope xs run_reasons).verdict
        ≡ (aggregate_verdict scope ys run_reasons).verdict
  aggregate_verdict-perm scope run_reasons xs ys p = ∥∥₁_elim p (Verdict-set _ _) λ q.
      aggregate_verdict-worst scope xs run_reasons
      ∙ cc (worst-Permᴰ q)
      ∙ sym (aggregate_verdict-worst scope ys run_reasons)
