-- ===== src/Repair/Lifecycle.antt =====
-- The life of a repair session: the steps that it takes, and its invariant.
use blindspot_remediation.Prelude.{
  ℕ, String, Bool, true, false, List, [], ◌∷◌, ◌++◌, ◌+◌, ◌≤◌, length, mem, distinct, ◌≡◌, refl,
  ◌⊎◌, arith, eq_iff, length-append, mem-append,
}
use blindspot_remediation.Policy.{Verdict}
use blindspot_remediation.Repair.Models.{RepairState, RepairAttempt, RepairSession, is_terminal}
use blindspot_remediation.Repair.Assessment.{AttemptAssessment}
use blindspot_remediation.Repair.Workspace.{WorkspaceError, ExportedCandidate}
use blindspot_remediation.Repair.Transitions.{
  GateRun, verdict_value, approved, with_workspace, stopped_by, Decision, decide, evaluated,
  applied, cancelled,
}
use blindspot_remediation.Repair.Controller.{seen_trees, seen_patches}
use blindspot_remediation.Repair.Evaluation.{assess_candidate, judged}

-- One step of a session. A step of `evaluate_repair` records a candidate whose tree and patch are new.
pub data Step : RepairSession → RepairSession → Type 0 where
  approve :
      (s : RepairSession) (now : String)
      → s.state ≡ RepairState.awaiting_approval
      → Step s (approved now s)
  relocate :
      (s : RepairSession) (path : String)
      → is_terminal s.state ≡ false
      → Step s (with_workspace path s)
  halt :
      (s : RepairSession) (error : WorkspaceError) (now : String)
      → s.state ≡ RepairState.repairing
      → Step s (stopped_by error now s)
  judge :
      (s : RepairSession) (label now : String) (c : ExportedCandidate) (gate : GateRun)
      → s.state ≡ RepairState.repairing
      → mem c.candidate_tree (seen_trees s.attempts) ≡ false
      → mem c.patch_sha256 (seen_patches s.attempts) ≡ false
      → Step s (judged label now s c gate)
  conclude :
      (s : RepairSession) (now : String)
      → s.state ≡ RepairState.awaiting_final_approval
      → Step s (applied now s)
  cancel :
      (s : RepairSession) (now : String) → is_terminal s.state ≡ false → Step s (cancelled now s)

pub data Reach (s : RepairSession) : RepairSession → Type 0 where
  here : Reach s s
  next : {t u : RepairSession} → Reach s t → Step t u → Reach s u

-- The verdict of the last attempt.
abbrev pub last_verdict : List RepairAttempt → String
last_verdict [] = ""
last_verdict (a ∷ attempts) = elim attempts [ [] ↦ a.verdict | b ∷ bs ↦ last_verdict attempts ]

last_verdict-snoc :
    (attempts : List RepairAttempt) (a : RepairAttempt)
    → last_verdict (attempts ++ a ∷ []) ≡ a.verdict
last_verdict-snoc [] a = refl
last_verdict-snoc (b ∷ []) a = refl
last_verdict-snoc (b ∷ (c ∷ attempts)) a = last_verdict-snoc (c ∷ attempts) a

-- A repair may still be evaluated, perhaps after an approval.
abbrev pub is_open : RepairState → Bool
is_open RepairState.awaiting_approval = true
is_open RepairState.repairing = true
is_open _ = false

-- A candidate awaits its application, or was applied.
abbrev pub is_accepted : RepairState → Bool
is_accepted RepairState.awaiting_final_approval = true
is_accepted RepairState.applied = true
is_accepted _ = false

-- The attempts are within the budget: C0 and at most as many repairs as the cap, and one fewer while
-- a repair may still be evaluated. A candidate that was accepted passed the gate. A session that has
-- ended asks for nothing. No tree and no patch was evaluated twice.
pub record IsValid (s : RepairSession) : Type 0 where
  pub budget : length s.attempts ≤ s.attempt_cap + 1
  pub room : (is_open s.state ≡ false) ⊎ (length s.attempts ≤ s.attempt_cap)
  pub passed : (is_accepted s.state ≡ false) ⊎ (last_verdict s.attempts ≡ "PASS")
  pub ended : (is_terminal s.state ≡ false) ⊎ (s.next_action ≡ "none")
  pub fresh_trees : distinct (seen_trees s.attempts) ≡ true
  pub fresh_patches : distinct (seen_patches s.attempts) ≡ true

seen_trees-append :
    (xs : List RepairAttempt) (a : RepairAttempt)
    → seen_trees (xs ++ a ∷ []) ≡ seen_trees xs ++ a.candidate_tree ∷ []
seen_trees-append [] a = refl
seen_trees-append (x ∷ xs) a = cc (seen_trees-append xs a)

seen_patches-append :
    (xs : List RepairAttempt) (a : RepairAttempt)
    → seen_patches (xs ++ a ∷ []) ≡ seen_patches xs ++ a.patch_digest ∷ []
seen_patches-append [] a = refl
seen_patches-append (x ∷ xs) a = cc (seen_patches-append xs a)

approved-IsValid :
    (s : RepairSession) (now : String)
    → s.state ≡ RepairState.awaiting_approval
    → IsValid s
    → IsValid (approved now s)
unfolding approved
approved-IsValid s now h v = ground arith

distinct-append :
    (xs : List String) (x : String)
    → distinct xs ≡ true
    → mem x xs ≡ false
    → distinct (xs ++ x ∷ []) ≡ true
distinct-append [] x d m = refl
distinct-append (y ∷ xs) x d m =
    ground (arith, eq_iff x y, eq_iff y x, mem-append y xs (x ∷ []), distinct-append xs x)

-- What a choice of the next state has to guarantee after an attempt with this verdict.
record Guards (repairs cap : ℕ) (verdict : String) (d : Decision) : Type 0 where
  room : (is_open d.state ≡ false) ⊎ (repairs + 1 ≤ cap)
  passed : (is_accepted d.state ≡ false) ⊎ (verdict ≡ "PASS")
  ended : (is_terminal d.state ≡ false) ⊎ (d.next_action ≡ "none")

decide-Guards :
    (verdict : Verdict) (matches : Bool) (repairs cap : ℕ) (a : AttemptAssessment)
    → Guards repairs cap (verdict_value verdict) (decide verdict matches repairs cap a)
unfolding verdict_value decide
decide-Guards verdict matches repairs cap a = record {
  room = ground arith;
  passed = ground arith;
  ended = ground arith;
}

evaluated-IsValid :
    (s : RepairSession) (a : RepairAttempt) (d : Decision) (now : String)
    → s.state ≡ RepairState.repairing
    → mem a.candidate_tree (seen_trees s.attempts) ≡ false
    → mem a.patch_digest (seen_patches s.attempts) ≡ false
    → Guards (length s.attempts) s.attempt_cap a.verdict d
    → IsValid s
    → IsValid (evaluated a d now s)
unfolding evaluated
evaluated-IsValid s a d now h t p g v = record {
  budget = ground (arith, length-append s.attempts (a ∷ []), v.room);
  room = ground (arith, length-append s.attempts (a ∷ []), g.room);
  passed = ground (arith, last_verdict-snoc s.attempts a, g.passed);
  ended = g.ended;
  fresh_trees =
      rw (seen_trees-append s.attempts a)
        (distinct-append (seen_trees s.attempts) a.candidate_tree v.fresh_trees t);
  fresh_patches =
      rw (seen_patches-append s.attempts a)
        (distinct-append (seen_patches s.attempts) a.patch_digest v.fresh_patches p);
}

judged-IsValid :
    (s : RepairSession) (label now : String) (c : ExportedCandidate) (gate : GateRun)
    → s.state ≡ RepairState.repairing
    → mem c.candidate_tree (seen_trees s.attempts) ≡ false
    → mem c.patch_sha256 (seen_patches s.attempts) ≡ false
    → IsValid s
    → IsValid (judged label now s c gate)
unfolding judged
judged-IsValid s label now c gate h t p v =
    evaluated-IsValid s _ _ now h t p
      (decide-Guards gate.verdict _ (length s.attempts) s.attempt_cap (assess_candidate s c gate)) v

-- Every step keeps a session valid.
pub Step-IsValid : {s t : RepairSession} → Step s t → IsValid s → IsValid t
unfolding approved with_workspace stopped_by applied cancelled
Step-IsValid (approve s now h) v = ground arith
Step-IsValid (relocate s path h) v = ground arith
Step-IsValid (halt s error now h) v = ground arith
Step-IsValid (judge s label now c gate h t p) v = judged-IsValid s label now c gate h t p v
Step-IsValid (conclude s now h) v = ground arith
Step-IsValid (cancel s now h) v = ground arith

-- A valid session stays valid over any number of steps: the attempts stay within the budget, an
-- accepted candidate has passed, an ended session asks for nothing, and no tree and no patch is
-- evaluated twice.
pub Reach-IsValid : {s t : RepairSession} → IsValid s → Reach s t → IsValid t
Reach-IsValid v here = v
Reach-IsValid v (next r st) = Step-IsValid st (Reach-IsValid v r)
