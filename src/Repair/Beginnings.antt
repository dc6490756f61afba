-- ===== src/Repair/Beginnings.antt =====
-- `start_repair` of repair/controller.py against the invariant of a session.
use blindspot_remediation.Prelude.{
  String, Bool, true, false, not, Option, none, some, List, ◌≡◌, refl, arith, ◌⊎◌, inl, inr,
  if◌then◌else◌, Bool-cases, Option-cases,
}
use blindspot_remediation.Policy.{Matcher}
use blindspot_remediation.Repair.Models.{RepairState, RepairStopReason, RepairSession, is_terminal}
use blindspot_remediation.Repair.Workspace.{WorkspaceError}
use blindspot_remediation.Repair.Store.{Codec}
use blindspot_remediation.Repair.Playbooks.{has_harness_changes}
use blindspot_remediation.Repair.Actions.{
  World, Action, Result, ok, raise_unless, invalid_session_id, session_exists,
}
use blindspot_remediation.Repair.Returns.{bind_inv}
use mathlib.Core.Path.{subst}
use blindspot_remediation.Repair.Start.{
  StartAnswers, is_session_id, begin_session, in_directory, in_new_directory, assess_source,
  new_session, approved_paths_of, stop_start, await_approval, start_repair,
}
use blindspot_remediation.Repair.Lifecycle.{is_accepted, IsValid}

module _ (session_id repo_path base : String) (answers : StartAnswers) where
  new_session-IsValid :
      (approved_paths : List String) (state : RepairState) (next_action : String)
      (stop_reason : Option RepairStopReason) (workspace_path : Option String)
      → is_accepted state ≡ false
      → (is_terminal state ≡ false) ⊎ (next_action ≡ "none")
      → IsValid (
          new_session session_id repo_path base answers approved_paths state next_action stop_reason
            workspace_path)
  unfolding new_session
  new_session-IsValid approved_paths state next_action stop_reason workspace_path h k = record {
    budget = omega arith;
    room = inr (omega arith);
    passed = inl h;
    ended = k;
    fresh_trees = refl;
    fresh_patches = refl;
  }

module _ {T A : Type 0} (x y : Action T A) {b : Bool} {w : World T} {o : Result A × World T} where
  -- What an action by cases comes to in either case.
  by_if : b ≡ true → (if b then x else y) w ≡ o → x w ≡ o
  by_if e h = subst (λ c. (if c then x else y) w ≡ o) e h

  by_else : b ≡ false → (if b then x else y) w ≡ o → y w ≡ o
  by_else e h = subst (λ c. (if c then x else y) w ≡ o) e h

module _ {T : Type 0} (codec : Codec) (cleanup : String → Option WorkspaceError)
    (match_file : Matcher) (session_id repo_path base : String) (answers : StartAnswers) where
  stop_start-IsValid :
      (reason : Option RepairStopReason) (s : RepairSession) (w w' : World T)
      → stop_start codec cleanup match_file session_id repo_path base answers reason w ≡ (ok s, w')
      → IsValid s
  stop_start-IsValid reason s w w' h =
      let e : s
          ≡ new_session session_id repo_path base answers answers.capture.changed_paths
              RepairState.stopped "none" reason none =
        ground arith in
      rw e (new_session-IsValid session_id repo_path base answers _ _ _ reason none refl (inr refl))

  await_approval-IsValid :
      (s : RepairSession) (w w' : World T)
      → await_approval codec cleanup match_file session_id repo_path base answers w ≡ (ok s, w')
      → IsValid s
  await_approval-IsValid s w w' h = elim (Option-cases answers.new_workspace) [
    | inl e ↦ absurd (ground arith)
    | inr (workspace, e) ↦
        let e' : s
            ≡ new_session session_id repo_path base answers (approved_paths_of match_file answers)
                RepairState.awaiting_approval "approve_or_cancel" none (some workspace) =
          ground arith in
        rw e' (
          new_session-IsValid session_id repo_path base answers _ _ _ none (some workspace) refl
            (inl refl))
  ]

  begin_session-IsValid :
      (s : RepairSession) (w w' : World T)
      → begin_session codec cleanup match_file session_id repo_path base answers w ≡ (ok s, w')
      → IsValid s
  begin_session-IsValid s w w' h =
      elim (Bool-cases (has_harness_changes answers.capture.changed_paths)) [
        | inl e ↦ stop_start-IsValid (some RepairStopReason.harness_changed) s w w' (by_if _ _ e h)
        | inr e ↦ elim (Bool-cases (not (assess_source answers.gate answers.capture).eligible)) [
          | inl e' ↦
              stop_start-IsValid (assess_source answers.gate answers.capture).stop_reason s w w'
                (by_if _ _ e' (by_else _ _ e h))
          | inr e' ↦ await_approval-IsValid s w w' (by_else _ _ e' (by_else _ _ e h))
        ]
      ]

  -- A session that `start_repair` returns is valid.
  pub start_repair-IsValid :
      (s : RepairSession) (w w' : World T)
      → start_repair codec cleanup match_file session_id repo_path base answers w ≡ (ok s, w')
      → IsValid s
  unfolding start_repair
  start_repair-IsValid s w w' h =
      let (_, w1, _, k) =
        bind_inv (raise_unless (is_session_id session_id) invalid_session_id)
          (λ _. in_directory codec cleanup match_file session_id repo_path base answers) w s w' h in
      let (_, w2, _, k') =
        bind_inv (raise_unless (not answers.directory_exists) session_exists)
          (λ _. in_new_directory codec cleanup match_file session_id repo_path base answers) w1 s w'
          k in
      begin_session-IsValid s _ w' k'
