-- ===== src/Repair/SessionTests.antt =====
-- Runs that start a session, and that read what was written.
use blindspot_remediation.Prelude.{
  ℕ, false, none, some, [], ◌∷◌, contains, has_prefix, ◌≡◌, refl, if◌then◌else◌,
}
use blindspot_remediation.Policy.{Verdict}
use blindspot_remediation.Repair.Models.{RepairState, RepairStopReason, RepairSession}
use blindspot_remediation.Repair.Workspace.{Bytes}
use blindspot_remediation.Repair.Store.{Codec, with_manifest}
use blindspot_remediation.Repair.Actions.{ok, World, read_session}
use blindspot_remediation.Repair.Transitions.{cancelled}
use blindspot_remediation.Repair.Controller.{cancel_repair}
use blindspot_remediation.Repair.Samples.{codec, cleanup, waiting, world, passing_run}
use blindspot_remediation.Prelude.{nat_beq}
use blindspot_remediation.Repair.Store.{is_portable}
use blindspot_remediation.Repair.Controller.{save_session}
use blindspot_remediation.Repair.Start.{Capture, StartAnswers, new_session}
use blindspot_remediation.Repair.Persistence.{read_session-save_session}

abbrev capture : Capture
capture = record {
  base_commit = "base";
  candidate_tree = "r";
  patch = 1 ∷ (2 ∷ []);
  patch_sha256 = "r";
  changed_paths = "a" ∷ [];
  scope = none;
}

abbrev start_answers : StartAnswers
start_answers = record {
  gate = record {
    name = "run";
    verdict = Verdict.pass;
    evidence = some passing_run;
    result_digest = some "result";
    manifest_digest = some "manifest";
  };
  capture = capture;
  directory_exists = false;
  playbook_paths = λ ids. [];
  new_workspace = some "workspace";
  now = "now";
}

-- A candidate that passed stops at once.
abbrev already_passed : RepairSession
already_passed =
    new_session "rep-1" "repo" "HEAD" start_answers ("a" ∷ []) RepairState.stopped "none"
      (some RepairStopReason.already_pass) none

abbrev after_save : World ℕ
after_save = (save_session codec cleanup waiting (world waiting)).1

read_session-save_session_example : read_session codec "rep-1" after_save ≡ (ok waiting, after_save)
unfolding is_portable contains has_prefix with_manifest
read_session-save_session_example =
    read_session-save_session codec cleanup waiting (world waiting) after_save tt refl refl refl

abbrev first_of : Bytes → ℕ
first_of [] = 0
first_of (b ∷ bs) = b

abbrev cancelled_later : Codec
cancelled_later = record codec {
  decode_session =
      λ content. some (if nat_beq (first_of content) 3 then cancelled "later" waiting else waiting);
}

abbrev after_cancel : World ℕ
after_cancel = (cancel_repair cancelled_later cleanup "rep-1" "later" (world waiting)).1
