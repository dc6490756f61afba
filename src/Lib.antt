-- ===== src/Lib.antt =====
-- The release gate decides whether a candidate change to a repository may pass: PASS, FAIL or
-- NEEDS_HUMAN. A candidate that failed plainly may be repaired in a session, under two approvals
-- and an attempt budget, and the repair is then put into the source worktree. The orchestrator is
-- the control plane around the gate: it has a change executed, gated and released. Paths below are
-- relative to release-gate/src/release_gate/, those of the orchestrator to
-- A9-orchestrator/src/ai_engineering_orchestrator/.
--
-- Policy.antt and Policy/Aggregate.antt model policy.py: `evaluate_scope` classifies the changed
-- paths, `combine_check` one check, and `aggregate_verdict` the run. Its loop over a set of
-- reasons is `absorb_all` on the three locals of the source, `Tally`. Policy/Verdicts,
-- Policy/Reasons, Policy/Checks and Policy/ScopePaths hold the proofs. Config.antt and
-- Config/CommandSpecs.antt model the part of models.py that says what a command is on a platform,
-- and its validation, with the proofs in Config/Reserved; Process.antt `classify_exit` of
-- process.py, with Process/ExitCodes; Assertions/Pointers.antt and Assertions/Evaluation.antt
-- assertions.py, with Assertions/Escapes and Assertions/Outcomes.
--
-- Repair/ models the package repair/. Models has the data of repair/models.py; Store the session's
-- directory, its writes and its manifest (repair/evidence.py); Workspace and Application the
-- approved paths, the export of a candidate and its application to the source
-- (repair/workspace.py); Playbooks the harness changes and the guidance (repair/playbooks.py).
-- repair/controller.py is in Assessment (`assess_attempt`), Summary (the two generated texts),
-- Transitions (the sessions that it computes), Start (`start_repair`), Controller (approval,
-- request, cancellation, finalization), Evaluation (`evaluate_repair`) and Apply (`apply_repair`).
-- A command is an action on a `World`, which is the directory, the source worktree and the list of
-- removed workspaces; it returns a session or raises, and what it wrote before it raised stays
-- written. Eligibility, Boundary, Rollback, Store/Files, Store/Integrity, Lifecycle, Beginnings,
-- Returns, Commands, Applied and Persistence hold the proofs: Lifecycle has the step relation of a
-- session and its invariant, Beginnings, Commands and Applied relate the commands to them, and
-- Persistence relates what is written to what is read. A module named Tests, CommandTests or
-- SessionTests holds runs on small inputs, Samples their data.
--
-- Engine/ models the schedule of engine.py: Records has the execution records and the skipped ones,
-- Schedule `_run_preparation` and `_run_checks` over the progress of a run, which is its records
-- and the world, and Gate `run_captured_gate` from the capture to the decision and the exit code,
-- which takes the verdict of Policy. Coverage, Slots, Codes, Unpopped and Decisions hold the
-- proofs. Evidence/ models the package of evidence.py: Paths the names that a run and its artifacts
-- may have, Package `EvidenceRun` with its writes under the byte budget, Lifetime its creation and
-- finalization. Verification has `verify_run` on the files of a package. Budget, Creation,
-- Finalization, Completion, Recorded, Settled, Retention and Verification/Inventory hold the
-- proofs; Budget has the relation between the packages that writes lead to.
--
-- Orchestrator/ models the orchestrator. Models has the contracts of models.py, Machine the
-- transitions of state_machine.py, Budgets the check of budgets.py, Registry the task definitions
-- of registry.py. A call of `run` is an action on a `State`: the locals that its handlers read and
-- the world of the ports (Actions, with the ports of ports.py). Service has the helpers of
-- service.py, Execution the body of the `try` with the loop over the gate, Handlers the two
-- handlers and the whole call. Triples has pre- and postconditions of actions and Trails the log of
-- a run as a step relation; Endings, Rounds and Runs prove them of each part of the call, and
-- Outcomes, Withheld, Denied, Late and Limits state what follows of the call; Meter has ports that
-- count their calls, and Costs, Passes and Spending say how many a call makes.
--
-- Storage/ models the evidence storage, A4-evidence-storage/src/ai_engineering_evidence/: Keys the
-- keys of store.py, Models the manifest, Store the content-addressed store on a filesystem that
-- other writers share (Store/Actions), Recorder the ingestion of `record_run` of recorder.py
-- (`ingest_run`; where the execution has no attribute `execution_artifacts`, as that of the
-- contracts has none, its read raises), Verifier verifier.py. KeyShapes, Store/Growth,
-- Store/Objects, Store/Publication, Recorder/Ingestion, Recorder/Ingested, Recorder/Covered,
-- Recorder/Collected, Verifier/Acceptance, Verifier/Completeness, Verifier/Malformed and Histories
-- hold the proofs. Release/ models the policy of the service, Engine for policy.py and Models for
-- what it reads of models.py of A3-release-gate-service/src/ai_engineering_release_gate/, and
-- Contract the validation of its result in
-- A1-shared-contracts/src/ai_engineering_contracts/models.py; the proofs are below Engine and
-- Contract.
--
-- Prelude passes on the library's names and holds what the components share: Boolean tests, lists,
-- sets of texts as lists read by membership, the order of texts and operations on them.
--
-- Arguments of the model are what the source takes from elsewhere: pathspec's matching (`Matcher`),
-- git (`Git`, `ExportAnswers`, `Capture`), the gate run and its evidence (`GateRun`), the clock,
-- the removal of a clone, JSON, UTF-8 and SHA-256 (`Codec`), and Python's numbers and digits
-- (`Numbers`, `Digits`) and `str.upper`. `Reversible` states of git that a patch that was applied
-- can be reversed, and the other way round; `KeepsName` and `NormalizesParts` state of Unicode that
-- a name is left as it is, and that a path is normalized where its parts are. Running one control
-- (`Runner`), Unicode's normalization and case folding (`Unicode`), the JSON of the documents and
-- their schemas (`Documents`), and the orchestrator's ports with its clock (`Ports`) are arguments
-- too, and so are the JSON of manifests and SHA-256 (`Library`, `Readers`), the artifacts' files
-- and addresses (`Sources`), and Python's floats (`Floats`). The attempt cap is 2 in every session
-- that `start_repair` makes; the invariant holds for any cap. Loops run over a list or a text, but
-- for the orchestrator's loop over the gate: it has fuel, one more than the evidence cycles that
-- the task definition allows, and each pass that does not end the call takes one of these cycles.
--
-- Not modelled: git.py, workspaces.py, reports.py and the parts of engine.py, process.py and
-- evidence.py that run processes or write files; the result and manifest documents; the other
-- validations of a configuration, and the lengths that pydantic checks in the orchestrator's
-- contracts; trace, observability and the command line; the rest of the service and of the
-- contracts, and the manifest that the recorder makes of what it collected; the media type that an
-- artifact of a gate run gets by its suffix, since each write is given one; a session file that
-- names another session than its directory; the remaining projects of the repository, A2, A5 to A8,
-- A10 to A12 and B1 to B8, which are services and tools around these.
pub mod Prelude
pub mod Config
pub mod Process
pub mod Assertions
pub mod Policy
pub mod Repair
pub mod Evidence
pub mod Engine
pub mod Orchestrator
pub mod Storage
pub mod Release
