-- ===== src/Orchestration/Runner.antt =====
-- src/orchestration/learning-orchestrator-runner.ts: one run of the eight workers, with the paths
-- of trace-ledger.ts. The trace file holds the events of the run, one to a line.
pub mod Steps
pub mod Exits
pub mod Invariant
pub mod Endings
pub mod Outcome
pub mod Progress
use knowbalance.Prelude.{
  ℕ, suc, ◌+◌, String, Option, none, some, List, [], ◌∷◌, ◌++◌, or_default, string_Eq, length,
}
use knowbalance.Prelude.Text.{concat, show_nat}
use knowbalance.Prelude.Dict.{insert}
use knowbalance.Prelude.Number.{Number}
use knowbalance.Orchestration.States.{
  State, StepDefinition, worker_sequence, transition, TransitionEvent, complete, accepted, refused,
  TransitionResult,
}
use knowbalance.Orchestration.Types.{
  mode_name, Status, LearnerRequest, fatal, learning_orchestrator, session_completed, memory,
  TraceEventType, OrchestrationRunSummary,
}
use knowbalance.Orchestration.Memory.{
  MemoryFiles, load_learner_memory, save_learner_memory, append_persistence_events,
}
use Steps.{
  Promised, resolved, rejected, Host, RunInput, Run, Thrown, Flow, go, stop, raise, plain,
  code_name, record_event, fail_run, run_step,
}

pub record TraceLedger : Type 0 where
  pub run_id : String
  pub root_dir : String
  pub run_dir : String
  pub trace_path : String
  pub summary_json_path : String
  pub summary_md_path : String
  pub latest_json_path : String
  pub latest_md_path : String

pub record RunResult (N : Number) (Unknown : Type 0) : Type 0 where
  pub summary : OrchestrationRunSummary N
  pub ledger : TraceLedger
  pub final : Run N Unknown

abbrev pub summary_text : RunInput → String
summary_text input =
    concat ("learning-orchestrator completed " ∷ mode_name input.mode ∷ " workflow" ∷ [])

module _ {N : Number} {Unknown : Type 0} (host : Host N Unknown) (input : RunInput) where
  unfoldable pub create_trace_ledger : String → TraceLedger
  create_trace_ledger run_id =
      let run_dir : String = host.disk.join_path (input.root_dir ∷ "runs" ∷ run_id ∷ []) in
      record {
        run_id = run_id;
        root_dir = input.root_dir;
        run_dir = run_dir;
        trace_path = host.disk.join_path (run_dir ∷ "trace.jsonl" ∷ []);
        summary_json_path = host.disk.join_path (run_dir ∷ "summary.json" ∷ []);
        summary_md_path = host.disk.join_path (run_dir ∷ "summary.md" ∷ []);
        latest_json_path = host.disk.join_path (input.root_dir ∷ "latest.json" ∷ []);
        latest_md_path = host.disk.join_path (input.root_dir ∷ "latest.md" ∷ []);
      }

  -- The variables after `startedAt` is read and the memory is loaded.
  unfoldable pub initial_run : MemoryFiles → Run N Unknown
  initial_run files =
      let learner_id = or_default input.learner_request.learner_id "demo_loop_weak_001" in
      let learner_memory = load_learner_memory host.disk input.root_dir files learner_id in
      record {
        clock = 1;
        run_id = or_default input.run_id (concat ("RUN-" ∷ show_nat host.date_now ∷ []));
        session_id =
            or_default input.session_id (concat ("SESSION-" ∷ show_nat host.date_now ∷ []));
        events = [];
        state = State.created;
        completed_steps = 0;
        status = Status.failed;
        blocked_stage = none;
        failed_stage = none;
        upstream_artifacts = ("learner-memory", memory learner_memory) ∷ [];
        input_refs = [];
        evidence_refs = [];
        learner_memory = learner_memory;
        learner_memory_ref = none;
        persistence_events = [];
        clarification_requests = [];
        artifact_files = [];
        memory_files = files;
      }

  -- `session_started`.
  unfoldable pub announce : Run N Unknown → Run N Unknown
  announce run =
      record_event host input
        (plain 0 TraceEventType.session_started run.state
          (concat ("learning-orchestrator started in " ∷ mode_name input.mode ∷ " mode" ∷ [])))
        run

  -- The branches on the transition to `intake_ready`.
  unfoldable pub after_intake : TransitionResult → Run N Unknown → Flow N Unknown
  after_intake (refused next error) run = stop (
      record_event host input
        (record (plain 0 TraceEventType.session_failed run.state error.message) {
          error =
              some
                (record { code = code_name error.code; message = error.message; severity = fatal });
        })
        (record run { failed_stage = some run.state }))
  after_intake (accepted next reason) run = go (
      record_event host input
        (plain 0 TraceEventType.state_transition next "created -> intake_ready")
        (record run { state = next }))

  unfoldable pub start_run : Run N Unknown → Flow N Unknown
  start_run run =
      let started = announce run in
      after_intake (transition started.state TransitionEvent.intake_ready) started

  unfoldable pub after_step : (Run N Unknown → Flow N Unknown) → Flow N Unknown → Flow N Unknown
  after_step rest (stop stopped) = stop stopped
  after_step rest (raise thrown) = raise thrown
  after_step rest (go next) = rest next

  -- The loop over the worker sequence; `index` is the number of rounds before.
  unfoldable pub run_loop : ℕ → List StepDefinition → Run N Unknown → Flow N Unknown
  run_loop index [] run = go run
  run_loop index (step ∷ steps) run =
      after_step (λ next. run_loop (suc index) steps next)
        (run_step host input (suc index) step run)

  -- The memory with the event of the session, and its file.
  unfoldable pub remember_session : State → Run N Unknown → Run N Unknown
  remember_session next run =
      let events =
        run.persistence_events
        ++ session_completed learning_orchestrator run.session_id (summary_text input) ∷ [] in
      let remembered = append_persistence_events run.learner_memory events (host.now run.clock) in
      let (files, path) =
        save_learner_memory host.disk input.root_dir run.memory_files remembered in
      record run {
        clock = suc run.clock;
        state = next;
        status = Status.completed;
        persistence_events = events;
        learner_memory = remembered;
        learner_memory_ref = some path;
        memory_files = files;
      }

  -- What follows the loop: completion, or a refused transition.
  unfoldable pub after_complete : TransitionResult → Run N Unknown → Run N Unknown
  after_complete (refused next error) run =
      fail_run host input (code_name error.code) error.message run
  after_complete (accepted next reason) run =
      record_event host input
        (record (plain (length worker_sequence + 1) TraceEventType.session_completed next
          "learning-orchestrator completed scaffold workflow") {
            input_refs = run.input_refs;
            evidence_refs = run.evidence_refs;
          })
        (remember_session next run)

  unfoldable pub complete_run : Run N Unknown → Run N Unknown
  complete_run run = after_complete (transition run.state complete) run

  unfoldable pub finish : String → Run N Unknown → RunResult N Unknown
  finish started_at run =
      let ledger = create_trace_ledger run.run_id in
      record {
        summary = record {
          schema_version = "1.0";
          run_id = run.run_id;
          session_id = run.session_id;
          mode = input.mode;
          status = run.status;
          started_at = started_at;
          finished_at = host.now run.clock;
          total_steps = length worker_sequence;
          completed_steps = run.completed_steps;
          blocked_stage = run.blocked_stage;
          failed_stage = run.failed_stage;
          events = run.events;
          artifacts =
              ("trace", ledger.trace_path)
              ∷ ("summary_json", ledger.summary_json_path)
              ∷ ("summary_md", ledger.summary_md_path)
              ∷ [];
          persistence_events = run.persistence_events;
          clarification_requests = run.clarification_requests;
          learner_memory_ref = run.learner_memory_ref;
        };
        ledger = ledger;
        final = run;
      }

  unfoldable pub after_loop : Flow N Unknown → Promised (Run N Unknown) (Thrown N Unknown)
  after_loop (stop stopped) = resolved stopped
  after_loop (raise thrown) = rejected thrown
  after_loop (go worked) = resolved (complete_run worked)

  unfoldable pub after_start : Flow N Unknown → Promised (Run N Unknown) (Thrown N Unknown)
  after_start (stop stopped) = resolved stopped
  after_start (raise thrown) = rejected thrown
  after_start (go started) = after_loop (run_loop 0 worker_sequence started)

  -- The run up to `finish`.
  unfoldable pub final_run : MemoryFiles → Promised (Run N Unknown) (Thrown N Unknown)
  final_run files = after_start (start_run (initial_run files))

  -- `return finish()`; an exception passes it by.
  unfoldable pub settle :
      Promised (Run N Unknown) (Thrown N Unknown)
      → Promised (RunResult N Unknown) (Thrown N Unknown)
  settle (resolved run) = resolved (finish (host.now 0) run)
  settle (rejected thrown) = rejected thrown

  unfoldable pub run_learning_orchestrator :
      MemoryFiles → Promised (RunResult N Unknown) (Thrown N Unknown)
  run_learning_orchestrator files = settle (final_run files)
