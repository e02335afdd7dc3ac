-- ===== src/Orchestration/Runner/Steps.antt =====
-- The state of a run, its trace, and one round of the worker loop.
use knowbalance.Prelude.{
  ℕ, suc, ◌+◌, ◌-◌, String, Option, none, some, List, [], ◌∷◌, ◌++◌, map, head?, string_Eq, ◌==◌,
  if◌then◌else◌,
}
use knowbalance.Prelude.Text.{concat, show_nat}
use knowbalance.Prelude.Dict.{insert}
use knowbalance.Prelude.Number.{Number}
use knowbalance.Orchestration.States.{
  State, Worker, StepDefinition, state_name, worker_name, transition, worker_completed,
  TransitionResult, accepted, refused, TransitionCode, illegal_transition, wrong_worker,
  terminal_state,
}
use knowbalance.Orchestration.Types.{
  Mode, Status, Slot, absent, malformed, given, LearnerRequest, MasteryUpdate, ClarificationRequest,
  EvidenceRef, WorkerError, Severity, fatal, recoverable, PersistenceEvent, mastery_update,
  by_worker, LearnerMemorySnapshot, Upstream, memory, artifacts, WorkerInvocation, WorkerResult,
  TraceEvent, TraceEventType,
}
use knowbalance.Orchestration.Contract.{Validation, valid, invalid, validate_worker_result}
use knowbalance.Orchestration.Memory.{append_persistence_events, MemoryFiles, Disk}

-- How an awaited promise settles.
pub data Promised (A E : Type 0) : Type 0 where
  resolved : A → Promised A E
  rejected : (reason : E) → Promised A E

-- What the runner takes from outside: the readings of the clock in order, `Date.parse`, the size of
-- a result as JSON, the adapters, which can throw, and the disk.
pub record Host (N : Number) (Unknown : Type 0) : Type 0 where
  pub now : ℕ → String
  pub date_now : ℕ
  pub parse_date : String → ℕ
  pub size_of : WorkerResult N Unknown → ℕ
  pub run_worker_adapter : WorkerInvocation N Unknown → Promised (WorkerResult N Unknown) String
  pub disk : Disk N

pub record RunInput : Type 0 where
  pub root_dir : String
  pub run_id : Option String
  pub session_id : Option String
  pub mode : Mode
  pub learner_request : LearnerRequest
  pub artifact_dir : Option String

-- The variables of `runLearningOrchestrator`; `clock` counts the calls of `now`, and
-- `artifact_files` are the files below `artifact_dir`.
pub record Run (N : Number) (Unknown : Type 0) : Type 0 where
  pub clock : ℕ
  pub run_id : String
  pub session_id : String
  pub events : List TraceEvent
  pub state : State
  pub completed_steps : ℕ
  pub status : Status
  pub blocked_stage : Option State
  pub failed_stage : Option State
  pub upstream_artifacts : List (String × Upstream N Unknown)
  pub input_refs : List String
  pub evidence_refs : List EvidenceRef
  pub learner_memory : LearnerMemorySnapshot N
  pub learner_memory_ref : Option String
  pub persistence_events : List (PersistenceEvent N)
  pub clarification_requests : List ClarificationRequest
  pub artifact_files : List (String × Slot Unknown)
  pub memory_files : MemoryFiles

-- The argument of `record`.
pub record EventBody : Type 0 where
  pub step_index : ℕ
  pub event_type : TraceEventType
  pub stage : State
  pub worker : Option Worker
  pub message : String
  pub input_refs : List String
  pub output_refs : List String
  pub evidence_refs : List EvidenceRef
  pub duration_ms : Option ℕ
  pub result_size_bytes : Option ℕ
  pub error : Option WorkerError

-- A run that an exception leaves, with the message of the exception.
pub record Thrown (N : Number) (Unknown : Type 0) : Type 0 where
  pub message : String
  pub run : Run N Unknown

-- A loop that goes on, a `return finish()`, or an exception that nothing catches.
pub data Flow (N : Number) (Unknown : Type 0) : Type 0 where
  go : Run N Unknown → Flow N Unknown
  stop : Run N Unknown → Flow N Unknown
  raise : Thrown N Unknown → Flow N Unknown

-- An event with no worker, refs, measures or error.
abbrev pub plain : ℕ → TraceEventType → State → String → EventBody
plain step_index event_type stage message = record {
  step_index = step_index;
  event_type = event_type;
  stage = stage;
  worker = none;
  message = message;
  input_refs = [];
  output_refs = [];
  evidence_refs = [];
  duration_ms = none;
  result_size_bytes = none;
  error = none;
}

abbrev pub items_of : {A : Type 0} → Slot (List A) → List A
items_of absent = []
items_of malformed = []
items_of (given xs) = xs

abbrev pub code_name : TransitionCode → String
code_name illegal_transition = "ILLEGAL_TRANSITION"
code_name wrong_worker = "WRONG_WORKER"
code_name terminal_state = "TERMINAL_STATE"

abbrev pub worker_event : Status → TraceEventType
worker_event Status.completed = TraceEventType.worker_completed
worker_event Status.blocked = TraceEventType.worker_blocked
worker_event Status.failed = TraceEventType.worker_failed

-- The severity of the error of a terminal event.
abbrev pub terminal_severity : TraceEventType → Severity
terminal_severity TraceEventType.session_failed = fatal
terminal_severity _ = recoverable

abbrev pub first_code : Slot (List WorkerError) → String → String
first_code errors other = elim (head? (items_of errors)) [ none ↦ other | some e ↦ e.code ]

abbrev pub first_message : Slot (List WorkerError) → String → String
first_message errors other = elim (head? (items_of errors)) [ none ↦ other | some e ↦ e.message ]

module _ {N : Number} {Unknown : Type 0} (host : Host N Unknown) (input : RunInput) where
  -- The inner function `record`: it reads the clock and appends to the trace.
  unfoldable pub record_event : EventBody → Run N Unknown → Run N Unknown
  record_event body run = record run {
    clock = suc run.clock;
    events =
        run.events
        ++ record {
          schema_version = "1.0";
          run_id = run.run_id;
          session_id = run.session_id;
          step_index = body.step_index;
          event_type = body.event_type;
          stage = body.stage;
          worker = body.worker;
          message = body.message;
          input_refs = body.input_refs;
          output_refs = body.output_refs;
          evidence_refs = body.evidence_refs;
          duration_ms = body.duration_ms;
          result_size_bytes = body.result_size_bytes;
          error = body.error;
          timestamp = host.now run.clock;
        }
          ∷ [];
  }

  unfoldable pub record_worker_terminal :
      ℕ → WorkerResult N Unknown → (duration_ms : ℕ) → (size : ℕ) → Run N Unknown → Run N Unknown
  record_worker_terminal step_index result duration_ms size run =
      record_event
        (record {
          step_index = step_index;
          event_type = worker_event result.status;
          stage = run.state;
          worker = some result.worker;
          message = result.summary;
          input_refs = run.input_refs;
          output_refs = items_of result.output_refs;
          evidence_refs = items_of result.evidence_refs;
          duration_ms = some duration_ms;
          result_size_bytes = some size;
          error = head? (items_of result.errors);
        })
        run

  unfoldable pub record_terminal :
      TraceEventType → (code message : String) → Run N Unknown → Run N Unknown
  record_terminal event_type code message run =
      record_event
        (record {
          step_index = run.completed_steps + 1;
          event_type = event_type;
          stage = run.state;
          worker = none;
          message = message;
          input_refs = run.input_refs;
          output_refs = [];
          evidence_refs = run.evidence_refs;
          duration_ms = none;
          result_size_bytes = none;
          error =
              some (record {
                code = code;
                message = message;
                severity = terminal_severity event_type;
              });
        })
        run

  -- The two exits of the loop body, `failedStage = state` and `blockedStage = state`.
  unfoldable pub fail_run : (code message : String) → Run N Unknown → Run N Unknown
  fail_run code message run =
      record_terminal TraceEventType.session_failed code message
        (record run { failed_stage = some run.state; status = Status.failed })

  unfoldable pub block_run : (code message : String) → Run N Unknown → Run N Unknown
  block_run code message run =
      record_terminal TraceEventType.session_blocked code message
        (record run { blocked_stage = some run.state; status = Status.blocked })

  -- `createScaffoldWorkerInvocation` with the mode of the input.
  unfoldable pub create_invocation : Run N Unknown → ℕ → Worker → WorkerInvocation N Unknown
  create_invocation run step_index worker = record {
    schema_version = "1.0";
    session_id = run.session_id;
    run_id = run.run_id;
    step_index = step_index;
    stage = run.state;
    worker = worker;
    learner_request = input.learner_request;
    upstream_artifacts = run.upstream_artifacts;
    input_refs = run.input_refs;
    evidence_refs = run.evidence_refs;
    retry_count = 0;
    mode = input.mode;
  }

  -- `orchestrator_decision` and `worker_invoked`.
  unfoldable pub step_event : TraceEventType → ℕ → Worker → String → Run N Unknown → Run N Unknown
  step_event event_type step_index worker message run =
      record_event
        (record {
          step_index = step_index;
          event_type = event_type;
          stage = run.state;
          worker = some worker;
          message = message;
          input_refs = run.input_refs;
          output_refs = [];
          evidence_refs = run.evidence_refs;
          duration_ms = none;
          result_size_bytes = none;
          error = none;
        })
        run

  -- The artifacts of the worker as a file.
  unfoldable pub write_artifacts :
      Option String → ℕ → Worker → WorkerResult N Unknown → Run N Unknown → Run N Unknown
  write_artifacts none step_index worker result run = run
  write_artifacts (some dir) step_index worker result run = if dir == "" then run else record run {
    artifact_files =
        insert
          (host.disk.join_path (
            dir
            ∷ "artifacts"
            ∷ concat ("step" ∷ show_nat step_index ∷ "-" ∷ worker_name worker ∷ ".json" ∷ [])
            ∷ []))
          result.artifacts run.artifact_files;
  }

  unfoldable pub as_event : Worker → MasteryUpdate N → PersistenceEvent N
  as_event worker update =
      mastery_update (by_worker worker) update.source_id update.mastery update.evidence

  -- The events of the result are appended and the memory is brought up to date.
  unfoldable pub remember : WorkerResult N Unknown → Run N Unknown → Run N Unknown
  remember result run =
      let events =
        (run.persistence_events ++ items_of result.persistence_events)
        ++ map (as_event result.worker) (items_of result.mastery_updates) in
      record run {
        clock = suc run.clock;
        persistence_events = events;
        clarification_requests =
            run.clarification_requests ++ items_of result.clarification_requests;
        learner_memory = append_persistence_events run.learner_memory events (host.now run.clock);
      }

  -- What the next round is given.
  unfoldable pub move_run :
      StepDefinition → WorkerResult N Unknown → State → Run N Unknown → Run N Unknown
  move_run step result next run = record run {
    upstream_artifacts =
        insert (worker_name step.worker) (artifacts result.artifacts)
          (insert "learner-memory" (memory run.learner_memory) run.upstream_artifacts);
    input_refs = items_of result.output_refs;
    evidence_refs = items_of result.evidence_refs;
    state = next;
  }

  -- `completedSteps += 1`
  unfoldable pub count_step : Run N Unknown → Run N Unknown
  count_step run = record run { completed_steps = run.completed_steps + 1 }

  -- The rest of the round, after the transition to `next` was accepted.
  unfoldable pub advance_run :
      ℕ → StepDefinition → WorkerResult N Unknown → State → Run N Unknown → Run N Unknown
  advance_run step_index step result next run =
      record_event
        (record {
          step_index = step_index;
          event_type = TraceEventType.state_transition;
          stage = next;
          worker = some step.worker;
          message = concat (state_name step.from ∷ " -> " ∷ state_name next ∷ []);
          input_refs = [];
          output_refs = items_of result.output_refs;
          evidence_refs = items_of result.evidence_refs;
          duration_ms = none;
          result_size_bytes = none;
          error = none;
        })
        (move_run step result next (
          remember result
            (write_artifacts input.artifact_dir step_index step.worker result (count_step run))))

  -- The branches on the transition of a completed worker.
  unfoldable pub after_transition :
      TransitionResult
      → ℕ
      → StepDefinition
      → WorkerResult N Unknown
      → Run N Unknown
      → Flow N Unknown
  after_transition (accepted next reason) step_index step result run =
      go (advance_run step_index step result next run)
  after_transition (refused next error) step_index step result run =
      stop (fail_run (code_name error.code) error.message run)

  -- What follows a result that meets the contract: the branches on its status.
  unfoldable pub accept_status :
      Status → ℕ → StepDefinition → WorkerResult N Unknown → Run N Unknown → Flow N Unknown
  accept_status Status.blocked step_index step result run = stop (
      block_run (first_code result.errors "WORKER_BLOCKED")
        (first_message result.errors result.summary) run)
  accept_status Status.failed step_index step result run = stop (
      fail_run (first_code result.errors "WORKER_FAILED")
        (first_message result.errors result.summary) run)
  accept_status Status.completed step_index step result run =
      after_transition (transition run.state (worker_completed step.worker)) step_index step result
        run

  -- A valid result: its terminal event, and the branches on its status.
  unfoldable pub accept_result :
      ℕ
      → StepDefinition
      → WorkerResult N Unknown
      → (duration_ms : ℕ) → Run N Unknown
      → Flow N Unknown
  accept_result step_index step result duration_ms run =
      accept_status result.status step_index step result
        (record_worker_terminal step_index result duration_ms (host.size_of result) run)

  -- A result that breaks the contract; the list of errors is never empty.
  unfoldable pub refuse_result :
      ℕ → StepDefinition → List WorkerError → Run N Unknown → Flow N Unknown
  refuse_result step_index step [] run = stop run
  refuse_result step_index step (error ∷ errors) run = stop (
      fail_run error.code error.message (
        record_event
          (record {
            step_index = step_index;
            event_type = TraceEventType.worker_failed;
            stage = run.state;
            worker = some step.worker;
            message = concat ("worker contract invalid: " ∷ error.message ∷ []);
            input_refs = run.input_refs;
            output_refs = [];
            evidence_refs = run.evidence_refs;
            duration_ms = none;
            result_size_bytes = none;
            error = some error;
          })
          run))

  -- The branches on the contract.
  unfoldable pub after_validation :
      Validation N Unknown → ℕ → StepDefinition → (duration_ms : ℕ) → Run N Unknown → Flow N Unknown
  after_validation (invalid errors) step_index step duration_ms run =
      refuse_result step_index step errors run
  after_validation (valid result) step_index step duration_ms run =
      accept_result step_index step result duration_ms run

  -- A reading of the clock whose value is kept outside the run.
  unfoldable pub tick : Run N Unknown → Run N Unknown
  tick run = record run { clock = suc run.clock }

  unfoldable pub decide_step : ℕ → StepDefinition → Run N Unknown → Run N Unknown
  decide_step step_index step run =
      step_event TraceEventType.orchestrator_decision step_index step.worker
        (concat ("delegate " ∷ state_name step.from ∷ " to " ∷ worker_name step.worker ∷ [])) run

  unfoldable pub invoke_step : ℕ → StepDefinition → Run N Unknown → Run N Unknown
  invoke_step step_index step run =
      step_event TraceEventType.worker_invoked step_index step.worker
        (concat ("invoke " ∷ worker_name step.worker ∷ [])) run

  -- What follows the `await` of the adapter, which no `catch` surrounds.
  unfoldable pub after_adapter :
      Promised (WorkerResult N Unknown) String
      → WorkerInvocation N Unknown
      → ℕ
      → StepDefinition
      → (started_at : String) → Run N Unknown
      → Flow N Unknown
  after_adapter (rejected message) invocation step_index step started_at run =
      raise (record { message = message; run = run })
  after_adapter (resolved result) invocation step_index step started_at run =
      after_validation (validate_worker_result invocation result) step_index step
        (host.parse_date (host.now run.clock) - host.parse_date started_at) (tick run)

  -- One round of the loop over the worker sequence.
  unfoldable pub run_step : ℕ → StepDefinition → Run N Unknown → Flow N Unknown
  run_step step_index step run =
      let decided = decide_step step_index step run in
      let invocation = create_invocation decided step_index step.worker in
      let started_at = host.now decided.clock in
      let invoked = invoke_step step_index step (tick decided) in
      after_adapter (host.run_worker_adapter invocation) invocation step_index step started_at
        invoked
