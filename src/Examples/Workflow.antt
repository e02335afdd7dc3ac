-- ===== src/Examples/Workflow.antt =====
-- Runs of src/orchestration: the state machine, the contract and the runner.
use knowbalance.Prelude.{◌≡◌, ◌↔◌, refl, String, Option, none, some, [], string_Eq}
use knowbalance.Prelude.Number.{millionths}
use knowbalance.Orchestration.States.{
  State, Worker, TransitionEvent, TransitionError, terminal_state, accepted, refused, transition,
}
use knowbalance.Orchestration.States.Laws.{
  drive, full_run, Edge, IsFinal, drive-completed_iff, transition_terminal, transition-accepted_iff,
}
use knowbalance.Orchestration.Types.{scaffold, LearnerRequest, WorkerInvocation, WorkerResult}
use knowbalance.Orchestration.Contract.{validate_worker_result, valid}
use knowbalance.Orchestration.Contract.Laws.{Conforms, validate_worker_result-Conforms}
use knowbalance.Orchestration.Adapters.{Artifacts, run_scaffold_worker_adapter}
use knowbalance.Orchestration.Adapters.Laws.{
  scaffold-IsAccepted, run_scaffold_worker_adapter-completes,
}
use knowbalance.Orchestration.Runner.Steps.{resolved, rejected, Host, RunInput}
use knowbalance.Orchestration.Runner.{run_learning_orchestrator}
use knowbalance.Orchestration.Runner.Outcome.{
  HasTrace, HasStages, KeepsMemory, run_learning_orchestrator-trace,
  run_learning_orchestrator-stages, run_learning_orchestrator-memory,
}
use knowbalance.Orchestration.Runner.Progress.{RunsThrough, run_learning_orchestrator-completes}

drive-completed_iff_example :
    (drive State.created full_run ≡ some State.completed) ↔ (full_run ≡ full_run)
drive-completed_iff_example = drive-completed_iff full_run

transition_terminal_example :
    (((e : TransitionEvent)
        → (error : TransitionError) × (transition State.blocked e ≡ refused State.blocked error))
      → IsFinal State.blocked)
    × (IsFinal State.blocked
        → (e : TransitionEvent)
        → (error : TransitionError) × (transition State.blocked e ≡ refused State.blocked error)
          × (error.code ≡ terminal_state))
transition_terminal_example = transition_terminal State.blocked

transition-accepted_iff_example :
    ((reason : Option String) × (transition State.created TransitionEvent.intake_ready
        ≡ accepted State.intake_ready reason))
    ↔ Edge State.created TransitionEvent.intake_ready State.intake_ready
transition-accepted_iff_example =
    transition-accepted_iff State.created TransitionEvent.intake_ready State.intake_ready

abbrev request : LearnerRequest
request = record {
  learner_id = some "learner-1";
  goal = "for 循环";
  background = none;
  self_rating = none;
  diagnostic_seed = none;
  learning_goal_spec = none;
}

abbrev tutor_invocation : WorkerInvocation millionths Artifacts
tutor_invocation = record {
  schema_version = "1.0";
  session_id = "session-1";
  run_id = "run-1";
  step_index = 6;
  stage = State.path_planned;
  worker = Worker.concept_tutor;
  learner_request = request;
  upstream_artifacts = [];
  input_refs = [];
  evidence_refs = [];
  retry_count = 0;
  mode = scaffold;
}

abbrev tutor_result : WorkerResult millionths Artifacts
tutor_result = run_scaffold_worker_adapter tutor_invocation

validate_worker_result-Conforms_example :
    (validate_worker_result tutor_invocation tutor_result ≡ valid tutor_result)
    ↔ Conforms tutor_invocation tutor_result
validate_worker_result-Conforms_example =
    validate_worker_result-Conforms tutor_invocation tutor_result

abbrev stale_result : WorkerResult millionths Artifacts
stale_result = record tutor_result { run_id = "run-0" }

-- A host whose workers are all scaffold workers, and one whose workers all answer for a stale run.
abbrev scaffold_host : Host millionths Artifacts
scaffold_host = record {
  now = λ reading. "2026-01-01T00:00:00.000Z";
  date_now = 5;
  parse_date = λ text. 0;
  size_of = λ result. 100;
  run_worker_adapter = λ invocation. resolved (run_scaffold_worker_adapter invocation);
  disk = record {
    stringify = λ snapshot. snapshot.learner_id;
    parse = λ text. none;
    join_path = λ parts. "out";
  };
}

abbrev stale_host : Host millionths Artifacts
stale_host = record scaffold_host {
  run_worker_adapter =
      λ invocation. resolved (record (run_scaffold_worker_adapter invocation) { run_id = "stale" });
}

abbrev input : RunInput
input = record {
  root_dir = "root";
  run_id = some "run-1";
  session_id = some "session-1";
  mode = scaffold;
  learner_request = request;
  artifact_dir = some "artifacts";
}

-- An adapter that throws.
abbrev broken_host : Host millionths Artifacts
broken_host = record scaffold_host {
  run_worker_adapter = λ invocation. rejected "no model provider";
}

run_learning_orchestrator-trace_example :
    HasTrace broken_host (run_learning_orchestrator broken_host input [])
run_learning_orchestrator-trace_example = run_learning_orchestrator-trace broken_host input []

run_learning_orchestrator-stages_example : HasStages (run_learning_orchestrator stale_host input [])
run_learning_orchestrator-stages_example = run_learning_orchestrator-stages stale_host input []

run_learning_orchestrator-memory_example :
    KeepsMemory scaffold_host input [] (run_learning_orchestrator scaffold_host input [])
run_learning_orchestrator-memory_example = run_learning_orchestrator-memory scaffold_host input []

run_scaffold_worker_adapter-completes_example :
    RunsThrough (run_learning_orchestrator scaffold_host input [])
run_scaffold_worker_adapter-completes_example =
    run_scaffold_worker_adapter-completes scaffold_host input [] (λ invocation. refl)

run_learning_orchestrator-completes_example :
    RunsThrough (run_learning_orchestrator scaffold_host input [])
run_learning_orchestrator-completes_example =
    run_learning_orchestrator-completes scaffold_host input [] (λ invocation asked.
      let (conforms, done) = scaffold-IsAccepted invocation asked in
      (run_scaffold_worker_adapter invocation, refl, conforms, done))
