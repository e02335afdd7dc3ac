-- ===== src/Orchestration/Runner/Progress.antt =====
-- With reliable workers a run goes through to its end.
use knowbalance.Prelude.{ℕ, suc, ◌≡◌, refl, ap, none, some, List, [], ◌∷◌, arith}
use knowbalance.Prelude.Number.{Number}
use knowbalance.Orchestration.States.{
  State, StepDefinition, transition, worker_completed, accepted, worker_sequence, next_worker,
}
use knowbalance.Orchestration.States.Laws.{transition-next_worker}
use knowbalance.Orchestration.Types.{Status, WorkerInvocation, WorkerResult}
use knowbalance.Orchestration.Contract.{validate_worker_result, valid}
use knowbalance.Orchestration.Memory.{MemoryFiles}
use knowbalance.Orchestration.Runner.Steps.{
  Promised, resolved, Host, RunInput, Run, Thrown, Flow, go, stop, raise, after_adapter, run_step,
  after_validation, accept_result, accept_status, after_transition, record_worker_terminal, tick,
  decide_step, invoke_step, create_invocation,
}
use knowbalance.Orchestration.Runner.{
  after_step, run_loop, complete_run, after_loop, after_start, final_run, settle,
  run_learning_orchestrator, finish, RunResult,
}
use knowbalance.Orchestration.Runner.Exits.{
  Going, Completed, FlowHolds, record_event-Going, worker_event_open,
}
use knowbalance.Orchestration.Runner.Invariant.{
  run_step-RoundHolds, RoundHolds, tick-Going, step_event-Going,
}
use knowbalance.Orchestration.Runner.Endings.{
  Chained, sequence_Chained, complete_run-Completed, LoopHolds, run_loop-LoopHolds, start_run-Going,
  initial_run-Going,
}

-- For the worker that a stage expects, the adapter returns a completed result that meets the contract.
abbrev pub IsReliable : {N : Number} {Unknown : Type 0} → Host N Unknown → Type 0
IsReliable {N} {Unknown} host =
    (invocation : WorkerInvocation N Unknown)
    → next_worker invocation.stage ≡ some invocation.worker
    → (result : WorkerResult N Unknown) × (host.run_worker_adapter invocation ≡ resolved result)
      × (validate_worker_result invocation result ≡ valid result)
      × (result.status ≡ Status.completed)

module _ {N : Number} {Unknown : Type 0} (host : Host N Unknown) (input : RunInput)
    (files : MemoryFiles) (reliable : IsReliable host) where
  abbrev IsGo : Flow N Unknown → Type 0
  IsGo (go run) = Unit
  IsGo (stop run) = ⊥
  IsGo (raise thrown) = ⊥

  module _ {k : ℕ} {s : State} (step : StepDefinition)
      (arrow : transition s (worker_completed step.worker) ≡ accepted step.to none) where
    accept_status-IsGo :
        (status : Status) (i : ℕ) (result : WorkerResult N Unknown) (run : Run N Unknown)
        → status ≡ Status.completed
        → Going files k s run
        → IsGo (accept_status host input status i step result run)
    unfolding accept_status after_transition
    accept_status-IsGo Status.blocked i result run done g = absurd (ground arith)
    accept_status-IsGo Status.failed i result run done g = absurd (ground arith)
    accept_status-IsGo Status.completed i result run done g =
        let here : transition run.state (worker_completed step.worker) ≡ accepted step.to none =
          rw g.state arrow in
        rw here tt

    after_validation-IsGo :
        (result : WorkerResult N Unknown) (i duration_ms : ℕ) (run : Run N Unknown)
        → result.status ≡ Status.completed
        → Going files k s run
        → IsGo (after_validation host input (valid result) i step duration_ms run)
    unfolding after_validation accept_result record_worker_terminal
    after_validation-IsGo result i duration_ms run done g =
        accept_status-IsGo result.status i result _ done
          (record_event-Going host input _ run (worker_event_open result.status) g)

    run_step-IsGo :
        (i : ℕ) (run : Run N Unknown) → Going files k s run → IsGo (run_step host input i step run)
    unfolding run_step decide_step invoke_step create_invocation after_adapter
    run_step-IsGo i run g =
        let decided = decide_step host input i step run in
        let invoked = invoke_step host input i step (tick host input decided) in
        let invocation = create_invocation host input decided i step.worker in
        let h : Going files k s decided =
          step_event-Going host input files step arrow _ i _ run refl g in
        let asked : next_worker invocation.stage ≡ some invocation.worker =
          rw h.state ((transition-next_worker s step.worker).0 (step.to, arrow)) in
        let (result, given, conforms, done) = reliable invocation asked in
        rw (given, conforms)
          (after_validation-IsGo result i _ (tick host input invoked) done (
            tick-Going host input files step arrow invoked (
              step_event-Going host input files step arrow _ i _ (tick host input decided) refl
                (tick-Going host input files step arrow decided h))))

  after_step-IsGo :
      (k : ℕ) (s t : State) (rest : Run N Unknown → Flow N Unknown) (flow : Flow N Unknown)
      → ((run : Run N Unknown) → Going files (suc k) t run → IsGo (rest run))
      → RoundHolds host input files k s t flow
      → IsGo flow
      → IsGo (after_step host input rest flow)
  unfolding after_step
  after_step-IsGo k s t rest (go run) later g going = later run g
  after_step-IsGo k s t rest (stop run) later h going = going
  after_step-IsGo k s t rest (raise thrown) later h going = going

  run_loop-IsGo :
      (k i : ℕ) (s : State) (steps : List StepDefinition) (run : Run N Unknown)
      → Chained host input files k s steps
      → Going files k s run
      → IsGo (run_loop host input i steps run)
  unfolding run_loop
  run_loop-IsGo k i s [] run chained g = tt
  run_loop-IsGo k i s (step ∷ steps) run (early, at, arrow, chained) g =
      after_step-IsGo k s step.to _ _
        (λ next h. run_loop-IsGo (suc k) (suc i) step.to steps next chained h)
        (run_step-RoundHolds host input files step arrow (suc i) run g)
        (run_step-IsGo step arrow (suc i) run g)

  -- The run returns, and is completed.
  abbrev pub Returns : Promised (Run N Unknown) (Thrown N Unknown) → Type 0
  Returns ended = (run : Run N Unknown) × (ended ≡ resolved run) × Completed host input files run

  after_loop-Completed :
      (flow : Flow N Unknown)
      → LoopHolds host input files flow
      → IsGo flow
      → Returns (after_loop host input flow)
  unfolding after_loop
  after_loop-Completed (go run) g going =
      (complete_run host input run, refl, complete_run-Completed host input files run g)
  after_loop-Completed (stop run) h going = absurd going
  after_loop-Completed (raise thrown) h going = absurd going

  after_start-Completed :
      (flow : Flow N Unknown)
      → FlowHolds files (Going files 0 State.intake_ready) (λ stopped. ⊥) (λ thrown. ⊥) flow
      → Returns (after_start host input flow)
  unfolding after_start
  after_start-Completed (stop run) h = absurd h
  after_start-Completed (raise thrown) h = absurd h
  after_start-Completed (go run) g =
      let chain = sequence_Chained host input files in
      after_loop-Completed _
        (run_loop-LoopHolds host input files 0 0 State.intake_ready worker_sequence run chain g)
        (run_loop-IsGo 0 0 State.intake_ready worker_sequence run chain g)

  pub final_run-Completed : Returns (final_run host input files)
  unfolding final_run
  final_run-Completed =
      after_start-Completed _
        (start_run-Going host input files _ (initial_run-Going host input files))

-- A run that returns, with all eight workers completed.
abbrev pub RunsThrough :
    {N : Number} {Unknown : Type 0} → Promised (RunResult N Unknown) (Thrown N Unknown) → Type 0
RunsThrough {N} {Unknown} ended =
    (result : RunResult N Unknown) × (ended ≡ resolved result)
    × (result.summary.status ≡ Status.completed)
    × (result.summary.completed_steps ≡ 8)

-- If the adapter returns, for the worker that the stage of its invocation expects, a completed
-- result that meets the contract, then every run returns, with all eight workers completed.
pub run_learning_orchestrator-completes :
    {N : Number} {Unknown : Type 0} (host : Host N Unknown) (input : RunInput) (files : MemoryFiles)
    → IsReliable host
    → RunsThrough (run_learning_orchestrator host input files)
unfolding run_learning_orchestrator settle finish
run_learning_orchestrator-completes host input files reliable =
    let (run, returned, c) = final_run-Completed host input files reliable in
    (finish host input (host.now 0) run, ap (settle host input) returned, c.status, c.counted)
