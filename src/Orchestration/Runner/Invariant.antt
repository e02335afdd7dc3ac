-- ===== src/Orchestration/Runner/Invariant.antt =====
-- The invariant of the runner's loop, and how a whole run ends.
use knowbalance.Prelude.{ℕ, suc, String, true, ◌≡◌, ◌≢◌, refl, inl, inr, none, List, [], ◌∷◌, arith}
use knowbalance.Prelude.Number.{Number}
use knowbalance.Orchestration.States.{State, StepDefinition, transition, worker_completed, accepted}
use knowbalance.Orchestration.Types.{
  Status, TraceEventType, WorkerResult, WorkerError, WorkerInvocation,
}
use knowbalance.Orchestration.Contract.{validate_worker_result, valid, invalid, Validation}
use knowbalance.Orchestration.Contract.Laws.{validate_worker_result-cases}
use knowbalance.Orchestration.Memory.{MemoryFiles}
use knowbalance.Orchestration.Runner.Steps.{
  Promised, resolved, rejected, Host, RunInput, Run, Flow, after_adapter, record_worker_terminal,
  step_event, advance_run, accept_status, accept_result, refuse_result, run_step, create_invocation,
  after_transition, after_validation, tick, decide_step, invoke_step, move_run, count_step,
}
use knowbalance.Orchestration.Runner.Exits.{
  Going, Stopped, Aborted, FlowHolds, worker_event_open, record_event-Going, fail_run-Stopped,
  block_run-Stopped, write_artifacts-Going, remember-Going, is_open,
}

validation-ne-empty :
    {N : Number} {Unknown : Type 0} (invocation : WorkerInvocation N Unknown)
    (result : WorkerResult N Unknown)
    → validate_worker_result invocation result ≢ invalid []
validation-ne-empty invocation result h = elim (validate_worker_result-cases invocation result) [
  | inl p ↦ ground (arith, p)
  | inr (first, rest, p) ↦ ground (arith, p)
]

module _ {N : Number} {Unknown : Type 0} (host : Host N Unknown) (input : RunInput)
    (files : MemoryFiles) where
  -- What a round leaves: a run in the next state, a stopped one, or an exception.
  abbrev pub RoundHolds : ℕ → State → State → Flow N Unknown → Type 0
  RoundHolds k s t flow =
      FlowHolds files (Going files (suc k) t) (Stopped files k s) (Aborted host files k s) flow

  counted-Going :
      {k : ℕ} {s : State} (run : Run N Unknown)
      → Going files k s run
      → Going files (suc k) s (count_step host input run)
  unfolding count_step
  counted-Going run g = record {
    state = g.state;
    counted = omega (arith, g.counted);
    status = g.status;
    not_blocked = g.not_blocked;
    not_failed = g.not_failed;
    unsaved = g.unsaved;
    untouched = g.untouched;
    trace = g.trace;
  }

  move_run-Going :
      {k : ℕ} {s : State} (step : StepDefinition) (result : WorkerResult N Unknown) (t : State)
      (run : Run N Unknown)
      → Going files k s run
      → Going files k t (move_run host input step result t run)
  unfolding move_run
  move_run-Going step result t run g = record {
    state = refl;
    counted = g.counted;
    status = g.status;
    not_blocked = g.not_blocked;
    not_failed = g.not_failed;
    unsaved = g.unsaved;
    untouched = g.untouched;
    trace = g.trace;
  }

  advance_run-Going :
      {k : ℕ} {s : State} (i : ℕ) (step : StepDefinition) (result : WorkerResult N Unknown)
      (t : State) (run : Run N Unknown)
      → Going files k s run
      → Going files (suc k) t (advance_run host input i step result t run)
  unfolding advance_run
  advance_run-Going i step result t run g = record_event-Going host input _ _ refl (
      move_run-Going step result t _ (
        remember-Going host input result _ (
          write_artifacts-Going host input input.artifact_dir i step result
            (count_step host input run) (counted-Going run g))))

  module _ {k : ℕ} {s : State} (step : StepDefinition)
      (arrow : transition s (worker_completed step.worker) ≡ accepted step.to none) where
    accept_status-RoundHolds :
        (status : Status) (i : ℕ) (result : WorkerResult N Unknown) (run : Run N Unknown)
        → Going files k s run
        → RoundHolds k s step.to (accept_status host input status i step result run)
    unfolding accept_status after_transition
    accept_status-RoundHolds Status.blocked i result run g = block_run-Stopped host input _ _ run g
    accept_status-RoundHolds Status.failed i result run g = fail_run-Stopped host input _ _ run g
    accept_status-RoundHolds Status.completed i result run g =
        let here : transition run.state (worker_completed step.worker) ≡ accepted step.to none =
          rw g.state arrow in
        rw here (advance_run-Going i step result step.to run g)

    accept_result-RoundHolds :
        (i : ℕ) (result : WorkerResult N Unknown) (duration_ms : ℕ) (run : Run N Unknown)
        → Going files k s run
        → RoundHolds k s step.to (accept_result host input i step result duration_ms run)
    unfolding accept_result record_worker_terminal
    accept_result-RoundHolds i result duration_ms run g =
        accept_status-RoundHolds result.status i result _
          (record_event-Going host input _ run (worker_event_open result.status) g)

    refuse_result-Stopped :
        (i : ℕ) (error : WorkerError) (errors : List WorkerError) (run : Run N Unknown)
        → Going files k s run
        → RoundHolds k s step.to (refuse_result host input i step (error ∷ errors) run)
    unfolding refuse_result
    refuse_result-Stopped i error errors run g =
        fail_run-Stopped host input _ _ _ (record_event-Going host input _ run refl g)

    after_validation-RoundHolds :
        (v : Validation N Unknown) (i duration_ms : ℕ) (run : Run N Unknown)
        → v ≢ invalid []
        → Going files k s run
        → RoundHolds k s step.to (after_validation host input v i step duration_ms run)
    unfolding after_validation
    after_validation-RoundHolds (invalid []) i d run full g = absurd (full refl)
    after_validation-RoundHolds (invalid (error ∷ errors)) i d run full g =
        refuse_result-Stopped i error errors run g
    after_validation-RoundHolds (valid result) i d run full g =
        accept_result-RoundHolds i result d run g

    pub tick-Going :
        (run : Run N Unknown) → Going files k s run → Going files k s (tick host input run)
    unfolding tick
    tick-Going run g = record {
      state = g.state;
      counted = g.counted;
      status = g.status;
      not_blocked = g.not_blocked;
      not_failed = g.not_failed;
      unsaved = g.unsaved;
      untouched = g.untouched;
      trace = g.trace;
    }

    pub step_event-Going :
        (type : TraceEventType) (i : ℕ) (message : String) (run : Run N Unknown)
        → is_open type ≡ true
        → Going files k s run
        → Going files k s (step_event host input type i step.worker message run)
    unfolding step_event
    step_event-Going type i message run e g = record_event-Going host input _ run e g

    after_adapter-RoundHolds :
        (given : Promised (WorkerResult N Unknown) String) (invocation : WorkerInvocation N Unknown)
        (i : ℕ) (started_at : String) (run : Run N Unknown)
        → host.run_worker_adapter invocation ≡ given
        → Going files k s run
        → RoundHolds k s step.to (after_adapter host input given invocation i step started_at run)
    unfolding after_adapter
    after_adapter-RoundHolds (rejected message) invocation i started_at run e g = record {
      going = g;
      invocation = invocation;
      cause = e;
    }
    after_adapter-RoundHolds (resolved result) invocation i started_at run e g =
        after_validation-RoundHolds _ i _ (tick host input run)
          (validation-ne-empty invocation result) (tick-Going run g)

    pub run_step-RoundHolds :
        (i : ℕ) (run : Run N Unknown)
        → Going files k s run
        → RoundHolds k s step.to (run_step host input i step run)
    unfolding run_step decide_step invoke_step
    run_step-RoundHolds i run g =
        let decided = decide_step host input i step run in
        after_adapter-RoundHolds _ (create_invocation host input decided i step.worker) i _
          (invoke_step host input i step (tick host input decided)) refl
          (step_event-Going _ i _ (tick host input decided) refl
            (tick-Going decided (step_event-Going _ i _ run refl g)))
