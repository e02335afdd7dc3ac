-- ===== src/Orchestration/Runner/Endings.antt =====
-- The rounds of a run, put together: how its loop and its last steps end.
use knowbalance.Prelude.{
  ℕ, suc, ◌<◌, true, ◌≡◌, refl, ◌∙◌, ◌⊎◌, inl, inr, none, List, [], ◌∷◌, ◌++◌, arith, includes,
  string_Eq, includes-append,
}
use knowbalance.Prelude.Number.{Number}
use knowbalance.Orchestration.States.{
  State, StepDefinition, transition, TransitionEvent, worker_completed, complete, accepted,
  worker_sequence, state_at,
}
use knowbalance.Orchestration.Types.{PersistenceEvent, session_completed, learning_orchestrator}
use knowbalance.Orchestration.Memory.{MemoryFiles}
use knowbalance.Orchestration.Memory.Laws.{includes-completed_sessions, sessions, sessions-append}
use knowbalance.Orchestration.Runner.Steps.{
  Promised, resolved, rejected, Host, RunInput, Run, Thrown, Flow, go, stop, raise, record_event,
}
use knowbalance.Orchestration.Runner.{
  initial_run, announce, after_intake, start_run, after_step, run_loop, remember_session,
  after_complete, complete_run, after_loop, after_start, final_run, summary_text,
}
use knowbalance.Orchestration.Runner.Exits.{
  Going, Completed, Halted, AbortedEarly, FlowHolds, record_event-Going,
}
use knowbalance.Orchestration.Runner.Invariant.{RoundHolds, run_step-RoundHolds}

intake_arrow :
    transition State.created TransitionEvent.intake_ready ≡ accepted State.intake_ready none
unfolding transition
intake_arrow = refl

complete_arrow : transition State.assessment_ready complete ≡ accepted State.completed none
unfolding transition
complete_arrow = refl

module _ {N : Number} {Unknown : Type 0} (host : Host N Unknown) (input : RunInput)
    (files : MemoryFiles) where
  -- The rounds that are left lead from state to state, up to `assessment_ready`.
  abbrev pub Chained : ℕ → State → List StepDefinition → Type 0
  Chained k s [] = (k ≡ 8) × (s ≡ State.assessment_ready)
  Chained k s (step ∷ steps) =
      (k < 8)
      × (s ≡ state_at (suc k))
      × (transition s (worker_completed step.worker) ≡ accepted step.to none)
      × Chained (suc k) step.to steps

  pub sequence_Chained : Chained 0 State.intake_ready worker_sequence
  unfolding transition
  sequence_Chained = ground arith

  abbrev pub LoopHolds : Flow N Unknown → Type 0
  LoopHolds flow =
      FlowHolds files (Going files 8 State.assessment_ready) (Halted files)
        (AbortedEarly host files) flow

  after_step-LoopHolds :
      (k : ℕ) (s t : State) (rest : Run N Unknown → Flow N Unknown) (flow : Flow N Unknown)
      → k < 8
      → s ≡ state_at (suc k)
      → ((run : Run N Unknown) → Going files (suc k) t run → LoopHolds (rest run))
      → RoundHolds host input files k s t flow
      → LoopHolds (after_step host input rest flow)
  unfolding after_step
  after_step-LoopHolds k s t rest (go run) early at later g = later run g
  after_step-LoopHolds k s t rest (stop run) early at later h = record {
    after = k;
    early = early;
    stopped = rw (← at) h;
  }
  after_step-LoopHolds k s t rest (raise thrown) early at later h = record {
    after = k;
    early = early;
    aborted = rw (← at) h;
  }

  pub run_loop-LoopHolds :
      (k i : ℕ) (s : State) (steps : List StepDefinition) (run : Run N Unknown)
      → Chained k s steps
      → Going files k s run
      → LoopHolds (run_loop host input i steps run)
  unfolding run_loop
  run_loop-LoopHolds k i s [] run (all_done, ready) g = rw (← all_done, ← ready) g
  run_loop-LoopHolds k i s (step ∷ steps) run (early, at, arrow, chained) g =
      after_step-LoopHolds k s step.to _ _ early at
        (λ next h. run_loop-LoopHolds (suc k) (suc i) step.to steps next chained h)
        (run_step-RoundHolds host input files step arrow (suc i) run g)

  pub initial_run-Going : Going files 0 State.created (initial_run host input files)
  unfolding initial_run
  initial_run-Going = record {
    state = refl;
    counted = refl;
    status = refl;
    not_blocked = refl;
    not_failed = refl;
    unsaved = refl;
    untouched = refl;
    trace = refl;
  }

  enter-Going :
      (t : State) (run : Run N Unknown)
      → Going files 0 State.created run
      → Going files 0 t (record run { state = t })
  enter-Going t run g = record {
    state = refl;
    counted = g.counted;
    status = g.status;
    not_blocked = g.not_blocked;
    not_failed = g.not_failed;
    unsaved = g.unsaved;
    untouched = g.untouched;
    trace = g.trace;
  }

  remember_session-includes :
      (t : State) (run : Run N Unknown)
      → includes
          (remember_session host input t run).learner_memory.completed_sessions
          run.session_id
        ≡ true
  unfolding remember_session
  remember_session-includes t run =
      let last : List (PersistenceEvent N) =
        session_completed learning_orchestrator run.session_id (summary_text input) ∷ [] in
      includes-completed_sessions run.learner_memory (run.persistence_events ++ last)
        (host.now run.clock) run.session_id
      ∙ ground (
        arith,
        sessions-append run.persistence_events last,
        includes-append (sessions run.persistence_events) (run.session_id ∷ []) run.session_id,
        string_Eq.beq_iff run.session_id run.session_id,
      )

  after_complete-Completed :
      (run : Run N Unknown)
      → Going files 8 State.assessment_ready run
      → Completed host input files (after_complete host input (accepted State.completed none) run)
  unfolding after_complete remember_session record_event
  after_complete-Completed run g = record {
    state = refl;
    counted = g.counted;
    status = refl;
    not_blocked = g.not_blocked;
    not_failed = g.not_failed;
    saved = rw (← g.untouched) refl;
    saved_as = rw (← g.untouched) refl;
    remembered = remember_session-includes State.completed run;
    trace = record {
      before = run.events;
      last = _;
      split = refl;
      open_before = g.trace;
      last_type = refl;
    };
  }

  pub complete_run-Completed :
      (run : Run N Unknown)
      → Going files 8 State.assessment_ready run
      → Completed host input files (complete_run host input run)
  unfolding complete_run
  complete_run-Completed run g =
      let arrow : transition run.state complete ≡ accepted State.completed none =
        rw g.state complete_arrow in
      rw arrow (after_complete-Completed run g)

  abbrev pub Ends : Promised (Run N Unknown) (Thrown N Unknown) → Type 0
  Ends (resolved run) = Completed host input files run ⊎ Halted files run
  Ends (rejected thrown) = AbortedEarly host files thrown

  after_loop-Ends : (flow : Flow N Unknown) → LoopHolds flow → Ends (after_loop host input flow)
  unfolding after_loop
  after_loop-Ends (go run) g = inl (complete_run-Completed run g)
  after_loop-Ends (stop run) h = inr h
  after_loop-Ends (raise thrown) h = h

  announce-Going :
      (run : Run N Unknown)
      → Going files 0 State.created run
      → Going files 0 State.created (announce host input run)
  unfolding announce
  announce-Going run g = record_event-Going host input _ run refl g

  after_intake-Going :
      (run : Run N Unknown)
      → Going files 0 State.created run
      → FlowHolds files
          (Going files 0 State.intake_ready)
          (λ stopped. ⊥)
          (λ thrown. ⊥)
          (after_intake host input (accepted State.intake_ready none) run)
  unfolding after_intake
  after_intake-Going run g =
      record_event-Going host input _ _ refl (enter-Going State.intake_ready run g)

  pub start_run-Going :
      (run : Run N Unknown)
      → Going files 0 State.created run
      → FlowHolds files
          (Going files 0 State.intake_ready)
          (λ stopped. ⊥)
          (λ thrown. ⊥)
          (start_run host input run)
  unfolding start_run
  start_run-Going run g =
      let started = announce host input run in
      let h = announce-Going run g in
      let arrow : transition started.state TransitionEvent.intake_ready
          ≡ accepted State.intake_ready none =
        rw h.state intake_arrow in
      rw arrow (after_intake-Going started h)

  after_start-Ends :
      (flow : Flow N Unknown)
      → FlowHolds files (Going files 0 State.intake_ready) (λ stopped. ⊥) (λ thrown. ⊥) flow
      → Ends (after_start host input flow)
  unfolding after_start
  after_start-Ends (stop run) h = absurd h
  after_start-Ends (raise thrown) h = absurd h
  after_start-Ends (go run) g =
      after_loop-Ends _
        (run_loop-LoopHolds 0 0 State.intake_ready worker_sequence run sequence_Chained g)

  pub final_run-Ends : Ends (final_run host input files)
  unfolding final_run
  final_run-Ends = after_start-Ends _ (start_run-Going _ initial_run-Going)
