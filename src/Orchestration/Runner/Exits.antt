-- ===== src/Orchestration/Runner/Exits.antt =====
-- The two ways in which a round of the runner ends: it goes on, or it stops with a terminal event.
use knowbalance.Prelude.{
  ℕ, suc, String, Bool, true, false, ◌≡◌, refl, ◌⊎◌, inl, inr, Option, none, some, List, [], ◌∷◌,
  ◌++◌, arith, all, includes, string_Eq, ◌==◌, Bool-cases, ◌<◌,
}
use knowbalance.Prelude.Number.{Number}
use knowbalance.Orchestration.States.{State, StepDefinition, state_at}
use knowbalance.Orchestration.Types.{
  Status, TraceEvent, TraceEventType, WorkerInvocation, WorkerResult,
}
use knowbalance.Orchestration.Memory.{MemoryFiles, save_learner_memory}
use knowbalance.Orchestration.Runner.Steps.{
  rejected, Host, RunInput, Run, EventBody, Thrown, Flow, go, stop, raise, worker_event,
  record_event, record_terminal, fail_run, block_run, write_artifacts, remember,
}

abbrev pub is_open : TraceEventType → Bool
is_open TraceEventType.session_completed = false
is_open TraceEventType.session_blocked = false
is_open TraceEventType.session_failed = false
is_open _ = true

abbrev pub AllOpen : List TraceEvent → Type 0
AllOpen events = all (λ event. is_open event.event_type) events ≡ true

-- The terminal event that a status of the summary goes with.
abbrev pub terminal_event : Status → TraceEventType
terminal_event Status.completed = TraceEventType.session_completed
terminal_event Status.blocked = TraceEventType.session_blocked
terminal_event Status.failed = TraceEventType.session_failed

-- The trace has one terminal event: the last, of the given type.
pub record EndsWith (events : List TraceEvent) (type : TraceEventType) : Type 0 where
  pub before : List TraceEvent
  pub last : TraceEvent
  pub split : events ≡ before ++ last ∷ []
  pub open_before : AllOpen before
  pub last_type : last.event_type ≡ type

module _ {N : Number} {Unknown : Type 0} (files : MemoryFiles) where
  -- A run between two rounds, in state `s` after `k` workers.
  pub record Going (k : ℕ) (s : State) (run : Run N Unknown) : Type 0 where
    pub state : run.state ≡ s
    pub counted : run.completed_steps ≡ k
    pub status : run.status ≡ Status.failed
    pub not_blocked : run.blocked_stage ≡ none
    pub not_failed : run.failed_stage ≡ none
    pub unsaved : run.learner_memory_ref ≡ none
    pub untouched : run.memory_files ≡ files
    pub trace : AllOpen run.events

  -- A run that a round stopped in state `s` after `k` workers.
  pub record Stopped (k : ℕ) (s : State) (run : Run N Unknown) : Type 0 where
    pub state : run.state ≡ s
    pub counted : run.completed_steps ≡ k
    pub stage :
        ((run.status ≡ Status.blocked) × (run.blocked_stage ≡ some s) × (run.failed_stage ≡ none))
        ⊎ ((run.status ≡ Status.failed) × (run.blocked_stage ≡ none) × (run.failed_stage ≡ some s))
    pub unsaved : run.learner_memory_ref ≡ none
    pub untouched : run.memory_files ≡ files
    pub trace : EndsWith run.events (terminal_event run.status)

  abbrev pub FlowHolds :
      (Run N Unknown → Type 0)
      → (Run N Unknown → Type 0)
      → (Thrown N Unknown → Type 0)
      → Flow N Unknown
      → Type 0
  FlowHolds P Q R (go run) = P run
  FlowHolds P Q R (stop run) = Q run
  FlowHolds P Q R (raise thrown) = R thrown

pub worker_event_open : (status : Status) → is_open (worker_event status) ≡ true
worker_event_open Status.completed = refl
worker_event_open _ = refl

pub AllOpen-append :
    (events : List TraceEvent) (event : TraceEvent)
    → AllOpen events
    → is_open event.event_type ≡ true
    → AllOpen (events ++ event ∷ [])
AllOpen-append [] event h e = ground arith
AllOpen-append (x ∷ xs) event h e = ground (arith, AllOpen-append xs event)

module _ {N : Number} {Unknown : Type 0} (host : Host N Unknown) (input : RunInput)
    {files : MemoryFiles} {k : ℕ} {s : State} where
  pub record_event-Going :
      (body : EventBody) (run : Run N Unknown)
      → is_open body.event_type ≡ true
      → Going files k s run
      → Going files k s (record_event host input body run)
  unfolding record_event
  record_event-Going body run e g = record {
    state = g.state;
    counted = g.counted;
    status = g.status;
    not_blocked = g.not_blocked;
    not_failed = g.not_failed;
    unsaved = g.unsaved;
    untouched = g.untouched;
    trace = AllOpen-append run.events _ g.trace e;
  }

  pub fail_run-Stopped :
      (code message : String) (run : Run N Unknown)
      → Going files k s run
      → Stopped files k s (fail_run host input code message run)
  unfolding fail_run record_terminal record_event
  fail_run-Stopped code message run g = record {
    state = g.state;
    counted = g.counted;
    stage = inr (refl, g.not_blocked, rw g.state);
    unsaved = g.unsaved;
    untouched = g.untouched;
    trace = record {
      before = run.events;
      last = _;
      split = refl;
      open_before = g.trace;
      last_type = refl;
    };
  }

  pub block_run-Stopped :
      (code message : String) (run : Run N Unknown)
      → Going files k s run
      → Stopped files k s (block_run host input code message run)
  unfolding block_run record_terminal record_event
  block_run-Stopped code message run g = record {
    state = g.state;
    counted = g.counted;
    stage = inl (refl, rw g.state, g.not_failed);
    unsaved = g.unsaved;
    untouched = g.untouched;
    trace = record {
      before = run.events;
      last = _;
      split = refl;
      open_before = g.trace;
      last_type = refl;
    };
  }

  pub write_artifacts-Going :
      (dir : Option String) (i : ℕ) (step : StepDefinition) (result : WorkerResult N Unknown)
      (run : Run N Unknown)
      → Going files k s run
      → Going files k s (write_artifacts host input dir i step.worker result run)
  unfolding write_artifacts
  write_artifacts-Going none i step result run g = g
  write_artifacts-Going (some dir) i step result run g = elim (Bool-cases (dir == "")) [
    | inl h ↦ rw h g
    | inr h ↦ rw h (record {
      state = g.state;
      counted = g.counted;
      status = g.status;
      not_blocked = g.not_blocked;
      not_failed = g.not_failed;
      unsaved = g.unsaved;
      untouched = g.untouched;
      trace = g.trace;
    })
  ]

  pub remember-Going :
      (result : WorkerResult N Unknown) (run : Run N Unknown)
      → Going files k s run
      → Going files k s (remember host input result run)
  unfolding remember
  remember-Going result run g = record {
    state = g.state;
    counted = g.counted;
    status = g.status;
    not_blocked = g.not_blocked;
    not_failed = g.not_failed;
    unsaved = g.unsaved;
    untouched = g.untouched;
    trace = g.trace;
  }

-- The last exit: the run is completed and its memory is saved.
module _ {N : Number} {Unknown : Type 0} (host : Host N Unknown) (input : RunInput)
    (files : MemoryFiles) where
  pub record Completed (run : Run N Unknown) : Type 0 where
    pub state : run.state ≡ State.completed
    pub counted : run.completed_steps ≡ 8
    pub status : run.status ≡ Status.completed
    pub not_blocked : run.blocked_stage ≡ none
    pub not_failed : run.failed_stage ≡ none
    pub saved :
        run.memory_files ≡ (save_learner_memory host.disk input.root_dir files run.learner_memory).0
    pub saved_as :
        run.learner_memory_ref
        ≡ some (save_learner_memory host.disk input.root_dir files run.learner_memory).1
    pub remembered : includes run.learner_memory.completed_sessions run.session_id ≡ true
    pub trace : EndsWith run.events TraceEventType.session_completed

module _ {N : Number} {Unknown : Type 0} (files : MemoryFiles) where
  -- A run that stopped early, after fewer than the eight workers, in the state that follows them.
  pub record Halted (run : Run N Unknown) : Type 0 where
    pub after : ℕ
    pub early : after < 8
    pub stopped : Stopped files after (state_at (suc after)) run

-- A run that an exception leaves: the adapter threw it for one of the eight workers, and until then
-- the run went on.
pub record Aborted {N : Number} {Unknown : Type 0} (host : Host N Unknown) (files : MemoryFiles)
    (k : ℕ) (s : State) (thrown : Thrown N Unknown) : Type 0 where
  pub going : Going files k s thrown.run
  pub invocation : WorkerInvocation N Unknown
  pub cause : host.run_worker_adapter invocation ≡ rejected thrown.message

pub record AbortedEarly {N : Number} {Unknown : Type 0} (host : Host N Unknown)
    (files : MemoryFiles) (thrown : Thrown N Unknown) : Type 0 where
  pub after : ℕ
  pub early : after < 8
  pub aborted : Aborted host files after (state_at (suc after)) thrown
