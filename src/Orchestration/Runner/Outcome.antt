-- ===== src/Orchestration/Runner/Outcome.antt =====
-- How a whole run of the main Agent ends.
use knowbalance.Prelude.{
  suc, ◌<◌, true, ◌≡◌, ◌≢◌, ◌⊎◌, inl, inr, none, some, arith, includes, string_Eq,
}
use knowbalance.Prelude.Number.{Number}
use knowbalance.Orchestration.States.{state_at}
use knowbalance.Orchestration.Types.{Status, WorkerInvocation}
use knowbalance.Orchestration.Memory.{MemoryFiles, save_learner_memory}
use knowbalance.Orchestration.Runner.Steps.{
  Promised, resolved, rejected, Host, RunInput, Run, Thrown,
}
use knowbalance.Orchestration.Runner.{settle, run_learning_orchestrator, RunResult, finish}
use knowbalance.Orchestration.Runner.Endings.{Ends, final_run-Ends}
use knowbalance.Orchestration.Runner.Exits.{AllOpen, EndsWith, terminal_event}

-- How the trace of a run ends: with the one terminal event that goes with the status of the summary,
-- or, where the adapter throws, with none.
abbrev pub HasTrace :
    {N : Number} {Unknown : Type 0}
    → Host N Unknown
    → Promised (RunResult N Unknown) (Thrown N Unknown)
    → Type 0
HasTrace host (resolved result) =
    EndsWith result.summary.events (terminal_event result.summary.status)
HasTrace {N} {Unknown} host (rejected thrown) =
    AllOpen thrown.run.events
    × ((invocation : WorkerInvocation N Unknown) × (host.run_worker_adapter invocation
          ≡ rejected thrown.message))

-- The stages and the count of a run: completed after all workers, or stopped after fewer, in the
-- state that follows them, or left by an exception in that state.
abbrev pub HasStages :
    {N : Number} {Unknown : Type 0} → Promised (RunResult N Unknown) (Thrown N Unknown) → Type 0
HasStages (resolved result) =
    let summary = result.summary in
    let stage = some (state_at (suc summary.completed_steps)) in
    ((summary.status ≡ Status.completed)
      × (summary.completed_steps ≡ summary.total_steps)
      × (summary.blocked_stage ≡ none)
      × (summary.failed_stage ≡ none))
    ⊎ ((summary.completed_steps < summary.total_steps)
        × (((summary.status ≡ Status.blocked)
              × (summary.blocked_stage ≡ stage)
              × (summary.failed_stage ≡ none))
            ⊎ ((summary.status ≡ Status.failed)
                × (summary.blocked_stage ≡ none)
                × (summary.failed_stage ≡ stage))))
HasStages (rejected thrown) =
    (thrown.run.completed_steps < 8)
    × (thrown.run.state ≡ state_at (suc thrown.run.completed_steps))
    × (thrown.run.blocked_stage ≡ none)
    × (thrown.run.failed_stage ≡ none)

-- What a run does to the memory files.
abbrev pub KeepsMemory :
    {N : Number} {Unknown : Type 0}
    → Host N Unknown
    → RunInput
    → MemoryFiles
    → Promised (RunResult N Unknown) (Thrown N Unknown)
    → Type 0
KeepsMemory host input files (resolved result) =
    let saved = save_learner_memory host.disk input.root_dir files result.final.learner_memory in
    ((result.summary.status ≡ Status.completed)
      × (result.final.memory_files ≡ saved.0)
      × (result.summary.learner_memory_ref ≡ some saved.1)
      × (includes result.final.learner_memory.completed_sessions result.summary.session_id ≡ true))
    ⊎ ((result.summary.status ≢ Status.completed)
        × (result.final.memory_files ≡ files)
        × (result.summary.learner_memory_ref ≡ none))
KeepsMemory host input files (rejected thrown) = thrown.run.memory_files ≡ files

module _ {N : Number} {Unknown : Type 0} (host : Host N Unknown) (input : RunInput)
    (files : MemoryFiles) where
  settle-HasTrace :
      (ended : Promised (Run N Unknown) (Thrown N Unknown))
      → Ends host input files ended
      → HasTrace host (settle host input ended)
  unfolding settle finish
  settle-HasTrace (resolved run) (inl c) = rw c.status c.trace
  settle-HasTrace (resolved run) (inr h) = h.stopped.trace
  settle-HasTrace (rejected thrown) h =
      (h.aborted.going.trace, (h.aborted.invocation, h.aborted.cause))

  settle-HasStages :
      (ended : Promised (Run N Unknown) (Thrown N Unknown))
      → Ends host input files ended
      → HasStages (settle host input ended)
  unfolding settle finish
  settle-HasStages (resolved run) (inl c) = inl (c.status, c.counted, c.not_blocked, c.not_failed)
  settle-HasStages (resolved run) (inr h) =
      inr (rw h.stopped.counted h.early, rw h.stopped.counted h.stopped.stage)
  settle-HasStages (rejected thrown) h =
      let going = h.aborted.going in
      (rw going.counted h.early, rw going.counted going.state, going.not_blocked, going.not_failed)

  settle-KeepsMemory :
      (ended : Promised (Run N Unknown) (Thrown N Unknown))
      → Ends host input files ended
      → KeepsMemory host input files (settle host input ended)
  unfolding settle finish
  settle-KeepsMemory (resolved run) (inl c) = inl (c.status, c.saved, c.saved_as, c.remembered)
  settle-KeepsMemory (resolved run) (inr h) =
      inr (ground (arith, h.stopped.stage), h.stopped.untouched, h.stopped.unsaved)
  settle-KeepsMemory (rejected thrown) h = h.aborted.going.untouched

-- The trace of a run that returns has exactly one terminal event. It is the last one, and it is
-- `session_completed`, `session_blocked` or `session_failed` as the status of the summary says. The
-- trace of a run that does not return has none; it is left by an exception that the adapter throws.
pub run_learning_orchestrator-trace :
    {N : Number} {Unknown : Type 0} (host : Host N Unknown) (input : RunInput) (files : MemoryFiles)
    → HasTrace host (run_learning_orchestrator host input files)
unfolding run_learning_orchestrator
run_learning_orchestrator-trace host input files =
    settle-HasTrace host input files _ (final_run-Ends host input files)

-- Every run that returns either completes, after all eight workers and with no stopped stage, or
-- stops before that. Then it reports the number of workers that completed, and, as the blocked or as
-- the failed stage but never both, the state that follows exactly that many workers. A run that is
-- left by an exception of the adapter has no such stage; it is in the state that follows fewer than
-- eight workers, those that it counts.
pub run_learning_orchestrator-stages :
    {N : Number} {Unknown : Type 0} (host : Host N Unknown) (input : RunInput) (files : MemoryFiles)
    → HasStages (run_learning_orchestrator host input files)
unfolding run_learning_orchestrator
run_learning_orchestrator-stages host input files =
    settle-HasStages host input files _ (final_run-Ends host input files)

-- The memory files change only when a run completes: then the file of the final memory is written,
-- its path is reported, and the memory lists the session as completed. A run that stops early or is
-- left by an exception of the adapter leaves them as they were.
pub run_learning_orchestrator-memory :
    {N : Number} {Unknown : Type 0} (host : Host N Unknown) (input : RunInput) (files : MemoryFiles)
    → KeepsMemory host input files (run_learning_orchestrator host input files)
unfolding run_learning_orchestrator
run_learning_orchestrator-memory host input files =
    settle-KeepsMemory host input files _ (final_run-Ends host input files)
