-- ===== src/Orchestration/Adapters/Laws.antt =====
-- The scaffold adapter meets the contract, so a scaffold run completes.
use knowbalance.Prelude.{
  String, false, ◌≡◌, refl, sym, Option, none, some, [], ◌∷◌, arith, ne-false_iff,
}
use knowbalance.Prelude.Text.{show_nat, is_blank-concat}
use knowbalance.Prelude.Number.{Number}
use knowbalance.Orchestration.States.{
  State, worker_Eq, StepDefinition, step_from, next_worker, worker_name,
}
use knowbalance.Orchestration.Types.{Status, WorkerInvocation, WorkerResult}
use knowbalance.Orchestration.Contract.{
  validate_worker_result, valid, expected_completed_next, id_missing,
}
use knowbalance.Orchestration.Contract.Laws.{Conforms, validate_worker_result-Conforms}
use knowbalance.Orchestration.Memory.{MemoryFiles}
use knowbalance.Orchestration.Runner.Steps.{resolved, Host, RunInput}
use knowbalance.Orchestration.Runner.{run_learning_orchestrator}
use knowbalance.Orchestration.Runner.Progress.{RunsThrough, run_learning_orchestrator-completes}
use knowbalance.Orchestration.Adapters.{
  Artifacts, ArtifactView, execution_id, completed_result, scaffold_expected,
  run_scaffold_worker_adapter,
}

module _ {N : Number} where
  execution_id-present :
      (invocation : WorkerInvocation N Artifacts)
      → id_missing (some (execution_id invocation)) ≡ false
  unfolding execution_id
  execution_id-present invocation =
      let index = show_nat invocation.step_index in
      let rest = index ∷ ":" ∷ worker_name invocation.worker ∷ [] in
      ground (arith, is_blank-concat invocation.run_id (":" ∷ rest), is_blank-concat ":" rest)

  completed_result-Conforms :
      (invocation : WorkerInvocation N Artifacts) (made : Artifacts) (view : ArtifactView)
      (summary : String)
      → Conforms invocation
          (completed_result invocation (expected_completed_next invocation.stage) made view summary)
  unfolding completed_result
  completed_result-Conforms invocation made view summary = record {
    identity = record {
      schema_version = refl;
      run_id = refl;
      step_index = refl;
      worker = refl;
      stage = refl;
      marker = refl;
    };
    envelope = (
      _,
      record {
        present = refl;
        worker = refl;
        status = refl;
        identified = execution_id-present invocation;
        marker = refl;
      },
    );
    containers = record {
      artifacts = refl;
      output_refs = refl;
      evidence_refs = refl;
      errors = refl;
      persistence_events = refl;
      mastery_updates = refl;
      learned_facts_about_user = refl;
      clarification_requests = refl;
      next_step_recommendation = refl;
    };
    next = record {
      completed = λ done. refl;
      stopped = λ other. absurd (other refl);
      explained = λ other. absurd (other refl);
    };
  }

  abbrev pub IsAccepted : WorkerInvocation N Artifacts → WorkerResult N Artifacts → Type 0
  IsAccepted invocation result =
      (validate_worker_result invocation result ≡ valid result) × (result.status ≡ Status.completed)

  completed_result-IsAccepted :
      (invocation : WorkerInvocation N Artifacts) (next : State) (made : Artifacts)
      (view : ArtifactView) (summary : String)
      → next ≡ expected_completed_next invocation.stage
      → IsAccepted invocation (completed_result invocation next made view summary)
  unfolding completed_result
  completed_result-IsAccepted invocation next made view summary e = (
    (validate_worker_result-Conforms invocation _).1
        (rw e (completed_result-Conforms invocation made view summary)),
    refl,
  )

  scaffold_expected-IsAccepted :
      (invocation : WorkerInvocation N Artifacts) (expected : Option StepDefinition)
      → expected ≡ step_from invocation.stage
      → next_worker invocation.stage ≡ some invocation.worker
      → IsAccepted invocation (scaffold_expected invocation expected)
  unfolding scaffold_expected next_worker expected_completed_next
  scaffold_expected-IsAccepted invocation none found asked = absurd (ground (arith, found))
  scaffold_expected-IsAccepted invocation (some step) found asked =
      let same : step.worker ≡ invocation.worker = ground (arith, found) in
      rw ((ne-false_iff step.worker invocation.worker).1 same) (
        completed_result-IsAccepted invocation step.to _ _ _
          (rw (sym found, expected_completed_next) refl))

  pub scaffold-IsAccepted :
      (invocation : WorkerInvocation N Artifacts)
      → next_worker invocation.stage ≡ some invocation.worker
      → IsAccepted invocation (run_scaffold_worker_adapter invocation)
  unfolding run_scaffold_worker_adapter
  scaffold-IsAccepted invocation asked = scaffold_expected-IsAccepted invocation _ refl asked

-- A run whose adapter is the scaffold adapter returns, with all eight workers completed, whatever the
-- request, the clock and the memory files are.
pub run_scaffold_worker_adapter-completes :
    {N : Number} (host : Host N Artifacts) (input : RunInput) (files : MemoryFiles)
    → ((invocation : WorkerInvocation N Artifacts)
        → host.run_worker_adapter invocation ≡ resolved (run_scaffold_worker_adapter invocation))
    → RunsThrough (run_learning_orchestrator host input files)
run_scaffold_worker_adapter-completes host input files same =
    run_learning_orchestrator-completes host input files (λ invocation asked.
      let (conforms, done) = scaffold-IsAccepted invocation asked in
      (run_scaffold_worker_adapter invocation, same invocation, conforms, done))
