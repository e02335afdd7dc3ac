-- ===== src/Orchestration/Adapters.antt =====
-- src/orchestration/worker-adapters.ts: the scaffold adapter and the results that every adapter
-- builds. `Unknown` is `Artifacts` here.
pub mod Laws
use knowbalance.Prelude.{
  ℕ, String, Bool, true, false, not, ◌&&◌, ◌||◌, ◌+◌, Option, none, some, List, [], ◌∷◌, ◌++◌, map,
  if◌then◌else◌, is_empty, string_Eq, Eq, ◌==◌, ◌!=◌, includes, leb, is_some,
}
use knowbalance.Prelude.Text.{concat, show_nat, contains_text}
use knowbalance.Prelude.Dict.{lookup}
use knowbalance.Prelude.Number.{Number}
use knowbalance.Orchestration.States.{
  State, Worker, worker_Eq, state_name, worker_name, StepDefinition, step_from,
}
use knowbalance.Orchestration.Types.{
  Mode, scaffold, deterministic, mode_name, Status, Slot, given, absent, malformed, MasteryUpdate,
  LearnedUserFact, ClarificationRequest, choice, NextStepRecommendation, proceed, ask_clarification,
  EvidenceRef, WorkerError, fatal, PersistenceEvent, mastery_update, by_worker,
  LearnerMemorySnapshot, Upstream, memory, artifacts, WorkerInvocation, WorkerResult,
}
use knowbalance.Orchestration.Contract.{expected_marker}

-- What the scaffold adapter puts under `artifacts`, and what a failed result has there.
pub data Artifacts : Type 0 where
  scaffold_result :
      Mode
      → (learner_goal : String) → (received_input_refs received_evidence_refs : List String)
      → Worker
      → State
      → Artifacts
  failed_result : Mode → Worker → State → Artifacts

pub data DiagnosisVerdict : Type 0 where
  correct incorrect unanswered : DiagnosisVerdict

pub record DiagnosisItem : Type 0 where
  pub source_id : String
  pub question : String
  pub verdict : DiagnosisVerdict

-- What `buildWorkerCallbacks` reads of the artifacts: the items of `artifacts.evidence` and the
-- goal of `artifacts.profile`, where these are objects.
pub record ArtifactView : Type 0 where
  pub evidence : Option (List DiagnosisItem)
  pub profile_goal : Option String

abbrev pub scaffold_view : ArtifactView
scaffold_view = record { evidence = none; profile_goal = none }

pub record Callbacks (N : Number) : Type 0 where
  pub persistence_events : List (PersistenceEvent N)
  pub mastery_updates : List (MasteryUpdate N)
  pub learned_facts_about_user : List (LearnedUserFact N)
  pub clarification_requests : List ClarificationRequest
  pub next_step_recommendation : NextStepRecommendation

abbrev pub verdict_name : DiagnosisVerdict → String
verdict_name correct = "correct"
verdict_name incorrect = "incorrect"
verdict_name unanswered = "unanswered"

-- The mastery of a diagnosed item; `none` where it was not answered.
abbrev pub verdict_mastery : (N : Number) → DiagnosisVerdict → Option N.Num
verdict_mastery N correct = some (N.hundredths 82)
verdict_mastery N incorrect = some (N.hundredths 25)
verdict_mastery N unanswered = none

abbrev pub assessed_sources : List String
assessed_sources = "K007" ∷ "K009" ∷ "K018" ∷ []

abbrev pub assessment_evidence : String
assessment_evidence = "deterministic assessment artifact generated and verified"

abbrev pub items_or_none : Option (List DiagnosisItem) → List DiagnosisItem
items_or_none none = []
items_or_none (some items) = items

abbrev pub function_question : ClarificationRequest
function_question = record {
  question = "你是否学过函数定义与调用？";
  reason = "成绩统计项目需要函数基础，但历史记录缺少 K013 掌握证据";
  expected_answer_type = choice;
  options = some ("学过并能使用" ∷ "学过但不熟" ∷ "没学过" ∷ []);
}

abbrev pub asks_for : String → Option String → Bool
asks_for part none = false
asks_for part (some goal) = contains_text goal part

module _ {N : Number} where
  diagnosis_updates : List DiagnosisItem → List (MasteryUpdate N)
  diagnosis_updates [] = []
  diagnosis_updates (item ∷ items) = elim (verdict_mastery N item.verdict) [
    | none ↦ diagnosis_updates items
    | some mastery ↦
        record {
          source_id = item.source_id;
          mastery = mastery;
          evidence =
              concat
                ("objective diagnosis " ∷ verdict_name item.verdict ∷ ": " ∷ item.question ∷ []);
        }
        ∷ diagnosis_updates items
  ]

  diagnosis_events : Worker → List DiagnosisItem → List (PersistenceEvent N)
  diagnosis_events worker [] = []
  diagnosis_events worker (item ∷ items) = elim (verdict_mastery N item.verdict) [
    | none ↦ diagnosis_events worker items
    | some mastery ↦
        mastery_update (by_worker worker) item.source_id mastery
          (concat ("objective diagnosis " ∷ verdict_name item.verdict ∷ []))
        ∷ diagnosis_events worker items
  ]

  -- `masteryUpdates` of `buildWorkerCallbacks`, worker by worker.
  unfoldable pub callback_updates : Worker → ArtifactView → List (MasteryUpdate N)
  unfolding diagnosis_updates
  callback_updates Worker.objective_diagnostician view =
      diagnosis_updates (items_or_none view.evidence)
  callback_updates Worker.tiered_evaluator view =
      map
        (λ source_id. record {
          source_id = source_id;
          mastery = N.hundredths 86;
          evidence = assessment_evidence;
        })
        assessed_sources
  callback_updates _ view = []

  unfoldable pub callback_events : Worker → ArtifactView → List (PersistenceEvent N)
  unfolding diagnosis_events
  callback_events Worker.objective_diagnostician view =
      diagnosis_events Worker.objective_diagnostician (items_or_none view.evidence)
  callback_events Worker.tiered_evaluator view =
      map
        (λ source_id.
          mastery_update (by_worker Worker.tiered_evaluator) source_id (N.hundredths 86)
            assessment_evidence)
        assessed_sources
  callback_events _ view = []

  -- `extractLearnerMemory` and `memoryHasSource`.
  unfoldable pub memory_has_source : {Unknown : Type 0} → WorkerInvocation N Unknown → String → Bool
  memory_has_source invocation source_id =
      elim (lookup "learner-memory" invocation.upstream_artifacts) [
        | none ↦ false
        | some (artifacts other) ↦ false
        | some (memory snapshot) ↦
            includes snapshot.mastered_source_ids source_id
            || includes snapshot.weak_source_ids source_id
      ]

  unfoldable pub callback_requests :
      {Unknown : Type 0} → WorkerInvocation N Unknown → ArtifactView → List ClarificationRequest
  unfolding memory_has_source
  callback_requests invocation view =
      if invocation.worker == Worker.profile_builder
        && (asks_for "成绩统计" view.profile_goal && not (memory_has_source invocation "K013"))
      then function_question ∷ []
      else []

  unfoldable pub build_worker_callbacks :
      {Unknown : Type 0} → WorkerInvocation N Unknown → ArtifactView → Callbacks N
  unfolding callback_updates callback_events callback_requests
  build_worker_callbacks invocation view =
      let requests = callback_requests invocation view in
      record {
        persistence_events = callback_events invocation.worker view;
        mastery_updates = callback_updates invocation.worker view;
        learned_facts_about_user =
            if invocation.worker == Worker.background_collector
            then record {
              key = "learning_goal";
              value = invocation.learner_request.goal;
              confidence = N.hundredths 100;
            }
              ∷ []
            else [];
        clarification_requests = requests;
        next_step_recommendation =
            if is_empty requests
            then record {
              action = proceed;
              reason = "worker completed with enough context to continue";
            }
            else record {
              action = ask_clarification;
              reason = "worker requested additional learner context";
            };
      }

  unfoldable pub execution_id : WorkerInvocation N Artifacts → String
  execution_id invocation = concat (
      invocation.run_id
      ∷ ":"
      ∷ show_nat invocation.step_index
      ∷ ":"
      ∷ worker_name invocation.worker
      ∷ [])

  unfoldable pub completed_result :
      WorkerInvocation N Artifacts
      → State
      → Artifacts
      → ArtifactView
      → String
      → WorkerResult N Artifacts
  unfolding execution_id
  completed_result invocation next made view summary =
      let callbacks = build_worker_callbacks invocation view in
      record {
        schema_version = "1.0";
        run_id = invocation.run_id;
        step_index = invocation.step_index;
        worker = invocation.worker;
        stage = invocation.stage;
        status = Status.completed;
        marker = expected_marker invocation.worker;
        execution = some (record {
          worker = invocation.worker;
          status = Status.completed;
          execution_id = some (execution_id invocation);
          marker = expected_marker invocation.worker;
        });
        summary = summary;
        artifacts = given made;
        output_refs = given (
            concat
              (worker_name invocation.worker ∷ ":" ∷ mode_name invocation.mode ∷ "-result" ∷ [])
            ∷ []);
        evidence_refs = given invocation.evidence_refs;
        next = some next;
        errors = given [];
        persistence_events = given callbacks.persistence_events;
        mastery_updates = given callbacks.mastery_updates;
        learned_facts_about_user = given callbacks.learned_facts_about_user;
        clarification_requests = given callbacks.clarification_requests;
        next_step_recommendation = given callbacks.next_step_recommendation;
      }

  unfoldable pub failed_worker_result :
      WorkerInvocation N Artifacts → WorkerError → WorkerResult N Artifacts
  unfolding execution_id
  failed_worker_result invocation error = record {
    schema_version = "1.0";
    run_id = invocation.run_id;
    step_index = invocation.step_index;
    worker = invocation.worker;
    stage = invocation.stage;
    status = Status.failed;
    marker = expected_marker invocation.worker;
    execution = some (record {
      worker = invocation.worker;
      status = Status.failed;
      execution_id = some (execution_id invocation);
      marker = expected_marker invocation.worker;
    });
    summary = error.message;
    artifacts = given (failed_result invocation.mode invocation.worker invocation.stage);
    output_refs = given [];
    evidence_refs = given invocation.evidence_refs;
    next = some State.failed;
    errors = given (error ∷ []);
    persistence_events = absent;
    mastery_updates = absent;
    learned_facts_about_user = absent;
    clarification_requests = absent;
    next_step_recommendation = absent;
  }

  abbrev pub mismatch_error : WorkerInvocation N Artifacts → String → WorkerError
  mismatch_error invocation expected = record {
    code = "ADAPTER_STAGE_WORKER_MISMATCH";
    message = concat (
        "stage "
        ∷ state_name invocation.stage
        ∷ " expects "
        ∷ expected
        ∷ ", received "
        ∷ worker_name invocation.worker
        ∷ []);
    severity = fatal;
  }

  -- By the step that the stage expects, where it expects one.
  unfoldable pub scaffold_expected :
      WorkerInvocation N Artifacts → Option StepDefinition → WorkerResult N Artifacts
  scaffold_expected invocation none =
      failed_worker_result invocation (mismatch_error invocation "no-worker")
  scaffold_expected invocation (some expected) =
      if expected.worker != invocation.worker
      then failed_worker_result invocation (mismatch_error invocation (worker_name expected.worker))
      else completed_result invocation expected.to
          (scaffold_result scaffold invocation.learner_request.goal invocation.input_refs
            (map (λ ref. ref.ref_id) invocation.evidence_refs) invocation.worker invocation.stage)
          scaffold_view
          (concat (
            "Scaffold worker "
            ∷ worker_name invocation.worker
            ∷ " acknowledged "
            ∷ state_name invocation.stage
            ∷ []))

  unfoldable pub run_scaffold_worker_adapter :
      WorkerInvocation N Artifacts → WorkerResult N Artifacts
  run_scaffold_worker_adapter invocation = scaffold_expected invocation (step_from invocation.stage)
