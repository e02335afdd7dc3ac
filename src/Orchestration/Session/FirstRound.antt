-- ===== src/Orchestration/Session/FirstRound.antt =====
-- src/orchestration/interactive-session.ts: what follows the answers to a diagnosis, up to the first
-- round of content.
use knowbalance.Prelude.{
  ℕ, suc, ◌*◌, String, Bool, true, false, Option, none, some, List, [], ◌∷◌, map, drop, take,
  string_Eq, if◌then◌else◌, is_empty,
}
use knowbalance.Prelude.Text.{concat}
use knowbalance.Prelude.Number.{Number}
use knowbalance.Prelude.Dict.{lookup, insert}
use knowbalance.Prelude.Json.{Json, null, text, array, object, elements_of, fields_of}
use knowbalance.Orchestration.States.{Worker, worker_name, worker_sequence, StepDefinition}
use knowbalance.Orchestration.Types.{
  Status, LearnerMemorySnapshot, given, Upstream, memory, artifacts, WorkerInvocation, WorkerResult,
}
use knowbalance.Orchestration.Contract.{Validation, valid, invalid, validate_worker_result}
use knowbalance.Orchestration.Runner.Steps.{first_message, items_of}
use knowbalance.Teaching.Paths.{LearningPathNode}
use knowbalance.Orchestration.Session.{
  SessionStatus, Stage, EntryStatus, EventType, SessionRecord, Answers, answer_map, answer_list,
  no_answers, Fallible, ok, thrown, ◌>>=◌, refuse, session_error,
}
use knowbalance.Orchestration.Session.Input.{diagnosis_issues}
use knowbalance.Orchestration.Session.Services.{
  Services, push_event, block_session, complete_session, wait_for_nothing, upsert_ledger, touch,
  stage_for_worker,
}
use knowbalance.Orchestration.Session.Rounds.{
  FormalRoundResult, round_ready, round_refused, apply_formal_role_c_round,
  generate_formal_role_c_round,
}
use knowbalance.Orchestration.Session.Diagnosis.{learner_of}
use knowbalance.Orchestration.Session.Evidence.{
  background_evidence, self_assessment_evidence, objective_evidence, public_item,
  public_upstream_artifacts,
}

-- The state of the loop over the profile builder and the path planner.
pub record Planning (N : Number) : Type 0 where
  pub session : SessionRecord N
  pub upstream : List (String × Upstream N Json)
  pub input_refs : List String

-- The session is returned from within the loop, or the loop goes on.
pub data Planned (N : Number) : Type 0 where
  returned : SessionRecord N → Planned N
  planned : Planning N → Planned N

abbrev pub is_blocked : Status → Bool
is_blocked Status.blocked = true
is_blocked _ = false

-- `stageForWorker`'s ledger entries of the reviewed workers of role C.
abbrev pub reviewed_role_c_workers : List Worker
reviewed_role_c_workers = Worker.concept_tutor ∷ Worker.code_lab ∷ Worker.tiered_evaluator ∷ []

abbrev evidence_entry : {N : Number} → List (String × Json) → Upstream N Json
evidence_entry entries =
    artifacts (given (object (fields_of (("mode", text "interactive") ∷ entries))))

module _ {N : Number} (s : Services N) where
  unfoldable pub mark_reviewed : ℕ → List Worker → SessionRecord N → SessionRecord N
  mark_reviewed k [] r = r
  mark_reviewed k (worker ∷ workers) r =
      let message = concat ("Role C reviewed " ∷ worker_name worker ∷ " output" ∷ []) in
      mark_reviewed (suc (suc k)) workers (
        push_event s (suc k) EventType.worker_completed (stage_for_worker worker) message
          (some worker) (upsert_ledger s k worker EntryStatus.completed message r))

  -- `markReviewedRoleCWorkers`
  abbrev pub mark_reviewed_workers : ℕ → SessionRecord N → SessionRecord N
  mark_reviewed_workers k r = mark_reviewed k reviewed_role_c_workers r

  unfoldable pub first_upstream :
      SessionRecord N
      → List (String × Json)
      → LearnerMemorySnapshot N
      → List (String × Upstream N Json)
  first_upstream r answers snapshot =
      (
        "background-collector",
        evidence_entry (("evidence", background_evidence r.learner_request r.view.session_id) ∷ []),
      )
      ∷ (
        "self-assessor",
        evidence_entry (("evidence", self_assessment_evidence r.learner_request) ∷ []),
      )
      ∷ (
        "objective-diagnostician",
        evidence_entry (
            (
              "evidence",
              objective_evidence s.normalize_answer r.private_data.diagnosis_answer_key answers
                  r.private_data.diagnosis_items,
            )
            ∷ (
              "dynamic_selection",
              object (
                  fields_of (
                    ("items", array (elements_of (map public_item r.private_data.diagnosis_items)))
                    ∷ [])),
            )
            ∷ []),
      )
      ∷ ("learner-memory", memory snapshot)
      ∷ []

  -- The session once the answers are accepted.
  unfoldable pub accept_answers : List (String × Json) → SessionRecord N → SessionRecord N
  accept_answers answers r =
      let diagnostician = Worker.objective_diagnostician in
      let accepted =
        push_event s 1 EventType.command_received Stage.objective_diagnosis
          "received diagnosis answers" (some diagnostician)
          (push_event s 0 EventType.worker_completed Stage.objective_diagnosis
            "objective-diagnostician completed grounded diagnosis" (some diagnostician)
            (upsert_ledger s 2 diagnostician EntryStatus.completed "已接收并判定诊断答案" (record r {
              view = record r.view { status = SessionStatus.running; waiting_for = none };
            }))) in
      record accepted {
        private_data = record accepted.private_data { diagnosis_answers = some answers };
      }

  unfoldable pub worker_invocation : ℕ → StepDefinition → Planning N → WorkerInvocation N Json
  worker_invocation step_index step p = record {
    schema_version = "1.0";
    session_id = p.session.view.session_id;
    run_id = p.session.view.run_id;
    step_index = step_index;
    stage = step.from;
    worker = step.worker;
    learner_request = p.session.learner_request;
    upstream_artifacts = p.upstream;
    input_refs = p.input_refs;
    evidence_refs = [];
    retry_count = 0;
    mode = p.session.view.mode;
  }

  -- A result that is refused or not completed ends the command with a blocked or failed session.
  unfoldable pub stop_planning :
      ℕ → Worker → Status → (message : String) → SessionRecord N → SessionRecord N
  stop_planning k worker status message r =
      let stage = if is_blocked status then Stage.blocked else Stage.failed in
      touch s (suc k) (
        push_event s k EventType.session_blocked stage message (some worker) (record r {
          view = record r.view {
            status = if is_blocked status then SessionStatus.blocked else SessionStatus.failed;
            current_stage = stage;
            blocked_reason = some message;
          };
        }))

  unfoldable pub accept_worker : ℕ → Worker → WorkerResult N Json → Planning N → Planning N
  accept_worker k worker result p = record {
    session = upsert_ledger s (suc k) worker EntryStatus.completed result.summary (
        push_event s k EventType.worker_completed (stage_for_worker worker) result.summary
          (some worker) p.session);
    upstream = insert (worker_name worker) (artifacts result.artifacts) p.upstream;
    input_refs = items_of result.output_refs;
  }

  unfoldable pub after_worker :
      ℕ → Worker → WorkerResult N Json → Validation N Json → Planning N → Planned N
  after_worker k worker result (invalid errors) p = returned (
      stop_planning k worker result.status (first_message (given errors) "worker contract invalid")
        p.session)
  after_worker k worker result (valid checked) p = elim result.status [
    | Status.completed ↦ planned (accept_worker k worker result p)
    | Status.blocked ↦ returned (
        stop_planning k worker result.status (first_message result.errors result.summary) p.session)
    | Status.failed ↦ returned (
        stop_planning k worker result.status (first_message result.errors result.summary) p.session)
  ]

  -- The loop over the steps, from the number of the first one.
  unfoldable pub plan_steps : ℕ → List StepDefinition → Planning N → Fallible (Planned N)
  plan_steps step_index [] p = ok (planned p)
  plan_steps step_index (step ∷ steps) p =
      let k = step_index * 4 in
      let invoked = record p {
        session =
            push_event s k EventType.worker_invoked (stage_for_worker step.worker)
              (concat ("invoke " ∷ worker_name step.worker ∷ [])) (some step.worker) p.session;
      } in
      let invocation = worker_invocation step_index step invoked in
      s.run_worker invocation >>= λ result.
      elim (after_worker (suc k) step.worker result (validate_worker_result invocation result)
        invoked) [ returned r ↦ ok (returned r) | planned q ↦ plan_steps (suc step_index) steps q ]

  -- The artifacts that a worker left.
  abbrev pub artifacts_of : String → List (String × Upstream N Json) → Json
  artifacts_of name upstream = elim (lookup name upstream) [
    | some (artifacts (given value)) ↦ value
    | _ ↦ null
  ]

  -- The profile, the path and the material of the plan are taken over.
  unfoldable pub take_plan : Planning N → SessionRecord N
  take_plan p =
      let r = p.session in
      let path = artifacts_of "path-planner" p.upstream in
      record r {
        view = record r.view {
          profile = some (s.profile_of (artifacts_of "profile-builder" p.upstream));
          formal_path = some (s.formal_path_of path);
          current_path_node = s.next_path_node_of path;
          rag_result = s.rag_result_of path;
        };
        private_data = record r.private_data {
          upstream_artifacts = public_upstream_artifacts p.upstream;
        };
      }

  unfoldable pub finish_first_round :
      SessionRecord N → FormalRoundResult → Fallible (SessionRecord N)
  finish_first_round r (round_refused reason) =
      ok (block_session s 40 reason (some Worker.tiered_evaluator) (wait_for_nothing r))
  finish_first_round r (round_ready round) = do
    applied ← apply_formal_role_c_round round r
    ok (
        push_event s 47 EventType.waiting_for_user Stage.assessment "waiting for assessment answers"
          (some Worker.tiered_evaluator) (touch s 47 (mark_reviewed_workers 40 applied)))

  unfoldable pub start_first_round :
      SessionRecord N → Option LearningPathNode → Fallible (SessionRecord N)
  start_first_round r none = ok (touch s 40 (complete_session r))
  start_first_round r (some current_node) =
      generate_formal_role_c_round s r current_node none >>= finish_first_round r

  unfoldable pub after_planning : Planned N → Fallible (SessionRecord N)
  after_planning (returned r) = ok r
  after_planning (planned p) =
      start_first_round (take_plan p) (s.next_path_node_of (artifacts_of "path-planner" p.upstream))

  unfoldable pub plan_from_answers :
      SessionRecord N → List (String × Json) → Fallible (SessionRecord N)
  plan_from_answers r answers = do
    snapshot ← s.load_memory (learner_of r.learner_request r.view.session_id)
    run ← plan_steps 4 (take 2 (drop 3 worker_sequence)) (record {
      session = accept_answers answers r;
      upstream = first_upstream r answers snapshot;
      input_refs = "objective-diagnostician:interactive-result" ∷ [];
    })
    after_planning run

  abbrev pub invalid_answers : Fallible (SessionRecord N)
  invalid_answers =
      refuse "INVALID_COMMAND" "submit_diagnosis_answers requires payload.answers object" 400

  unfoldable pub continue_after_diagnosis : SessionRecord N → Answers → Fallible (SessionRecord N)
  continue_after_diagnosis r no_answers = invalid_answers
  continue_after_diagnosis r (answer_list entries) = invalid_answers
  continue_after_diagnosis r (answer_map answers) =
      let issues = diagnosis_issues r.private_data.diagnosis_items answers in
      if is_empty issues
      then plan_from_answers r answers
      else thrown (
          session_error "INVALID_DIAGNOSIS_ANSWERS"
            "Diagnosis answers do not match the requested items" 400 issues)
