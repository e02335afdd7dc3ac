-- ===== src/Examples/Sessions.antt =====
-- Runs of interactive sessions.
use knowbalance.Orchestration.Session.Rounds.{round_of_outcome}
use knowbalance.Orchestration.Session.Rounds.{generate_formal_role_c_round}
use knowbalance.Orchestration.Session.Background.{generate_for}
use knowbalance.Orchestration.Session.Services.{push_event}
use knowbalance.Orchestration.Session.Assessment.{start_round}
use knowbalance.Teaching.Paths.{node_at}
use knowbalance.Teaching.Paths.{advance_from}
use knowbalance.Orchestration.Session.Commands.{save}
use knowbalance.Orchestration.Session.Diagnosis.{create_record}
use knowbalance.Orchestration.Session.Input.{safe_id}
use knowbalance.Teaching.Paths.{advance_to_next_node}
use knowbalance.Orchestration.Session.Assessment.{follow_path}
use knowbalance.Orchestration.Session.{public_session_view}
use knowbalance.Orchestration.Session.Assessment.{after_grading}
use knowbalance.Orchestration.Session.Assessment.{after_submission}
use knowbalance.Orchestration.Session.Assessment.{submit_answers}
use knowbalance.Orchestration.Session.Input.{read_answers}
use knowbalance.Orchestration.Session.Input.{assert_submission_answers}
use knowbalance.Orchestration.Session.Assessment.{continue_after_assessment}
use knowbalance.Orchestration.Session.Commands.{dispatch}
use knowbalance.Orchestration.Session.Commands.{execute_new}
use knowbalance.Orchestration.Session.Commands.{replay_or_execute}
use knowbalance.Orchestration.Session.Commands.{load}
use knowbalance.Orchestration.Session.Input.{is_safe_id}
use knowbalance.Orchestration.Session.Input.{validate_command}
use knowbalance.Prelude.{
  ◌≡◌, refl, String, none, some, [], ◌∷◌, All, if◌then◌else◌, string_Eq, ◌==◌,
}
use knowbalance.Prelude.Number.{millionths}
use knowbalance.Prelude.Dict.{lookup, insert}
use knowbalance.Prelude.Json.{Json, null, object, fields_of}
use knowbalance.Orchestration.States.{Worker, State}
use knowbalance.Orchestration.Types.{Mode, Status, LearnerRequest, absent, WorkerResult}
use knowbalance.Orchestration.Memory.{empty_memory}
use knowbalance.Content.Policy.{remediate}
use knowbalance.Teaching.Progress.{beginner}
use knowbalance.Teaching.Paths.{
  LearningPathNode, LearnerProfileSnapshot, FormalPathNodeStatus, FormalLearningPath,
}
use knowbalance.Orchestration.Session.{
  SessionStatus, Stage, PublicView, SessionRecord, Feedback, Command, submit_assessment_answers,
  retry, answer_list, no_answers, assessment_answers, Fallible, ok, thrown, other_error,
  NextRoundContext, refuse,
}
use knowbalance.Orchestration.Session.Services.{
  Services, SelectedItem, not_ready, graded, route_blocked,
}
use knowbalance.Orchestration.Session.Rounds.{round_refused}
use knowbalance.Orchestration.Session.Diagnosis.{CreateInput}
use knowbalance.Orchestration.Session.Commands.{SessionStore, execute_command, create}
use knowbalance.Orchestration.Session.Background.{Generated, begin_next_round, finish_next_round}
use knowbalance.Orchestration.Session.Stored.{IsStored}
use knowbalance.Orchestration.Session.Reachable.{
  Reachable, start, by_create, by_background, Reachable-IsStored,
}
use knowbalance.Orchestration.Session.Replay.{execute_command-replay, begin_next_round-lost}

abbrev request : LearnerRequest
request = record {
  learner_id = some "L1";
  goal = "loops";
  background = none;
  self_rating = none;
  diagnostic_seed = none;
  learning_goal_spec = none;
}

abbrev question : SelectedItem
question = record {
  source_id = "K007";
  fact_id = none;
  concept = "loop";
  difficulty = "basic";
  question = "q";
  options = none;
  answer = "a";
}

abbrev feedback : Feedback millionths
feedback = record {
  feedback_id = "F1";
  grade_artifact_id = "G1";
  objective_results =
      record { objective_id = "O1"; accuracy = 300000; misconception_tags = "tag" ∷ [] } ∷ [];
  action = remediate;
  reason_codes = [];
  value = null;
}

abbrev snapshot : LearnerProfileSnapshot
snapshot = record {
  schema_version = "1.0";
  profile_id = "P1";
  profile_version = "v1";
  learner_id = "L1";
  level = beginner;
  known_concepts = [];
  weak_concepts = [];
  goal = "loops";
  preferred_contexts = [];
  accommodations = [];
  provenance_ref = none;
}

abbrev node : LearningPathNode
node = record {
  schema_version = "1.0";
  node_id = "N1";
  target_source_ids = "K007" ∷ [];
  prerequisite_source_ids = [];
  goal = "loops";
  objectives = [];
  assessment_blueprint = record {
    tier_1_count = 2;
    tier_2_count = 2;
    tier_3_count = 1;
    required_modalities = [];
  };
}

abbrev path : FormalLearningPath
path = record {
  path_id = "PATH";
  learner_id = "L1";
  original_goal = "loops";
  nodes = record { node = node; status = FormalPathNodeStatus.in_progress; stage_order = 1 } ∷ [];
  current_node_index = some 0;
  profile_snapshot = snapshot;
  created_at = "t";
  updated_at = "t";
}

-- A worker whose result does not meet the contract.
abbrev bad_result : WorkerResult millionths Json
bad_result = record {
  schema_version = "0";
  run_id = "";
  step_index = 0;
  worker = Worker.profile_builder;
  stage = State.created;
  status = Status.failed;
  marker = "";
  execution = none;
  summary = "";
  artifacts = absent;
  output_refs = absent;
  evidence_refs = absent;
  next = none;
  errors = absent;
  persistence_events = absent;
  mastery_updates = absent;
  learned_facts_about_user = absent;
  clarification_requests = absent;
  next_step_recommendation = absent;
}

abbrev services : Services millionths
services = record {
  now = λ n. "t";
  random_suffix = λ n. "r";
  date_now = 0;
  select_diagnosis = λ r learner. ok (question ∷ []);
  load_memory = λ learner. ok (empty_memory learner);
  run_worker = λ invocation. ok bad_result;
  kb_version = ok "v1";
  generate = λ input. ok (not_ready "no provider");
  submit = λ input. ok (graded feedback);
  route = λ id input. ok (route_blocked []);
  profile_of = λ value. record {
    learner_id = "L1";
    level = beginner;
    known_concepts = [];
    weak_concepts = [];
    goal = "loops";
  };
  formal_path_of = λ value. path;
  next_path_node_of = λ value. none;
  rag_result_of = λ value. none;
  show_num = λ n. "n";
  normalize_answer = λ t. t;
  content_hash = λ value. "h";
}

abbrev hash_json : Command → String
hash_json command = command.command_id

abbrev store_of : {A : Type 0} → Fallible (A × SessionStore millionths) → SessionStore millionths
store_of (ok (a, store)) = store
store_of (thrown e) = []

abbrev assessed : SessionRecord millionths
assessed = record {
  view = record {
    schema_version = "1.0";
    session_id = "S1";
    run_id = "R1";
    mode = Mode.deterministic;
    status = SessionStatus.waiting_for_user;
    current_stage = Stage.assessment;
    round_no = 1;
    waiting_for = some (assessment_answers []);
    anchor_routing = none;
    worker_ledger = [];
    profile = none;
    formal_path = some path;
    current_path_node = some node;
    rag_result = some (record { results = []; value = null });
    learning_resources = record { concept_lesson = none; code_lab = none };
    assessment = some (object (fields_of []));
    adaptation = none;
    feedback = none;
    blocked_reason = none;
    created_at = "t";
    updated_at = "t";
  };
  owner_id = "O";
  learner_request = request;
  events = [];
  processed_commands = [];
  private_data = record {
    diagnosis_answer_key = [];
    diagnosis_answers = none;
    diagnosis_items = [];
    upstream_artifacts = [];
    next_round_context = none;
    anchor_answers = none;
    role_c_generation_attempt = 0;
    role_c = some (record {
      data_directory = "role-c";
      session_id = "LS1";
      run_id = "R1-R1-C1";
      learner_id = "L1";
      form_id = "FORM";
      attempt_no = 1;
    });
  };
}

abbrev before : SessionStore millionths
before = ("S1", assessed) ∷ []

before-IsStored : All IsStored before
before-IsStored = ((refl, refl), tt)

abbrev submit : Command
submit = record { command_id = "C1"; type = submit_assessment_answers; answers = answer_list [] }

abbrev other : Command
other = record { command_id = "C1"; type = retry; answers = no_answers }

abbrev view_of : {B : Type 0} → Fallible (PublicView millionths × B) → PublicView millionths
view_of (ok (view, b)) = view
view_of (thrown e) = assessed.view

abbrev record_of : {B : Type 0} → Fallible (SessionRecord millionths × B) → SessionRecord millionths
record_of (ok (r, b)) = r
record_of (thrown e) = assessed

abbrev executed : Fallible (PublicView millionths × SessionStore millionths)
executed = execute_command services hash_json "S1" submit before

executed_ok : executed ≡ ok (view_of executed, store_of executed)
unfolding execute_command validate_command is_safe_id load lookup replay_or_execute execute_new
    dispatch continue_after_assessment assert_submission_answers read_answers submit_answers
    after_submission after_grading
executed_ok = refl

-- A command that was executed is sent again with other content.
execute_command-replay_example :
    execute_command services hash_json "S1" other (store_of executed) ≡ (
      if hash_json other == hash_json submit
      then ok (view_of executed, store_of executed)
      else refuse "COMMAND_ID_REUSED" "command_id was already used with different content" 409)
unfolding execute_command validate_command is_safe_id
execute_command-replay_example =
    execute_command-replay services services hash_json "S1" submit other before (store_of executed)
      (view_of executed) before-IsStored executed_ok refl refl

abbrev context : NextRoundContext
context = record {
  request_id = "NRC-S1-R2";
  parent_spec_id = "R1-R1-C1";
  prior_feedback_ref = "F1";
  trigger_grade_artifact_id = "G1";
  action = remediate;
  focus_objective_ids = "O1" ∷ [];
  reason_codes = [];
  misconception_tags = some ("tag" ∷ []);
}

abbrev generated : Generated millionths
generated = record { snapshot = assessed; result = round_refused "no provider" }

begin_next_round-lost_example :
    finish_next_round services "S1" (ok generated) (store_of executed) ≡ store_of executed
unfolding begin_next_round lookup execute_command validate_command is_safe_id load replay_or_execute
    execute_new dispatch continue_after_assessment assert_submission_answers read_answers
    submit_answers after_submission after_grading public_session_view follow_path
    advance_to_next_node advance_from node_at start_round push_event generate_for
    generate_formal_role_c_round round_of_outcome
begin_next_round-lost_example =
    begin_next_round-lost services services services hash_json "S1" submit context before
      (store_of executed) assessed (view_of executed) generated before-IsStored refl refl
      executed_ok refl refl

abbrev create_input : CreateInput
create_input = record {
  session_id = "S2";
  run_id = "R2";
  mode = Mode.deterministic;
  learner_request = request;
  owner_id = "O";
}

abbrev second_input : CreateInput
second_input = record create_input { session_id = "S3" }

abbrev created : Fallible (SessionRecord millionths × SessionStore millionths)
created = create services create_input []

abbrev created_again : Fallible (SessionRecord millionths × SessionStore millionths)
created_again = create services second_input (store_of created)

abbrev ended : SessionStore millionths
ended =
    finish_next_round services "S3" (thrown (other_error "no provider")) (store_of created_again)

created_again-Reachable : Reachable millionths hash_json (store_of created_again)
unfolding create safe_id is_safe_id lookup create_record save insert
created_again-Reachable =
    by_create services second_input (store_of created) (store_of created_again)
      (record_of created_again)
      (by_create services create_input [] (store_of created) (record_of created) start refl) refl

Reachable-IsStored_example : All IsStored ended
Reachable-IsStored_example = Reachable-IsStored (
    by_background services "S3" (thrown (other_error "no provider")) (store_of created_again)
      created_again-Reachable)
