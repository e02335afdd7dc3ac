-- ===== src/Orchestration/Session/Diagnosis.antt =====
-- src/orchestration/interactive-session.ts: the creation of a session, its return to the diagnosis,
-- and what follows the answers to a diagnosis.
use knowbalance.Prelude.{ℕ, suc, String, none, some, List, [], ◌∷◌, string_Eq, or_default}
use knowbalance.Prelude.Text.{concat, show_nat}
use knowbalance.Prelude.Number.{Number}
use knowbalance.Orchestration.States.{Worker}
use knowbalance.Orchestration.Types.{LearnerRequest, Mode}
use knowbalance.Orchestration.Session.{
  SessionStatus, Stage, EntryStatus, LedgerEntry, EventType, InteractiveEvent, PublicDiagnosisItem,
  diagnosis_answers, PrivateData, PublicView, SessionRecord, Fallible, ok, ◌>>=◌,
}
use knowbalance.Orchestration.Session.Input.{safe_id}
use knowbalance.Orchestration.Session.Services.{SelectedItem, Services, event, push_event}

pub record CreateInput : Type 0 where
  pub session_id : String
  pub run_id : String
  pub mode : Mode
  pub learner_request : LearnerRequest
  pub owner_id : String

-- `DIAG-${index + 1}-${source_id}`
unfoldable pub diagnosis_item : ℕ → SelectedItem → PublicDiagnosisItem
diagnosis_item number item = record {
  item_id = concat ("DIAG-" ∷ show_nat number ∷ "-" ∷ item.source_id ∷ []);
  source_id = item.source_id;
  fact_id = item.fact_id;
  concept = item.concept;
  difficulty = item.difficulty;
  question = item.question;
  options = item.options;
}

unfoldable pub diagnosis_items_from : ℕ → List SelectedItem → List PublicDiagnosisItem
diagnosis_items_from number [] = []
diagnosis_items_from number (item ∷ items) =
    diagnosis_item number item ∷ diagnosis_items_from (suc number) items

-- `Object.fromEntries` of the item ids and the answers.
unfoldable pub answer_key_from : ℕ → List SelectedItem → List (String × String)
answer_key_from number [] = []
answer_key_from number (item ∷ items) =
    (((diagnosis_item number item).item_id, item.answer) ∷ answer_key_from (suc number) items)

abbrev pub learner_of : LearnerRequest → (session_id : String) → String
learner_of request session_id = or_default request.learner_id session_id

abbrev pub first_ledger : (now : String) → List LedgerEntry
first_ledger now =
    record {
      worker = Worker.background_collector;
      status = EntryStatus.completed;
      summary = "已收集学习背景";
      updated_at = now;
    }
    ∷ record {
      worker = Worker.self_assessor;
      status = EntryStatus.completed;
      summary = "已收集学习者自评";
      updated_at = now;
    }
    ∷ record {
      worker = Worker.objective_diagnostician;
      status = EntryStatus.waiting_for_user;
      summary = "等待诊断作答";
      updated_at = now;
    }
    ∷ []

module _ {N : Number} where
  abbrev pub empty_private : List SelectedItem → PrivateData N
  empty_private items = record {
    diagnosis_answer_key = answer_key_from 1 items;
    diagnosis_answers = none;
    diagnosis_items = diagnosis_items_from 1 items;
    upstream_artifacts = [];
    next_round_context = none;
    anchor_answers = none;
    role_c_generation_attempt = 0;
    role_c = none;
  }

  -- The view of a session that waits for the answers to its diagnosis.
  abbrev pub asking_view : PublicView N → List SelectedItem → (now : String) → PublicView N
  asking_view v items now = record v {
    status = SessionStatus.waiting_for_user;
    current_stage = Stage.objective_diagnosis;
    round_no = 1;
    waiting_for = some (diagnosis_answers (diagnosis_items_from 1 items));
    profile = none;
    formal_path = none;
    current_path_node = none;
    rag_result = none;
    learning_resources = record { concept_lesson = none; code_lab = none };
    assessment = none;
    adaptation = none;
    anchor_routing = none;
    feedback = none;
    blocked_reason = none;
    updated_at = now;
  }

  module _ (s : Services N) where
    first_events : (session_id now : String) → List InteractiveEvent
    first_events session_id now =
        let stage = Stage.objective_diagnosis in
        event s 0 session_id EventType.session_created stage
          "learning-orchestrator created a persistent session" now none
        ∷ event s 1 session_id EventType.worker_completed stage
            "background-collector accepted learner background" now
            (some Worker.background_collector)
        ∷ event s 2 session_id EventType.worker_completed stage
            "self-assessor accepted learner self assessment" now (some Worker.self_assessor)
        ∷ event s 3 session_id EventType.worker_invoked stage
            "objective-diagnostician prepared grounded questions" now
            (some Worker.objective_diagnostician)
        ∷ event s 4 session_id EventType.waiting_for_user stage "waiting for diagnosis answers" now
            (some Worker.objective_diagnostician)
        ∷ []

    unfoldable pub new_session : CreateInput → List SelectedItem → SessionRecord N
    unfolding first_events
    new_session input items =
        let now = s.now 0 in
        record {
          view = record {
            schema_version = "1.0";
            session_id = input.session_id;
            run_id = input.run_id;
            mode = input.mode;
            status = SessionStatus.waiting_for_user;
            current_stage = Stage.objective_diagnosis;
            round_no = 1;
            waiting_for = some (diagnosis_answers (diagnosis_items_from 1 items));
            anchor_routing = none;
            worker_ledger = first_ledger now;
            profile = none;
            formal_path = none;
            current_path_node = none;
            rag_result = none;
            learning_resources = record { concept_lesson = none; code_lab = none };
            assessment = none;
            adaptation = none;
            feedback = none;
            blocked_reason = none;
            created_at = now;
            updated_at = now;
          };
          owner_id = input.owner_id;
          learner_request = input.learner_request;
          events = first_events input.session_id now;
          processed_commands = [];
          private_data = empty_private items;
        }

    -- The record that `createUnlocked` saves, where no session of that id exists.
    unfoldable pub create_record : CreateInput → Fallible (SessionRecord N)
    unfolding new_session
    create_record input = do
      items ←
          s.select_diagnosis input.learner_request
            (learner_of input.learner_request input.session_id)
      run_id ← safe_id input.run_id
      ok (new_session (record input { run_id = run_id }) items)

    -- After a drift of the profile the session goes back to its diagnosis.
    unfoldable pub reset_to_diagnosis_phase : SessionRecord N → Fallible (SessionRecord N)
    reset_to_diagnosis_phase r = do
      items ← s.select_diagnosis r.learner_request (learner_of r.learner_request r.view.session_id)
      ok (
          push_event s 2 EventType.session_updated Stage.objective_diagnosis "画像漂移，重新诊断以重建学习者画像"
            none
            (record r {
              view = asking_view r.view items (s.now 2);
              private_data = record (empty_private items) {
                role_c_generation_attempt = suc r.private_data.role_c_generation_attempt;
              };
            }))
