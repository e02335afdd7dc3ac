-- ===== src/Orchestration/Session/Services.antt =====
-- src/orchestration/interactive-session.ts: the services that a command calls, the events, and
-- the statuses of a session.
use knowbalance.Prelude.{
  ℕ, suc, String, Option, none, some, List, [], ◌∷◌, ◌++◌, string_Eq, ◌==◌, if◌then◌else◌,
}
use knowbalance.Prelude.Text.{concat}
use knowbalance.Prelude.Number.{Number}
use knowbalance.Prelude.Json.{Json}
use knowbalance.Orchestration.States.{Worker, worker_Eq}
use knowbalance.Orchestration.Types.{
  LearnerRequest, LearnerMemorySnapshot, WorkerInvocation, WorkerResult,
}
use knowbalance.Teaching.Progress.{LearnerProfile}
use knowbalance.Teaching.Paths.{LearningPathNode, FormalLearningPath}
use knowbalance.Orchestration.Session.{
  SessionStatus, Stage, EntryStatus, LedgerEntry, EventType, InteractiveEvent, SubmissionAnswer,
  Route, Feedback, NextRoundContext, RagResult, RoleC, SessionRecord, Fallible,
}

-- A question of `selectDiagnosticItems` with its answer.
pub record SelectedItem : Type 0 where
  pub source_id : String
  pub fact_id : Option String
  pub concept : String
  pub difficulty : String
  pub question : String
  pub options : Option (List String)
  pub answer : String

-- The input of `generateRoleCForRoleDWithRuntime`.
pub record GenerateRequest : Type 0 where
  pub profile : Option LearnerProfile
  pub rag_result : RagResult
  pub kb_version : String
  pub run_id : String
  pub path_node : LearningPathNode
  pub next_round_context : Option NextRoundContext

pub record LearningSession : Type 0 where
  pub session_id : String
  pub form_id : String
  pub attempt_no : ℕ
  pub routing_request_id : Option String
  pub anchor_item_ids : Option (List String)

pub record ReviewedRelease : Type 0 where
  pub concept_lesson : Option Json
  pub code_lab : Option Json
  pub assessment : Option Json
  pub adaptation : Option Json

pub data GenerateOutcome : Type 0 where
  not_ready : (reason : String) → GenerateOutcome
  ready :
      (run_id : String)
      → LearningSession
      → (reviewed_release : Option ReviewedRelease) → GenerateOutcome

-- The input of `submitRoleCAssessment`; that of `routeRoleCAssessmentAnchors` has a routing
-- request too.
pub record SubmitRequest : Type 0 where
  pub role_c : RoleC
  pub submission_id : String
  pub answers : List SubmissionAnswer

pub data SubmitOutcome (N : Number) : Type 0 where
  submit_blocked : (code message : String) → SubmitOutcome N
  submit_needs_review : (unresolved_item_ids : List String) → SubmitOutcome N
  graded : Feedback N → SubmitOutcome N

pub data RouteOutcome (N : Number) : Type 0 where
  routed : Route N → RouteOutcome N
  route_needs_review : (unresolved_anchor_item_ids : List String) → RouteOutcome N
  route_blocked : (issues : List String) → RouteOutcome N

-- What one command sees of the outside: the n-th readings of the clock and of `Math.random`, the
-- answers of the services, how the artifacts of the workers are read, and the text functions.
pub record Services (N : Number) : Type 0 where
  pub now : ℕ → String
  pub random_suffix : ℕ → String
  pub date_now : ℕ
  pub select_diagnosis : LearnerRequest → (learner_id : String) → Fallible (List SelectedItem)
  pub load_memory : (learner_id : String) → Fallible (LearnerMemorySnapshot N)
  pub run_worker : WorkerInvocation N Json → Fallible (WorkerResult N Json)
  pub kb_version : Fallible String
  pub generate : GenerateRequest → Fallible GenerateOutcome
  pub submit : SubmitRequest → Fallible (SubmitOutcome N)
  pub route : (routing_request_id : String) → SubmitRequest → Fallible (RouteOutcome N)
  pub profile_of : Json → LearnerProfile
  pub formal_path_of : Json → FormalLearningPath
  pub next_path_node_of : Json → Option LearningPathNode
  pub rag_result_of : Json → Option RagResult
  pub show_num : N.Num → String
  pub normalize_answer : String → String
  pub content_hash : Json → String

abbrev pub event_type_name : EventType → String
event_type_name EventType.session_created = "session_created"
event_type_name EventType.worker_completed = "worker_completed"
event_type_name EventType.worker_invoked = "worker_invoked"
event_type_name EventType.waiting_for_user = "waiting_for_user"
event_type_name EventType.command_received = "command_received"
event_type_name EventType.session_updated = "session_updated"
event_type_name EventType.session_completed = "session_completed"
event_type_name EventType.session_blocked = "session_blocked"

abbrev pub stage_for_worker : Worker → Stage
stage_for_worker Worker.tiered_evaluator = Stage.assessment
stage_for_worker _ = Stage.objective_diagnosis

unfoldable pub upsert_entry : LedgerEntry → List LedgerEntry → List LedgerEntry
upsert_entry next [] = next ∷ []
upsert_entry next (entry ∷ entries) =
    if entry.worker == next.worker then next ∷ entries else entry ∷ upsert_entry next entries

module _ {N : Number} where
  -- The session is completed and waits for nothing.
  unfoldable pub complete_session : SessionRecord N → SessionRecord N
  complete_session r = record r {
    view = record r.view {
      status = SessionStatus.completed;
      current_stage = Stage.completed;
      waiting_for = none;
    };
  }

  abbrev pub wait_for_nothing : SessionRecord N → SessionRecord N
  wait_for_nothing r = record r { view = record r.view { waiting_for = none } }

  module _ (s : Services N) where
    unfoldable pub event :
        ℕ
        → (session_id : String) → EventType
        → Stage
        → (message timestamp : String) → Option Worker
        → InteractiveEvent
    event k session_id event_type stage message timestamp worker = record {
      event_id =
          concat (session_id ∷ "-" ∷ event_type_name event_type ∷ "-" ∷ s.random_suffix k ∷ []);
      event_type = event_type;
      stage = stage;
      worker = worker;
      message = message;
      timestamp = timestamp;
    }

    -- `record.events.push(event(...))` with a time that is read for it.
    unfoldable pub push_event :
        ℕ → EventType → Stage → String → Option Worker → SessionRecord N → SessionRecord N
    push_event k event_type stage message worker r = record r {
      events = r.events ++ event k r.view.session_id event_type stage message (s.now k) worker ∷ [];
    }

    abbrev pub touch : ℕ → SessionRecord N → SessionRecord N
    touch k r = record r { view = record r.view { updated_at = s.now k } }

    -- The session is blocked; what it waited for stays.
    unfoldable pub block_session : ℕ → String → Option Worker → SessionRecord N → SessionRecord N
    block_session k reason worker r = touch (suc k) (
        push_event k EventType.session_blocked Stage.blocked reason worker (record r {
          view = record r.view {
            status = SessionStatus.blocked;
            current_stage = Stage.blocked;
            blocked_reason = some reason;
          };
        }))

    unfoldable pub upsert_ledger :
        ℕ → Worker → EntryStatus → (summary : String) → SessionRecord N → SessionRecord N
    upsert_ledger k worker status summary r = record r {
      view = record r.view {
        worker_ledger =
            upsert_entry
              (record { worker = worker; status = status; summary = summary; updated_at = s.now k })
              r.view.worker_ledger;
      };
    }
