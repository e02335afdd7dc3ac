-- ===== src/Orchestration/Session.antt =====
-- src/orchestration/interactive-session.ts: the data of an interactive session. Values of type
-- `unknown` are JSON values; the fields that hold a value of a known type have that type, and null
-- is `none`. A number is a value of the interface `Number`, a counter a natural number.
pub mod Input
pub mod Services
pub mod Rounds
pub mod Diagnosis
pub mod Evidence
pub mod FirstRound
pub mod Assessment
pub mod Commands
pub mod Background
pub mod Consistency
pub mod Continued
pub mod Assessed
pub mod Executed
pub mod Stored
pub mod Reachable
pub mod Replay
use knowbalance.Prelude.{ℕ, String, Bool, Option, none, some, List, []}
use knowbalance.Prelude.Number.{Number}
use knowbalance.Prelude.Json.{Json}
use knowbalance.Orchestration.States.{Worker}
use knowbalance.Orchestration.Types.{Mode, LearnerRequest, Upstream}
use knowbalance.Content.Policy.{Action}
use knowbalance.Teaching.Progress.{LearnerProfile}
use knowbalance.Teaching.Paths.{LearningPathNode, FormalLearningPath}

pub data SessionStatus : Type 0 where
  waiting_for_user running completed blocked failed : SessionStatus

pub data Stage : Type 0 where
  objective_diagnosis assessment completed blocked failed : Stage

pub data EntryStatus : Type 0 where
  completed waiting_for_user running blocked failed pending : EntryStatus

pub record LedgerEntry : Type 0 where
  pub worker : Worker
  pub status : EntryStatus
  pub summary : String
  pub updated_at : String

pub data EventType : Type 0 where
  session_created worker_completed worker_invoked waiting_for_user command_received : EventType
  session_updated session_completed session_blocked : EventType

pub record InteractiveEvent : Type 0 where
  pub event_id : String
  pub event_type : EventType
  pub stage : Stage
  pub worker : Option Worker
  pub message : String
  pub timestamp : String

pub record PublicDiagnosisItem : Type 0 where
  pub item_id : String
  pub source_id : String
  pub fact_id : Option String
  pub concept : String
  pub difficulty : String
  pub question : String
  pub options : Option (List String)

-- `waiting_for` by its `type`, with the items.
pub data WaitingFor : Type 0 where
  diagnosis_answers : List PublicDiagnosisItem → WaitingFor
  anchor_answers assessment_answers clarification_answer : List Json → WaitingFor

-- An element of an array of answers whose `item_id` was checked; `value` is the whole element.
pub record SubmissionAnswer : Type 0 where
  pub item_id : String
  pub value : Json

pub data Phase : Type 0 where
  anchor_pending route_locked : Phase

pub record Route (N : Number) : Type 0 where
  pub route_id : String
  pub action : Action
  pub anchor_score_ratio : N.Num
  pub required_item_ids : List String

-- The optional fields are set together, when the route is locked.
pub record AnchorRouting (N : Number) : Type 0 where
  pub phase : Phase
  pub routing_request_id : String
  pub anchor_item_ids : List String
  pub route : Option (Route N)

pub record ObjectiveRoundResult (N : Number) : Type 0 where
  pub objective_id : String
  pub accuracy : N.Num
  pub misconception_tags : List String

-- The fields of `DynamicFeedbackResult` that are read, and the whole as it is shown.
pub record Feedback (N : Number) : Type 0 where
  pub feedback_id : String
  pub grade_artifact_id : String
  pub objective_results : List (ObjectiveRoundResult N)
  pub action : Action
  pub reason_codes : List String
  pub value : Json

pub record GivenAnswer : Type 0 where
  pub item_id : String
  pub selected_option_id : Json
  pub text_response : Json
  pub code_response : Json

-- `record.feedback`
pub record SessionFeedback (N : Number) : Type 0 where
  pub feedback : Feedback N
  pub assessment_items : Json
  pub your_answers : List GivenAnswer

-- `action` is never reprofile.
pub record NextRoundContext : Type 0 where
  pub request_id : String
  pub parent_spec_id : String
  pub prior_feedback_ref : String
  pub trigger_grade_artifact_id : String
  pub action : Action
  pub focus_objective_ids : List String
  pub reason_codes : List String
  pub misconception_tags : Option (List String)

-- Of a fact only its `fact_id` is read, where it is a string.
pub record RagResultItem : Type 0 where
  pub source_id : String
  pub fact_ids : List (Option String)

pub record RagResult : Type 0 where
  pub results : List RagResultItem
  pub value : Json

pub record LearningResources : Type 0 where
  pub concept_lesson : Option Json
  pub code_lab : Option Json

pub record RoleC : Type 0 where
  pub data_directory : String
  pub session_id : String
  pub run_id : String
  pub learner_id : String
  pub form_id : String
  pub attempt_no : ℕ

-- The part `private` of a session.
pub record PrivateData (N : Number) : Type 0 where
  pub diagnosis_answer_key : List (String × String)
  pub diagnosis_answers : Option (List (String × Json))
  pub diagnosis_items : List PublicDiagnosisItem
  pub upstream_artifacts : List (String × Upstream N Json)
  pub next_round_context : Option NextRoundContext
  pub anchor_answers : Option (List SubmissionAnswer)
  pub role_c_generation_attempt : ℕ
  pub role_c : Option RoleC

-- The fields that `publicSessionView` keeps.
pub record PublicView (N : Number) : Type 0 where
  pub schema_version : String
  pub session_id : String
  pub run_id : String
  pub mode : Mode
  pub status : SessionStatus
  pub current_stage : Stage
  pub round_no : ℕ
  pub waiting_for : Option WaitingFor
  pub anchor_routing : Option (AnchorRouting N)
  pub worker_ledger : List LedgerEntry
  pub profile : Option LearnerProfile
  pub formal_path : Option FormalLearningPath
  pub current_path_node : Option LearningPathNode
  pub rag_result : Option RagResult
  pub learning_resources : LearningResources
  pub assessment : Option Json
  pub adaptation : Option Json
  pub feedback : Option (SessionFeedback N)
  pub blocked_reason : Option String
  pub created_at : String
  pub updated_at : String

pub record ProcessedCommand (N : Number) : Type 0 where
  pub request_hash : String
  pub response : PublicView N

-- `InteractiveSessionRecord`: the public fields are those of `view`.
pub record SessionRecord (N : Number) : Type 0 where
  pub view : PublicView N
  pub owner_id : String
  pub learner_request : LearnerRequest
  pub events : List InteractiveEvent
  pub processed_commands : List (String × ProcessedCommand N)
  pub private_data : PrivateData N

unfoldable pub public_session_view : {N : Number} → SessionRecord N → PublicView N
public_session_view s = s.view

pub data CommandType : Type 0 where
  submit_diagnosis_answers submit_anchor_answers submit_assessment_answers : CommandType
  retry unsupported : CommandType

-- `payload.answers`: an object, an array, or anything else.
pub data Answers : Type 0 where
  answer_map : List (String × Json) → Answers
  answer_list : List Json → Answers
  no_answers : Answers

pub record Command : Type 0 where
  pub command_id : String
  pub type : CommandType
  pub answers : Answers

-- An `InteractiveSessionError`, or the message of another error.
pub data SessionError : Type 0 where
  session_error :
      (code message : String) → (http_status : ℕ) → (details : List String) → SessionError
  other_error : (message : String) → SessionError

pub data Fallible (A : Type 0) : Type 0 where
  ok : A → Fallible A
  thrown : SessionError → Fallible A

-- `await`: what is thrown is passed on.
infixl 5 ◌>>=◌ ◌>>◌
abbrev pub ◌>>=◌ : {A B : Type 0} → Fallible A → (A → Fallible B) → Fallible B
ok a >>= f = f a
thrown e >>= f = thrown e

abbrev pub ◌>>◌ : {A B : Type 0} → Fallible A → Fallible B → Fallible B
m >> k = m >>= λ _. k

abbrev pub refuse : {A : Type 0} → (code message : String) → (http_status : ℕ) → Fallible A
refuse code message http_status = thrown (session_error code message http_status [])
