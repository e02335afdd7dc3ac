-- ===== src/Orchestration/Types.antt =====
-- src/orchestration/types.ts and the types of learner-memory.ts. `N` is the type of numbers, and
-- `Unknown` stands for the values that the main Agent carries and never looks into.
use knowbalance.Prelude.{ℕ, String, Option, List, Eq, index_Eq, ◌≡◌, refl, zero, suc}
use knowbalance.Prelude.Number.{Number}
use knowbalance.Orchestration.States.{State, Worker}

pub data Mode : Type 0 where
  scaffold deterministic : Mode

abbrev pub mode_name : Mode → String
mode_name scaffold = "scaffold"
mode_name deterministic = "deterministic"

pub data Status : Type 0 where
  completed blocked failed : Status

abbrev pub status_index : Status → ℕ
status_index Status.completed = 0
status_index Status.blocked = 1
status_index Status.failed = 2

abbrev pub status_at : ℕ → Status
status_at zero = Status.completed
status_at (suc zero) = Status.blocked
status_at _ = Status.failed

pub status_at-index : (s : Status) → status_at (status_index s) ≡ s
status_at-index Status.completed = refl
status_at-index _ = refl

instance abbrev pub status_Eq : Eq Status
status_Eq = index_Eq status_index status_at status_at-index

abbrev pub status_name : Status → String
status_name Status.completed = "completed"
status_name Status.blocked = "blocked"
status_name Status.failed = "failed"

-- A field that the contract checks at run time: left out, well formed, or of the wrong shape.
pub data Slot (A : Type 0) : Type 0 where
  absent malformed : Slot A
  given : A → Slot A

pub data GoalMode : Type 0 where
  curriculum_node custom_goal : GoalMode

pub record LearningGoalSpecInput : Type 0 where
  pub mode : GoalMode
  pub selected_node_ids : Option (List String)
  pub custom_goal : Option String

pub record LearnerRequest : Type 0 where
  pub learner_id : Option String
  pub goal : String
  pub background : Option String
  pub self_rating : Option String
  pub diagnostic_seed : Option String
  pub learning_goal_spec : Option LearningGoalSpecInput

pub record MasteryUpdate (N : Number) : Type 0 where
  pub source_id : String
  pub mastery : N.Num
  pub evidence : String

pub record LearnedUserFact (N : Number) : Type 0 where
  pub key : String
  pub value : String
  pub confidence : N.Num

pub data AnswerType : Type 0 where
  choice text scale : AnswerType

pub record ClarificationRequest : Type 0 where
  pub question : String
  pub reason : String
  pub expected_answer_type : AnswerType
  pub options : Option (List String)

pub data NextAction : Type 0 where
  proceed ask_clarification remediate reinforce advance : NextAction

pub record NextStepRecommendation : Type 0 where
  pub action : NextAction
  pub reason : String

pub data RefKind : Type 0 where
  profile rag generation_spec artifact review assessment trace : RefKind

pub data RefSource : Type 0 where
  role_a role_b role_c role_d orchestrator : RefSource

pub record EvidenceRef : Type 0 where
  pub ref_id : String
  pub kind : RefKind
  pub source : RefSource
  pub content_hash : Option String
  pub path : Option String

pub data Severity : Type 0 where
  warning recoverable fatal : Severity

-- `details` is never read and is left out.
pub record WorkerError : Type 0 where
  pub code : String
  pub message : String
  pub severity : Severity

-- `execution_id` is `none` where it is not a string.
pub record WorkerExecutionEnvelope : Type 0 where
  pub worker : Worker
  pub status : Status
  pub execution_id : Option String
  pub marker : String

-- `WorkerName | "learning-orchestrator"`
pub data EventSource : Type 0 where
  by_worker : Worker → EventSource
  learning_orchestrator : EventSource

pub data PersistenceEvent (N : Number) : Type 0 where
  mastery_update :
      EventSource → (source_id : String) → N.Num → (evidence : String) → PersistenceEvent N
  learned_user_fact : EventSource → (key value evidence : String) → PersistenceEvent N
  session_completed : EventSource → (session_id summary : String) → PersistenceEvent N

pub record RecentError : Type 0 where
  pub source_id : String
  pub pattern : String
  pub count : ℕ

pub record LearnerMemorySnapshot (N : Number) : Type 0 where
  pub schema_version : String
  pub learner_id : String
  pub mastery_by_source_id : List (String × N.Num)
  pub mastered_source_ids : List String
  pub weak_source_ids : List String
  pub completed_sessions : List String
  pub recent_errors : List RecentError
  pub updated_at : String

-- A value under a key of `upstream_artifacts`.
pub data Upstream (N : Number) (Unknown : Type 0) : Type 0 where
  memory : LearnerMemorySnapshot N → Upstream N Unknown
  artifacts : Slot Unknown → Upstream N Unknown

pub record WorkerInvocation (N : Number) (Unknown : Type 0) : Type 0 where
  pub schema_version : String
  pub session_id : String
  pub run_id : String
  pub step_index : ℕ
  pub stage : State
  pub worker : Worker
  pub learner_request : LearnerRequest
  pub upstream_artifacts : List (String × Upstream N Unknown)
  pub input_refs : List String
  pub evidence_refs : List EvidenceRef
  pub retry_count : ℕ
  pub mode : Mode

-- What an adapter returns. The containers that `validateWorkerResult` checks are slots; an
-- `execution` that is no object is `none`. `next` is a state, where `complete` is `none`.
pub record WorkerResult (N : Number) (Unknown : Type 0) : Type 0 where
  pub schema_version : String
  pub run_id : String
  pub step_index : ℕ
  pub worker : Worker
  pub stage : State
  pub status : Status
  pub marker : String
  pub execution : Option WorkerExecutionEnvelope
  pub summary : String
  pub artifacts : Slot Unknown
  pub output_refs : Slot (List String)
  pub evidence_refs : Slot (List EvidenceRef)
  pub next : Option State
  pub errors : Slot (List WorkerError)
  pub persistence_events : Slot (List (PersistenceEvent N))
  pub mastery_updates : Slot (List (MasteryUpdate N))
  pub learned_facts_about_user : Slot (List (LearnedUserFact N))
  pub clarification_requests : Slot (List ClarificationRequest)
  pub next_step_recommendation : Slot NextStepRecommendation

pub data TraceEventType : Type 0 where
  session_started orchestrator_decision worker_invoked worker_completed : TraceEventType
  worker_blocked worker_failed state_transition session_completed : TraceEventType
  session_blocked session_failed : TraceEventType

pub record TraceEvent : Type 0 where
  pub schema_version : String
  pub run_id : String
  pub session_id : String
  pub step_index : ℕ
  pub event_type : TraceEventType
  pub stage : State
  pub worker : Option Worker
  pub message : String
  pub input_refs : List String
  pub output_refs : List String
  pub evidence_refs : List EvidenceRef
  pub duration_ms : Option ℕ
  pub result_size_bytes : Option ℕ
  pub error : Option WorkerError
  pub timestamp : String

pub record OrchestrationRunSummary (N : Number) : Type 0 where
  pub schema_version : String
  pub run_id : String
  pub session_id : String
  pub mode : Mode
  pub status : Status
  pub started_at : String
  pub finished_at : String
  pub total_steps : ℕ
  pub completed_steps : ℕ
  pub blocked_stage : Option State
  pub failed_stage : Option State
  pub events : List TraceEvent
  pub artifacts : List (String × String)
  pub persistence_events : List (PersistenceEvent N)
  pub clarification_requests : List ClarificationRequest
  pub learner_memory_ref : Option String
