-- ===== src/Content/Grading.antt =====
-- src/role-c-content/grading/grade-submission.ts and the parts of contracts/artifacts.ts and of
-- security/code-runner.ts that it uses: the data of items, answers, options and grades. Parameters:
-- the functions of the language on texts and numbers, the code runner and the rubric judge.
pub mod Rubric
pub mod Decide
pub mod Score
pub mod Laws
pub mod Judged
use knowbalance.Prelude.{ℕ, String, Bool, Option, List}
use knowbalance.Prelude.Number.{Number}
use knowbalance.Prelude.Json.{Json}

-- What the language offers: `normalize("NFKC")`, `trim`, `toLocaleLowerCase`, the replacement of
-- every run of white space by one blank, `endsWith`, `slice(0, -suffix.length)`, `slice(0, 160)`,
-- `Number(text)`, `Math.sqrt` and `Number.isSafeInteger`.
pub record Language (N : Number) : Type 0 where
  pub normalize_nfkc : String → String
  pub trim : String → String
  pub lower : String → String
  pub collapse_whitespace : String → String
  pub ends_with : String → String → Bool
  pub without_suffix : String → String → String
  pub first_160 : String → String
  pub number_of : String → N.Num
  pub sqrt : N.Num → N.Num
  pub is_safe_integer : N.Num → Bool

pub record RubricCriterion (N : Number) : Type 0 where
  pub criterion_id : String
  pub description : String
  pub weight : N.Num
  pub required_evidence : List String

pub data Normalization : Type 0 where
  trim casefold unicode collapse_whitespace : Normalization

-- `program` is the kind "code".
pub data AnswerSpec (N : Number) : Type 0 where
  exact_set : (accepted : List String) → List Normalization → AnswerSpec N
  numeric :
      (target abs_tolerance rel_tolerance : N.Num) → (expected_unit : Option String) → AnswerSpec N
  concept_rubric : List (RubricCriterion N) → (contradictions : List String) → AnswerSpec N
  program : (test_suite_id : String) → AnswerSpec N

pub data ItemModality : Type 0 where
  mcq true_false trace short_answer code : ItemModality

pub record AssessmentItemSecure (N : Number) : Type 0 where
  pub item_id : String
  pub objective_id : String
  pub tier : ℕ
  pub modality : ItemModality
  pub max_score : N.Num
  pub answer_spec : AnswerSpec N
  pub correct_option_id : Option String
  pub misconception_by_option : List (String × String)
  pub evidence_weight : N.Num

-- `0 | 1 | 2 | 3`
pub data HintLevel : Type 0 where
  level_0 level_1 level_2 level_3 : HintLevel

pub record SubmissionAnswer : Type 0 where
  pub item_id : String
  pub selected_option_id : Option String
  pub text_response : Option String
  pub code_response : Option String
  pub hint_level_used : HintLevel

pub record SubmissionEnvelope : Type 0 where
  pub submission_id : String
  pub run_id : String
  pub learner_id_hash : String
  pub form_id : String
  pub attempt_no : ℕ
  pub answers : List SubmissionAnswer

pub record ResourceLimits (N : Number) : Type 0 where
  pub timeout_ms : N.Num
  pub memory_mb : N.Num
  pub max_output_bytes : N.Num

-- The other fields of a contract are only passed on.
pub record ExecutionContract (N : Number) : Type 0 where
  pub resource_limits : ResourceLimits N
  pub other : Json

pub record AssessmentCodeTestSuite (N : Number) : Type 0 where
  pub test_suite_id : String
  pub execution_contract : ExecutionContract N
  pub reference_solution : String
  pub hidden_tests : List Json

pub record CodeExecutionRequest (N : Number) : Type 0 where
  pub code : String
  pub test_suite_id : String
  pub execution_contract : ExecutionContract N
  pub tests : List Json
  pub timeout_ms : N.Num
  pub memory_mb : N.Num
  pub max_output_bytes : N.Num

-- The status is a text, since the result is checked when it arrives.
pub record CodeExecutionResult (N : Number) : Type 0 where
  pub status : String
  pub passed_tests : N.Num
  pub total_tests : N.Num
  pub score_ratio : N.Num
  pub failure_codes : List String
  pub runner_image_digest : String

-- `CodeExecutionResult & { tool_attempts: number }`
pub record RetriedExecution (N : Number) : Type 0 where
  pub result : CodeExecutionResult N
  pub tool_attempts : ℕ

-- A runner gives its n-th execution of a request, from 0. A runner that throws, which makes the
-- grading throw, is not represented.
pub record CodeRunner (N : Number) : Type 0 where
  pub runner_image_digest : String
  pub execute : CodeExecutionRequest N → ℕ → CodeExecutionResult N

pub record BlindRubricJudgeRequest (N : Number) : Type 0 where
  pub response : String
  pub criteria : List (RubricCriterion N)
  pub contradictions : List String

-- One entry of `BlindRubricJudgeResult.criteria`.
pub record JudgedCriterion (N : Number) : Type 0 where
  pub criterion_id : String
  pub status : String
  pub confidence : N.Num
  pub evidence_excerpt : Option String

-- `none` where the judge throws.
abbrev pub BlindRubricJudge : Number → Type 0
BlindRubricJudge N = BlindRubricJudgeRequest N → Option (List (JudgedCriterion N))

pub record RubricCriterionResult (N : Number) : Type 0 where
  pub criterion_id : Option String
  pub status : String
  pub awarded_score : N.Num
  pub confidence : N.Num
  pub evidence_excerpt : Option String

pub data GradeStatus : Type 0 where
  graded needs_review blocked : GradeStatus

pub record GradeDecision (N : Number) : Type 0 where
  pub status : GradeStatus
  pub score : N.Num
  pub confidence : N.Num
  pub feedback_code : String
  pub failure_codes : List String
  pub rubric_results : Option (List (RubricCriterionResult N))

-- Of the public artifact and the session state, what is read once the submission is accepted.
pub record GradingOptions (N : Number) : Type 0 where
  pub code_runner : Option (CodeRunner N)
  pub rubric_judge : Option (BlindRubricJudge N)
  pub public_artifact : Option Json
  pub required_item_ids : Option (List String)
  pub repeat_exposure_by_item : List (String × N.Num)
  pub minimum_rubric_confidence : Option N.Num
  pub max_tool_retries : Option N.Num
  pub expected_path_node_id : Option String
  pub assessment_secure_ref : Option String

pub record GradeItemResult (N : Number) : Type 0 where
  pub item_id : String
  pub objective_id : String
  pub raw_score : N.Num
  pub max_score : N.Num
  pub evidence_score : N.Num
  pub grader_confidence : N.Num
  pub hint_factor : N.Num
  pub repeat_factor : N.Num
  pub misconception_tags : List String
  pub feedback_code : String
  pub rubric_results : Option (List (RubricCriterionResult N))

pub record SubmissionGrade (N : Number) : Type 0 where
  pub status : GradeStatus
  pub submission_id : String
  pub form_id : String
  pub raw_score : N.Num
  pub max_score : N.Num
  pub evidence_score : N.Num
  pub item_results : List (GradeItemResult N)
  pub unresolved_item_ids : List String
  pub blocked_reason : Option String
  pub validation_issues : Option (List String)
  pub boundary_verified : Bool
