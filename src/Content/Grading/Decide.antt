-- ===== src/Content/Grading/Decide.antt =====
-- src/role-c-content/grading/grade-submission.ts: the decision on one answer, by the kind of its
-- item; and executeWithRunnerRetry of src/role-c-content/security/code-runner.ts.
use knowbalance.Prelude.{
  ℕ, zero, suc, String, Bool, false, not, ◌&&◌, ◌||◌, Option, none, some, List, [], ◌∷◌, map,
  is_empty, string_Eq, ◌==◌, ◌!=◌, includes, if◌then◌else◌, length,
}
use knowbalance.Prelude.Text.{is_blank}
use knowbalance.Prelude.Dict.{lookup}
use knowbalance.Prelude.Number.{Number, num_max}
use knowbalance.Content.Grading.{
  Language, Normalization, casefold, unicode, AnswerSpec, exact_set, numeric, concept_rubric,
  program, AssessmentItemSecure, SubmissionAnswer, AssessmentCodeTestSuite, CodeExecutionRequest,
  CodeExecutionResult, RetriedExecution, CodeRunner, graded, blocked, GradeDecision, GradingOptions,
}
use knowbalance.Content.Grading.Rubric.{decision, blocked_decision, unanswered, grade_rubric}

-- `text ?? ""`
abbrev pub text_or_empty : Option String → String
text_or_empty none = ""
text_or_empty (some text) = text

-- How many times an execution is repeated after a runner error: `maxToolRetries`, truncated and
-- held between 0 and 2.
unfoldable pub retries_of : (N : Number) → N.Num → ℕ
retries_of N max_tool_retries =
    if not (N.is_finite max_tool_retries) || N.lt max_tool_retries (N.integer 1)
    then 0
    else if N.lt max_tool_retries (N.integer 2)
    then 1
    else 2

-- `a === b` on numbers
abbrev pub num_eq : (N : Number) → N.Num → N.Num → Bool
num_eq N a b = N.le a b && N.le b a

-- `selected ?? text ?? ""`
abbrev pub chosen_text : Option String → Option String → String
chosen_text none text = text_or_empty text
chosen_text (some id) text = id

module _ {N : Number} where
  -- The result of an attempt; the attempts are counted from 1.
  abbrev pub executed_at : (ℕ → CodeExecutionResult N) → (attempt : ℕ) → RetriedExecution N
  executed_at execute attempt = record { result = execute attempt; tool_attempts = suc attempt }

  -- The loop from an attempt on; `more` attempts can follow it.
  unfoldable pub attempt_from :
      (ℕ → CodeExecutionResult N) → (more attempt : ℕ) → RetriedExecution N
  attempt_from execute zero attempt = executed_at execute attempt
  attempt_from execute (suc more) attempt =
      let later = attempt_from execute more (suc attempt) in
      if (execute attempt).status != "runner_error" then executed_at execute attempt else later

  unfoldable pub execute_with_runner_retry :
      CodeRunner N → CodeExecutionRequest N → (max_tool_retries : N.Num) → RetriedExecution N
  execute_with_runner_retry runner request max_tool_retries =
      attempt_from (runner.execute request) (retries_of N max_tool_retries) 0

  unfoldable pub valid_code_execution_result :
      Language N → CodeExecutionResult N → (expected_tests : ℕ) → Bool
  valid_code_execution_result l result expected_tests =
      let shape_ok =
        includes ("passed" ∷ "failed" ∷ "timeout" ∷ "runner_error" ∷ []) result.status
        && (l.is_safe_integer result.passed_tests
            && (l.is_safe_integer result.total_tests
                && (N.le (N.integer 0) result.passed_tests
                    && (num_eq N result.total_tests (N.integer expected_tests)
                        && (N.le result.passed_tests result.total_tests
                            && (N.is_finite result.score_ratio
                                && (N.le (N.integer 0) result.score_ratio
                                    && N.le result.score_ratio (N.integer 1)))))))) in
      let fails = not (is_empty result.failure_codes) in
      if not shape_ok
      then false
      else if result.status == "passed"
      then num_eq N result.passed_tests (N.integer expected_tests)
        && (num_eq N result.score_ratio (N.integer 1) && not fails)
      else if result.status == "failed"
      then N.lt result.passed_tests (N.integer expected_tests)
        && (N.lt result.score_ratio (N.integer 1) && fails)
      else if result.status == "timeout"
      then num_eq N result.score_ratio (N.integer 0) && fails
      else false

  unfoldable pub normalize_text : Language N → String → List Normalization → String
  normalize_text l value [] = value
  normalize_text l value (Normalization.trim ∷ operations) =
      normalize_text l (l.trim value) operations
  normalize_text l value (casefold ∷ operations) = normalize_text l (l.lower value) operations
  normalize_text l value (unicode ∷ operations) =
      normalize_text l (l.normalize_nfkc value) operations
  normalize_text l value (Normalization.collapse_whitespace ∷ operations) =
      normalize_text l (l.collapse_whitespace value) operations

  unfoldable pub grade_exact_set :
      Language N
      → SubmissionAnswer
      → (accepted : List String) → List Normalization
      → (max_score : N.Num) → GradeDecision N
  grade_exact_set l answer accepted normalization max_score =
      let raw = chosen_text answer.selected_option_id answer.text_response in
      let correct =
        includes (map (λ value. normalize_text l value normalization) accepted)
          (normalize_text l raw normalization) in
      if correct
      then decision graded max_score (N.integer 1) "correct"
      else decision graded (N.integer 0) (N.integer 1) "incorrect"

-- A number, or the feedback code of what is no answer.
pub data NumericResponse (N : Number) : Type 0 where
  parsed : (value : N.Num) → NumericResponse N
  unparsed : (feedback_code : String) → NumericResponse N

module _ {N : Number} (l : Language N) where
  unfoldable pub parse_number : (numeric_text : String) → NumericResponse N
  parse_number numeric_text =
      if N.is_finite (l.number_of numeric_text)
      then parsed (l.number_of numeric_text)
      else unparsed "invalid_numeric"

  unfoldable pub parse_numeric_response :
      String → (expected_unit : Option String) → NumericResponse N
  parse_numeric_response raw none = parse_number (l.trim (l.normalize_nfkc raw))
  parse_numeric_response raw (some expected_unit) =
      let normalized = l.trim (l.normalize_nfkc raw) in
      let suffix = l.trim (l.normalize_nfkc expected_unit) in
      if suffix == "" || not (l.ends_with normalized suffix)
      then unparsed "invalid_unit"
      else parse_number (l.trim (l.without_suffix normalized suffix))

  abbrev pub num_abs : N.Num → N.Num
  num_abs a = if N.lt a (N.integer 0) then N.sub (N.integer 0) a else a

  unfoldable pub grade_numeric :
      NumericResponse N → (target abs_tolerance rel_tolerance max_score : N.Num) → GradeDecision N
  grade_numeric (unparsed code) target abs_tolerance rel_tolerance max_score =
      decision graded (N.integer 0) (N.integer 1) code
  grade_numeric (parsed value) target abs_tolerance rel_tolerance max_score =
      let tolerance = num_max N abs_tolerance (N.mul (num_abs target) rel_tolerance) in
      if N.le (num_abs (N.sub value target)) tolerance
      then decision graded max_score (N.integer 1) "correct"
      else decision graded (N.integer 0) (N.integer 1) "outside_tolerance"

  unfoldable pub request_of :
      (code : String)
      → (test_suite_id : String) → AssessmentCodeTestSuite N
      → CodeExecutionRequest N
  request_of code test_suite_id suite =
      let limits = suite.execution_contract.resource_limits in
      record {
        code = code;
        test_suite_id = test_suite_id;
        execution_contract = suite.execution_contract;
        tests = suite.hidden_tests;
        timeout_ms = limits.timeout_ms;
        memory_mb = limits.memory_mb;
        max_output_bytes = limits.max_output_bytes;
      }

  unfoldable pub grade_execution :
      (runner_image_digest : String)
      → (expected_tests : ℕ) → (max_score : N.Num) → CodeExecutionResult N
      → GradeDecision N
  grade_execution digest expected_tests max_score result =
      if not (valid_code_execution_result l result expected_tests)
        || result.runner_image_digest != digest
      then blocked_decision "invalid_code_runner_result"
      else record {
        status = if result.status == "runner_error" then blocked else graded;
        score = N.mul max_score result.score_ratio;
        confidence = if result.status == "runner_error" then N.integer 0 else N.integer 1;
        feedback_code = result.status;
        failure_codes = result.failure_codes;
        rubric_results = none;
      }

  -- `options.max_tool_retries ?? 2`
  abbrev pub tool_retries : Option N.Num → N.Num
  tool_retries none = N.integer 2
  tool_retries (some retries) = retries

  unfoldable pub run_code :
      CodeRunner N
      → (code : String) → (test_suite_id : String) → (max_score : N.Num) → GradingOptions N
      → Option (AssessmentCodeTestSuite N)
      → GradeDecision N
  run_code runner code test_suite_id max_score options none =
      blocked_decision "code_test_suite_unavailable"
  run_code runner code test_suite_id max_score options (some suite) =
      grade_execution runner.runner_image_digest (length suite.hidden_tests) max_score (
        (execute_with_runner_retry runner (request_of code test_suite_id suite)
          (tool_retries options.max_tool_retries)).result)

  unfoldable pub grade_code :
      (code_response : String)
      → (test_suite_id : String) → (max_score : N.Num) → GradingOptions N
      → List (String × AssessmentCodeTestSuite N)
      → Option (CodeRunner N)
      → GradeDecision N
  grade_code code test_suite_id max_score options suites none =
      blocked_decision "code_runner_unavailable"
  grade_code code test_suite_id max_score options suites (some runner) =
      if is_blank code
      then unanswered
      else run_code runner code test_suite_id max_score options (lookup test_suite_id suites)

  unfoldable pub grade_answer :
      SubmissionAnswer
      → (max_score : N.Num) → GradingOptions N
      → List (String × AssessmentCodeTestSuite N)
      → AnswerSpec N
      → GradeDecision N
  grade_answer answer max_score options suites (exact_set accepted normalization) =
      grade_exact_set l answer accepted normalization max_score
  grade_answer answer max_score options suites (numeric target abs_tolerance rel_tolerance unit) =
      grade_numeric (parse_numeric_response (text_or_empty answer.text_response) unit) target
        abs_tolerance rel_tolerance max_score
  grade_answer answer max_score options suites (concept_rubric criteria contradictions) =
      grade_rubric l (text_or_empty answer.text_response) criteria contradictions max_score options
  grade_answer answer max_score options suites (program test_suite_id) =
      grade_code (text_or_empty answer.code_response) test_suite_id max_score options suites
        options.code_runner

  unfoldable pub grade_one :
      Option SubmissionAnswer
      → AssessmentItemSecure N
      → GradingOptions N
      → List (String × AssessmentCodeTestSuite N)
      → GradeDecision N
  grade_one none item options suites = unanswered
  grade_one (some answer) item options suites =
      grade_answer answer item.max_score options suites item.answer_spec
