-- ===== src/Content/Grading/Score.antt =====
-- src/role-c-content/grading/grade-submission.ts: what gradeSubmission does with a submission that
-- passed the boundary checks: the loop over the required items, and the grade.
use knowbalance.Prelude.{
  String, Bool, true, false, not, ◌&&◌, ◌||◌, Option, none, some, List, [], ◌∷◌, ◌++◌, map, foldl,
  filter, find, is_empty, is_some, string_Eq, ◌==◌, includes, unique, if◌then◌else◌, length,
}
use knowbalance.Prelude.Text.{concat, join, contains_text}
use knowbalance.Prelude.Dict.{lookup, insert}
use knowbalance.Prelude.Number.{Number, num_max}
use knowbalance.Content.Mastery.Update.{round, clamp01}
use knowbalance.Content.Grading.{
  Language, AssessmentItemSecure, SubmissionAnswer, SubmissionEnvelope, HintLevel, level_0, level_1,
  level_2, level_3, AssessmentCodeTestSuite, GradeStatus, graded, needs_review, blocked,
  GradeDecision, GradingOptions, GradeItemResult, SubmissionGrade,
}
use knowbalance.Content.Grading.Decide.{grade_one}

abbrev pub is_graded : GradeStatus → Bool
is_graded graded = true
is_graded _ = false

abbrev pub is_blocked : GradeStatus → Bool
is_blocked blocked = true
is_blocked _ = false

unfoldable pub hint_evidence_factor : (N : Number) → HintLevel → N.Num
hint_evidence_factor N level_0 = N.integer 1
hint_evidence_factor N level_1 = N.hundredths 85
hint_evidence_factor N level_2 = N.hundredths 65
hint_evidence_factor N level_3 = N.hundredths 45

abbrev pub failure_categories : List String
failure_categories =
    "assertion_failed" ∷ "syntax_error" ∷ "execution_timeout" ∷ "resource_limit_exceeded"
    ∷ "output_limit" ∷ "forbidden_import" ∷ "unsupported_contract_import" ∷ "forbidden_builtin" ∷ []

module _ {N : Number} (l : Language N) where
  unfoldable pub repeat_evidence_factor : (previous_exposures : N.Num) → N.Num
  repeat_evidence_factor previous_exposures =
      if not (l.is_safe_integer previous_exposures) || N.le previous_exposures (N.integer 0)
      then N.integer 1
      else round N (
          num_max N (N.hundredths 50)
            (N.div (N.integer 1) (l.sqrt (N.add previous_exposures (N.integer 1)))))

  unfoldable pub failure_category : (code : String) → String
  failure_category code =
      let normalized = l.lower (l.normalize_nfkc code) in
      elim (find
        (λ category.
          normalized == category
          || (l.ends_with normalized (concat (":" ∷ category ∷ []))
              || contains_text normalized category))
        failure_categories) [ none ↦ "execution_failed" | some category ↦ category ]

  unfoldable pub public_code_failure_categories : List String → List String
  public_code_failure_categories codes = unique (map failure_category codes)

  -- Whether the chosen option has a text for its misconception.
  unfoldable pub shows_misconception : Option SubmissionAnswer → AssessmentItemSecure N → Bool
  shows_misconception none item = false
  shows_misconception (some answer) item = elim answer.selected_option_id [
    | none ↦ false
    | some id ↦ not (id == "") && elim (lookup id item.misconception_by_option) [
      | none ↦ false
      | some tag ↦ not (tag == "")
    ]
  ]

  unfoldable pub derive_misconceptions :
      Option SubmissionAnswer → AssessmentItemSecure N → GradeDecision N → List String
  derive_misconceptions answer item decided = unique (
      (if shows_misconception answer item then "option_misconception" ∷ [] else [])
      ++ map (λ code. concat ("code:" ∷ code ∷ []))
          (public_code_failure_categories decided.failure_codes))

  abbrev pub hint_of : Option SubmissionAnswer → HintLevel
  hint_of none = level_0
  hint_of (some answer) = answer.hint_level_used

  abbrev pub exposures_of : Option N.Num → N.Num
  exposures_of none = N.integer 0
  exposures_of (some exposures) = exposures

  unfoldable pub item_result :
      Option SubmissionAnswer
      → AssessmentItemSecure N
      → GradingOptions N
      → GradeDecision N
      → GradeItemResult N
  item_result answer item options decided =
      let hint_factor = hint_evidence_factor N (hint_of answer) in
      let repeat_factor =
        repeat_evidence_factor
          (exposures_of (lookup item.item_id options.repeat_exposure_by_item)) in
      let raw_ratio =
        if N.le item.max_score (N.integer 0) && N.le (N.integer 0) item.max_score
        then N.integer 0
        else N.div decided.score item.max_score in
      record {
        item_id = item.item_id;
        objective_id = item.objective_id;
        raw_score = round N decided.score;
        max_score = item.max_score;
        evidence_score = round N (
            clamp01 N (
              N.mul
                (N.mul (N.mul (N.mul raw_ratio item.evidence_weight) decided.confidence)
                  hint_factor)
                repeat_factor));
        grader_confidence = decided.confidence;
        hint_factor = hint_factor;
        repeat_factor = repeat_factor;
        misconception_tags = derive_misconceptions answer item decided;
        feedback_code = decided.feedback_code;
        rubric_results = decided.rubric_results;
      }

unfoldable pub answers_by_item : List SubmissionAnswer → List (String × SubmissionAnswer)
answers_by_item answers =
    foldl (λ m (answer : SubmissionAnswer). insert answer.item_id answer m) [] answers

unfoldable pub grade_status : (blocked_ids unresolved : List String) → GradeStatus
grade_status blocked_ids unresolved =
    if not (is_empty blocked_ids)
    then blocked
    else if is_empty unresolved
    then graded
    else needs_review

-- `Boolean(text)`
abbrev pub is_given : Option String → Bool
is_given none = false
is_given (some text) = not (text == "")

-- The three lists that the loop pushes to.
pub record GradingLoop (N : Number) : Type 0 where
  pub results : List (GradeItemResult N)
  pub unresolved : List String
  pub blocked_ids : List String

module _ {N : Number} where
  unfoldable pub push_decision : GradeItemResult N → GradeStatus → GradingLoop N → GradingLoop N
  push_decision result status loop = record {
    results = loop.results ++ result ∷ [];
    unresolved =
        if is_graded status then loop.unresolved else loop.unresolved ++ result.item_id ∷ [];
    blocked_ids =
        if is_blocked status then loop.blocked_ids ++ result.item_id ∷ [] else loop.blocked_ids;
  }

  unfoldable pub suites_by_id :
      List (AssessmentCodeTestSuite N) → List (String × AssessmentCodeTestSuite N)
  suites_by_id suites =
      foldl (λ m (suite : AssessmentCodeTestSuite N). insert suite.test_suite_id suite m) [] suites

  abbrev pub is_required : Option (List String) → AssessmentItemSecure N → Bool
  is_required none item = true
  is_required (some ids) item = includes ids item.item_id

  unfoldable pub sum_by : (GradeItemResult N → N.Num) → List (GradeItemResult N) → N.Num
  sum_by value results = foldl (λ sum result. N.add sum (value result)) (N.integer 0) results

  unfoldable pub boundary_verified_by : GradingOptions N → Bool
  boundary_verified_by options =
      is_some options.public_artifact
      && (is_some options.required_item_ids
          && (is_given options.expected_path_node_id && is_given options.assessment_secure_ref))

  unfoldable pub grade_of :
      SubmissionEnvelope
      → GradingOptions N
      → (required : List (AssessmentItemSecure N)) → GradingLoop N
      → SubmissionGrade N
  grade_of submission options required loop = record {
    status = grade_status loop.blocked_ids loop.unresolved;
    submission_id = submission.submission_id;
    form_id = submission.form_id;
    raw_score = round N (sum_by (λ (result : GradeItemResult N). result.raw_score) loop.results);
    max_score =
        foldl (λ sum (item : AssessmentItemSecure N). N.add sum item.max_score) (N.integer 0)
          required;
    evidence_score = round N (
        if is_empty loop.results
        then N.integer 0
        else N.div (sum_by (λ (result : GradeItemResult N). result.evidence_score) loop.results)
            (N.integer (length loop.results)));
    item_results = loop.results;
    unresolved_item_ids = loop.unresolved;
    blocked_reason =
        if is_empty loop.blocked_ids
        then none
        else some (concat ("以下题目缺少可信评分能力：" ∷ join "、" loop.blocked_ids ∷ []));
    validation_issues = none;
    boundary_verified = boundary_verified_by options;
  }

module _ {N : Number} (l : Language N) (answers : List (String × SubmissionAnswer))
    (suites : List (String × AssessmentCodeTestSuite N)) (options : GradingOptions N) where
  -- The decision on one required item.
  unfoldable pub decide_item : AssessmentItemSecure N → GradeDecision N
  decide_item item = grade_one l (lookup item.item_id answers) item options suites

  unfoldable pub grade_item : GradingLoop N → AssessmentItemSecure N → GradingLoop N
  grade_item loop item =
      let decided = decide_item item in
      push_decision (item_result l (lookup item.item_id answers) item options decided)
        decided.status loop

  unfoldable pub grade_items : List (AssessmentItemSecure N) → GradingLoop N → GradingLoop N
  grade_items [] loop = loop
  grade_items (item ∷ items) loop = grade_items items (grade_item loop item)

-- What follows the boundary checks of `gradeSubmission`.
unfoldable pub grade_accepted :
    {N : Number}
    → Language N
    → SubmissionEnvelope
    → List (AssessmentItemSecure N)
    → List (AssessmentCodeTestSuite N)
    → GradingOptions N
    → SubmissionGrade N
grade_accepted l submission items suites options =
    let required = filter (is_required options.required_item_ids) items in
    grade_of submission options required (
      grade_items l (answers_by_item submission.answers) (suites_by_id suites) options required
        (record { results = []; unresolved = []; blocked_ids = [] }))
