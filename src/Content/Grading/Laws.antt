-- ===== src/Content/Grading/Laws.antt =====
-- The grade of an accepted submission, and the retries of an execution.
use knowbalance.Prelude.{
  ℕ, zero, suc, ◌+◌, ◌≤◌, ◌<◌, String, Bool, true, false, not, List, [], ◌∷◌, ◌++◌, map, filter,
  any, is_empty, string_Eq, ◌==◌, ◌≡◌, refl, sym, ◌∙◌, ap, inl, inr, Bool-cases, arith, map-append,
  append_assoc, append_empty,
}
use knowbalance.Prelude.Number.{Number}
use knowbalance.Content.Grading.{
  Language, AssessmentItemSecure, SubmissionAnswer, SubmissionEnvelope, AssessmentCodeTestSuite,
  CodeExecutionRequest, CodeExecutionResult, RetriedExecution, CodeRunner, GradeStatus, graded,
  needs_review, blocked, GradingOptions, GradeItemResult, SubmissionGrade,
}
use knowbalance.Content.Grading.Decide.{attempt_from, retries_of, execute_with_runner_retry}
use knowbalance.Content.Grading.Score.{
  is_graded, is_blocked, GradingLoop, push_decision, decide_item, grade_item, grade_items,
  grade_status, is_required, answers_by_item, suites_by_id, grade_of, grade_accepted, item_result,
}

abbrev item_ids : {N : Number} → List (AssessmentItemSecure N) → List String
item_ids {N} items = map (λ (item : AssessmentItemSecure N). item.item_id) items

abbrev result_ids : {N : Number} → List (GradeItemResult N) → List String
result_ids {N} results = map (λ (result : GradeItemResult N). result.item_id) results

module _ {N : Number} (l : Language N) (answers : List (String × SubmissionAnswer))
    (suites : List (String × AssessmentCodeTestSuite N)) (options : GradingOptions N) where
  abbrev status_of : AssessmentItemSecure N → GradeStatus
  status_of item = (decide_item l answers suites options item).status

  abbrev pub not_graded : AssessmentItemSecure N → Bool
  not_graded item = not (is_graded (status_of item))

  abbrev pub is_blocked_item : AssessmentItemSecure N → Bool
  is_blocked_item item = is_blocked (status_of item)

  grade_items-results :
      (items : List (AssessmentItemSecure N)) (loop : GradingLoop N)
      → result_ids (grade_items l answers suites options items loop).results
        ≡ result_ids loop.results ++ item_ids items
  unfolding grade_items grade_item push_decision item_result
  grade_items-results [] loop = sym (append_empty _)
  grade_items-results (item ∷ items) loop =
      grade_items-results items _
      ∙ ap (λ xs. xs ++ item_ids items) (map-append (λ result. result.item_id) loop.results _)
      ∙ append_assoc (result_ids loop.results) (item.item_id ∷ []) (item_ids items)

  grade_items-unresolved :
      (items : List (AssessmentItemSecure N)) (loop : GradingLoop N)
      → (grade_items l answers suites options items loop).unresolved
        ≡ loop.unresolved ++ item_ids (filter not_graded items)
  unfolding grade_items grade_item push_decision item_result
  grade_items-unresolved [] loop = sym (append_empty _)
  grade_items-unresolved (item ∷ items) loop =
      grade_items-unresolved items _ ∙ elim (Bool-cases (is_graded (status_of item))) [
        | inl h ↦ rw h refl
        | inr h ↦ rw h (append_assoc loop.unresolved (item.item_id ∷ []) _)
      ]

  grade_items-blocked :
      (items : List (AssessmentItemSecure N)) (loop : GradingLoop N)
      → (grade_items l answers suites options items loop).blocked_ids
        ≡ loop.blocked_ids ++ item_ids (filter is_blocked_item items)
  unfolding grade_items grade_item push_decision item_result
  grade_items-blocked [] loop = sym (append_empty _)
  grade_items-blocked (item ∷ items) loop =
      grade_items-blocked items _ ∙ elim (Bool-cases (is_blocked (status_of item))) [
        | inl h ↦ rw h (append_assoc loop.blocked_ids (item.item_id ∷ []) _)
        | inr h ↦ rw h refl
      ]

-- What the grade of a submission says of its required items.
pub record IsGradeOf {N : Number} (l : Language N) (answers : List SubmissionAnswer)
    (suites : List (AssessmentCodeTestSuite N)) (options : GradingOptions N)
    (required : List (AssessmentItemSecure N)) (grade : SubmissionGrade N) : Type 0 where
  pub results : result_ids grade.item_results ≡ item_ids required
  pub unresolved :
      grade.unresolved_item_ids
      ≡ item_ids
          (filter (not_graded l (answers_by_item answers) (suites_by_id suites) options) required)
  pub graded_iff :
      is_graded grade.status
      ≡ not (any (not_graded l (answers_by_item answers) (suites_by_id suites) options) required)
  pub blocked_iff :
      is_blocked grade.status
      ≡ any (is_blocked_item l (answers_by_item answers) (suites_by_id suites) options) required

is_empty-filter :
    {N : Number} (p : AssessmentItemSecure N → Bool) (items : List (AssessmentItemSecure N))
    → is_empty (item_ids (filter p items)) ≡ not (any p items)
is_empty-filter p [] = refl
is_empty-filter p (item ∷ items) = elim (Bool-cases (p item)) [
  | inl h ↦ rw h refl
  | inr h ↦ rw h (is_empty-filter p items)
]

any-implies {ℓ} :
    {A : Type ℓ} (p q : A → Bool) (xs : List A)
    → ((x : A) → p x ≡ true → q x ≡ true)
    → any p xs ≡ true
    → any q xs ≡ true
any-implies p q [] f h = h
any-implies p q (x ∷ xs) f h = ground (arith, f x, any-implies p q xs f)

blocked-not_graded :
    (status : GradeStatus) → is_blocked status ≡ true → not (is_graded status) ≡ true
blocked-not_graded blocked h = refl
blocked-not_graded graded h = ground arith
blocked-not_graded needs_review h = refl

grade_status_lem :
    (blocked_ids unresolved : List String) (some_blocked some_unresolved : Bool)
    → is_empty blocked_ids ≡ not some_blocked
    → is_empty unresolved ≡ not some_unresolved
    → (some_blocked ≡ true → some_unresolved ≡ true)
    → (is_graded (grade_status blocked_ids unresolved) ≡ not some_unresolved)
      × (is_blocked (grade_status blocked_ids unresolved) ≡ some_blocked)
unfolding grade_status
grade_status_lem blocked_ids unresolved true true b u f = rw (b) (refl, refl)
grade_status_lem blocked_ids unresolved true false b u f = absurd (ground (arith, f refl))
grade_status_lem blocked_ids unresolved false true b u f = rw (b, u) (refl, refl)
grade_status_lem blocked_ids unresolved false false b u f = rw (b, u) (refl, refl)

-- An accepted submission gets one result for each required item, in their order; the unresolved items
-- are those whose decision is not graded; the grade is graded exactly when all decisions are, and
-- blocked exactly when one of them is.
pub grade_accepted-IsGradeOf :
    {N : Number} (l : Language N) (submission : SubmissionEnvelope)
    (items : List (AssessmentItemSecure N)) (suites : List (AssessmentCodeTestSuite N))
    (options : GradingOptions N)
    → IsGradeOf l submission.answers suites options
        (filter (is_required options.required_item_ids) items)
        (grade_accepted l submission items suites options)
unfolding grade_accepted grade_of grade_status
grade_accepted-IsGradeOf l submission items suites options =
    let answers = answers_by_item submission.answers in
    let by_id = suites_by_id suites in
    let required = filter (is_required options.required_item_ids) items in
    let start : GradingLoop _ = record { results = []; unresolved = []; blocked_ids = [] } in
    let u = grade_items-unresolved l answers by_id options required start in
    let b = grade_items-blocked l answers by_id options required start in
    let no_unresolved =
      ap is_empty u ∙ is_empty-filter (not_graded l answers by_id options) required in
    let no_blocked =
      ap is_empty b ∙ is_empty-filter (is_blocked_item l answers by_id options) required in
    let some_not_graded =
      any-implies (is_blocked_item l answers by_id options) (not_graded l answers by_id options)
        required (λ item. blocked-not_graded (status_of l answers by_id options item)) in
    let status = grade_status_lem _ _ _ _ no_blocked no_unresolved some_not_graded in
    record {
      results = grade_items-results l answers by_id options required start;
      unresolved = u;
      graded_iff = status.0;
      blocked_iff = status.1;
    }

-- The k-th execution, from 0, is taken and counted as attempt k + 1: the ones before it met a runner error, and it meets one
-- only where no retry is left.
pub record IsTaken {N : Number} (execute : ℕ → CodeExecutionResult N) (more attempt : ℕ)
    (retried : RetriedExecution N) : Type 0 where
  pub taken : ℕ
  pub within : taken ≤ more
  pub is_result : retried.result ≡ execute (attempt + taken)
  pub attempts : retried.tool_attempts ≡ suc (attempt + taken)
  pub errors_before : (j : ℕ) → j < taken → (execute (attempt + j)).status ≡ "runner_error"
  pub last_error : retried.result.status ≡ "runner_error" → taken ≡ more

errors_from :
    {N : Number} (execute : ℕ → CodeExecutionResult N) (attempt taken : ℕ)
    → (execute attempt).status ≡ "runner_error"
    → ((j : ℕ) → j < taken → (execute (suc attempt + j)).status ≡ "runner_error")
    → (j : ℕ) → j < suc taken
    → (execute (attempt + j)).status ≡ "runner_error"
errors_from execute attempt taken h f zero k = ap (λ i. (execute i).status) (omega arith) ∙ h
errors_from execute attempt taken h f (suc j) k =
    ap (λ i. (execute i).status) (omega arith) ∙ f j (omega (arith, k))

attempt_from-IsTaken :
    {N : Number} (execute : ℕ → CodeExecutionResult N) (more attempt : ℕ)
    → IsTaken execute more attempt (attempt_from execute more attempt)
unfolding attempt_from
attempt_from-IsTaken execute zero attempt = record {
  taken = 0;
  within = omega arith;
  is_result = ap execute (omega arith);
  attempts = omega arith;
  errors_before = λ j h. absurd (omega arith);
  last_error = λ e. refl;
}
attempt_from-IsTaken execute (suc more) attempt =
    let later = attempt_from-IsTaken execute more (suc attempt) in
    elim (Bool-cases ((execute attempt).status == "runner_error")) [
      | inl h ↦ rw h (record {
        taken = suc later.taken;
        within = omega (arith, later.within);
        is_result = later.is_result ∙ ap execute (omega arith);
        attempts = omega (arith, later.attempts);
        errors_before =
            errors_from execute attempt later.taken
              ((string_Eq.beq_iff (execute attempt).status "runner_error").0 h) later.errors_before;
        last_error = λ e. ap suc (later.last_error e);
      })
      | inr h ↦ rw h (record {
        taken = 0;
        within = omega arith;
        is_result = ap execute (omega arith);
        attempts = omega arith;
        errors_before = λ j k. absurd (omega (arith, k));
        last_error =
            λ e. absurd (ground (arith, string_Eq.beq_iff (execute attempt).status "runner_error"));
      })
    ]

retries_of-bounded : (N : Number) (m : N.Num) → retries_of N m ≤ 2
unfolding retries_of
retries_of-bounded N m = ground arith

-- An execution is repeated at most twice, and only after a runner error: the result is that of an
-- execution before which all met a runner error, it is one itself only where no retry is left, and
-- `tool_attempts` is the number of executions that were made.
pub execute_with_runner_retry-IsTaken :
    {N : Number} (runner : CodeRunner N) (request : CodeExecutionRequest N)
    (max_tool_retries : N.Num)
    → (retries_of N max_tool_retries ≤ 2)
      × IsTaken
          (runner.execute request)
          (retries_of N max_tool_retries)
          0
          (execute_with_runner_retry runner request max_tool_retries)
unfolding execute_with_runner_retry
execute_with_runner_retry-IsTaken {N} runner request m =
    (retries_of-bounded N m, attempt_from-IsTaken (runner.execute request) (retries_of N m) 0)
