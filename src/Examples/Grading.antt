-- ===== src/Examples/Grading.antt =====
-- Runs of the grading of a submission, of a rubric and of an execution.
use knowbalance.Prelude.{
  string_Eq, ℕ, zero, suc, ◌≤◌, String, true, none, some, List, [], ◌∷◌, filter, ◌==◌, ◌≡◌, refl,
}
use knowbalance.Prelude.Json.{Json}
use knowbalance.Prelude.Dict.{lookup, insert}
use knowbalance.Prelude.Text.{concat, show_nat}
use knowbalance.Prelude.Number.{millionths}
use knowbalance.Content.Mastery.Update.{round}
use knowbalance.Content.Grading.{
  Language, RubricCriterion, JudgedCriterion, BlindRubricJudgeRequest, RubricCriterionResult,
  AnswerSpec, exact_set, concept_rubric, ItemModality, AssessmentItemSecure, SubmissionEnvelope,
  level_0, level_1, GradingOptions, CodeRunner, CodeExecutionRequest, CodeExecutionResult,
}
use knowbalance.Content.Grading.Rubric.{
  grade_rubric, grade_by, grade_judged, complete_judgments, rubric_decision, read_judgments,
  judge_one, rubric_result, public_ids_from, criterion_by_id, valid_judge_result, has_evidence,
  minimum_confidence,
}
use knowbalance.Content.Grading.Score.{grade_accepted, is_required}
use knowbalance.Content.Grading.Decide.{retries_of, execute_with_runner_retry}
use knowbalance.Content.Grading.Laws.{
  IsGradeOf, grade_accepted-IsGradeOf, IsTaken, execute_with_runner_retry-IsTaken,
}
use knowbalance.Content.Grading.Judged.{IsJudgedBy, grade_rubric-IsJudgedBy}

abbrev language : Language millionths
language = record {
  normalize_nfkc = λ text. text;
  trim = λ text. text;
  lower = λ text. text;
  collapse_whitespace = λ text. text;
  ends_with = λ text suffix. text == suffix;
  without_suffix = λ text suffix. "";
  first_160 = λ text. text;
  number_of = λ text. 0;
  sqrt = λ a. a;
  is_safe_integer = λ a. true;
}

abbrev criteria : List (RubricCriterion millionths)
criteria =
    record {
      criterion_id = "c1";
      description = "loops";
      weight = 600000;
      required_evidence = "for" ∷ [];
    }
    ∷ record {
      criterion_id = "c2";
      description = "range";
      weight = 400000;
      required_evidence = "range" ∷ [];
    }
    ∷ []

abbrev judged : List (JudgedCriterion millionths)
judged =
    record {
      criterion_id = "c2";
      status = "met";
      confidence = 900000;
      evidence_excerpt = some "range";
    }
    ∷ record { criterion_id = "c1"; status = "unmet"; confidence = 800000; evidence_excerpt = none }
    ∷ []

abbrev options : GradingOptions millionths
options = record {
  code_runner = none;
  rubric_judge = some (λ (request : BlindRubricJudgeRequest millionths). some judged);
  public_artifact = none;
  required_item_ids = some ("q1" ∷ "q3" ∷ []);
  repeat_exposure_by_item = [];
  minimum_rubric_confidence = none;
  max_tool_retries = none;
  expected_path_node_id = none;
  assessment_secure_ref = none;
}

abbrev rubric_results : List (RubricCriterionResult millionths)
rubric_results =
    record {
      criterion_id = some "criterion_2";
      status = "met";
      awarded_score = 4000000;
      confidence = 900000;
      evidence_excerpt = some "range";
    }
    ∷ record {
      criterion_id = some "criterion_1";
      status = "unmet";
      awarded_score = 0;
      confidence = 800000;
      evidence_excerpt = none;
    }
    ∷ []

rubric_graded :
    (grade_rubric language "a range" criteria [] 10000000 options).rubric_results
    ≡ some rubric_results
unfolding grade_rubric grade_by grade_judged complete_judgments rubric_decision read_judgments
    judge_one rubric_result public_ids_from criterion_by_id valid_judge_result has_evidence
    minimum_confidence lookup insert round concat show_nat
rubric_graded = refl

grade_rubric-IsJudgedBy_example : IsJudgedBy "a range" criteria [] options
grade_rubric-IsJudgedBy_example =
    grade_rubric-IsJudgedBy language "a range" criteria [] 10000000 options rubric_results
      rubric_graded

abbrev item : String → AnswerSpec millionths → AssessmentItemSecure millionths
item id spec = record {
  item_id = id;
  objective_id = "o1";
  tier = 1;
  modality = ItemModality.short_answer;
  max_score = 10000000;
  answer_spec = spec;
  correct_option_id = none;
  misconception_by_option = [];
  evidence_weight = 1000000;
}

abbrev items : List (AssessmentItemSecure millionths)
items =
    item "q1" (exact_set ("yes" ∷ []) [])
    ∷ item "q2" (exact_set ("no" ∷ []) [])
    ∷ item "q3" (concept_rubric criteria [])
    ∷ []

abbrev submission : SubmissionEnvelope
submission = record {
  submission_id = "s1";
  run_id = "r1";
  learner_id_hash = "h1";
  form_id = "f1";
  attempt_no = 1;
  answers =
      record {
        item_id = "q1";
        selected_option_id = none;
        text_response = some "yes";
        code_response = none;
        hint_level_used = level_1;
      }
      ∷ record {
        item_id = "q3";
        selected_option_id = none;
        text_response = some "a range";
        code_response = none;
        hint_level_used = level_0;
      }
      ∷ [];
}

grade_accepted-IsGradeOf_example :
    IsGradeOf language submission.answers [] options
      (filter (is_required options.required_item_ids) items)
      (grade_accepted language submission items [] options)
grade_accepted-IsGradeOf_example = grade_accepted-IsGradeOf language submission items [] options

abbrev request : CodeExecutionRequest millionths
request = record {
  code = "print(1)";
  test_suite_id = "t1";
  execution_contract = record {
    resource_limits = record { timeout_ms = 0; memory_mb = 0; max_output_bytes = 0 };
    other = Json.null;
  };
  tests = [];
  timeout_ms = 0;
  memory_mb = 0;
  max_output_bytes = 0;
}

abbrev execution : String → CodeExecutionResult millionths
execution status = record {
  status = status;
  passed_tests = 0;
  total_tests = 0;
  score_ratio = 1000000;
  failure_codes = [];
  runner_image_digest = "d1";
}

-- The first execution meets a runner error.
abbrev execute_second : ℕ → CodeExecutionResult millionths
execute_second zero = execution "runner_error"
execute_second (suc n) = execution "passed"

abbrev runner : CodeRunner millionths
runner = record { runner_image_digest = "d1"; execute = λ asked attempt. execute_second attempt }

execute_with_runner_retry-IsTaken_example :
    (retries_of millionths 2000000 ≤ 2)
    × IsTaken
        (runner.execute request)
        (retries_of millionths 2000000)
        0
        (execute_with_runner_retry runner request 2000000)
execute_with_runner_retry-IsTaken_example = execute_with_runner_retry-IsTaken runner request 2000000
