-- ===== src/Content/Grading/Rubric.antt =====
-- src/role-c-content/grading/grade-submission.ts: the grading of an answer by a rubric, whose judge
-- is a parameter, and the checks of what the judge says.
use knowbalance.Prelude.{
  ℕ, suc, String, Bool, false, not, ◌&&◌, ◌||◌, Option, none, some, List, [], ◌∷◌, ◌++◌, foldl, any,
  nat_eq, string_Eq, ◌==◌, includes, add_new, if◌then◌else◌, length,
}
use knowbalance.Prelude.Text.{concat, show_nat, contains_text, is_blank}
use knowbalance.Prelude.Dict.{lookup, insert}
use knowbalance.Prelude.Number.{Number}
use knowbalance.Content.Mastery.Update.{round}
use knowbalance.Content.Grading.{
  Language, RubricCriterion, JudgedCriterion, BlindRubricJudge, RubricCriterionResult, GradeStatus,
  graded, needs_review, blocked, GradeDecision, GradingOptions,
}

-- A decision without failure codes and rubric results.
abbrev pub decision :
    {N : Number} → GradeStatus → (score confidence : N.Num) → String → GradeDecision N
decision status score confidence feedback_code = record {
  status = status;
  score = score;
  confidence = confidence;
  feedback_code = feedback_code;
  failure_codes = [];
  rubric_results = none;
}

unfoldable pub blocked_decision : {N : Number} → String → GradeDecision N
blocked_decision {N} feedback_code = decision blocked (N.integer 0) (N.integer 0) feedback_code

unfoldable pub unanswered : {N : Number} → GradeDecision N
unanswered {N} = decision graded (N.integer 0) (N.integer 1) "unanswered"

-- A criterion is met only on an excerpt that is not empty and stands in the response.
unfoldable pub has_evidence : (response : String) → Option String → Bool
has_evidence response none = false
has_evidence response (some excerpt) = not (excerpt == "") && contains_text response excerpt

-- The variables of the loop over the judgments.
pub record Judging (N : Number) : Type 0 where
  pub seen : List String
  pub weighted_confidence : N.Num
  pub rubric_results : List (RubricCriterionResult N)

-- `options.minimum_rubric_confidence ?? 0.65`
unfoldable pub minimum_confidence : (N : Number) → Option N.Num → N.Num
minimum_confidence N none = N.hundredths 65
minimum_confidence N (some minimum) = minimum

module _ {N : Number} where
  unfoldable pub valid_judge_result : JudgedCriterion N → Bool
  valid_judge_result result =
      includes ("met" ∷ "unmet" ∷ "uncertain" ∷ []) result.status
      && (N.is_finite result.confidence
          && (N.le (N.integer 0) result.confidence && N.le result.confidence (N.integer 1)))

  unfoldable pub criterion_by_id : List (RubricCriterion N) → List (String × RubricCriterion N)
  criterion_by_id criteria =
      foldl (λ m (criterion : RubricCriterion N). insert criterion.criterion_id criterion m) []
        criteria

  unfoldable pub public_ids_from :
      ℕ → List (RubricCriterion N) → List (String × String) → List (String × String)
  public_ids_from k [] m = m
  public_ids_from k (criterion ∷ criteria) m =
      public_ids_from (suc k) criteria
        (insert criterion.criterion_id (concat ("criterion_" ∷ show_nat k ∷ [])) m)

  module _ (l : Language N) (response : String) (max_score : N.Num)
      (criteria : List (RubricCriterion N)) where
    unfoldable pub rubric_result : JudgedCriterion N → RubricCriterion N → RubricCriterionResult N
    rubric_result result criterion = record {
      criterion_id = lookup result.criterion_id (public_ids_from 1 criteria []);
      status = result.status;
      awarded_score =
          if result.status == "met"
          then round N (N.mul max_score criterion.weight)
          else N.integer 0;
      confidence = result.confidence;
      evidence_excerpt = elim result.evidence_excerpt [
        | none ↦ none
        | some excerpt ↦ some (l.first_160 excerpt)
      ];
    }

    -- One judgment, about the criterion with its id; `none` where the judgment is not valid.
    unfoldable pub judge_one :
        JudgedCriterion N → Option (RubricCriterion N) → Judging N → Option (Judging N)
    judge_one result none judging = none
    judge_one result (some criterion) judging =
        if includes judging.seen result.criterion_id
          || not (valid_judge_result result)
          || result.status == "met" && not (has_evidence response result.evidence_excerpt)
        then none
        else some (record {
          seen = add_new judging.seen result.criterion_id;
          weighted_confidence =
              N.add judging.weighted_confidence (N.mul result.confidence criterion.weight);
          rubric_results = judging.rubric_results ++ rubric_result result criterion ∷ [];
        })

    unfoldable pub read_judgments : List (JudgedCriterion N) → Judging N → Option (Judging N)
    read_judgments [] judging = some judging
    read_judgments (result ∷ results) judging =
        elim (judge_one result (lookup result.criterion_id (criterion_by_id criteria)) judging) [
          | none ↦ none
          | some next ↦ read_judgments results next
        ]

    unfoldable pub rubric_decision : (minimum : N.Num) → Judging N → GradeDecision N
    rubric_decision minimum judging =
        let confidence = round N judging.weighted_confidence in
        let uncertain =
          any (λ (result : RubricCriterionResult N). result.status == "uncertain")
            judging.rubric_results in
        let low_confidence = N.lt confidence minimum in
        record {
          status = if uncertain || low_confidence then needs_review else graded;
          score = round N (
              foldl (λ sum (result : RubricCriterionResult N). N.add sum result.awarded_score)
                (N.integer 0) judging.rubric_results);
          confidence = confidence;
          feedback_code =
              if uncertain
              then "rubric_uncertain"
              else if low_confidence
              then "rubric_low_confidence"
              else "rubric_graded";
          failure_codes = [];
          rubric_results = some judging.rubric_results;
        }

    -- Every criterion has to be judged.
    unfoldable pub complete_judgments : (minimum : N.Num) → Option (Judging N) → GradeDecision N
    complete_judgments minimum none = blocked_decision "invalid_rubric_judgment"
    complete_judgments minimum (some judging) =
        if nat_eq (length judging.seen) (length (criterion_by_id criteria))
        then rubric_decision minimum judging
        else blocked_decision "incomplete_rubric_judgment"

    unfoldable pub grade_judged :
        (minimum : N.Num) → Option (List (JudgedCriterion N)) → GradeDecision N
    grade_judged minimum none = blocked_decision "rubric_judge_error"
    grade_judged minimum (some judged) = complete_judgments minimum (
        read_judgments judged
          (record { seen = []; weighted_confidence = N.integer 0; rubric_results = [] }))

    unfoldable pub grade_by :
        (contradictions : List String)
        → (minimum : N.Num) → Option (BlindRubricJudge N)
        → GradeDecision N
    grade_by contradictions minimum none =
        decision needs_review (N.integer 0) (N.integer 0) "rubric_judge_unavailable"
    grade_by contradictions minimum (some judge) = grade_judged minimum (
        judge
          (record { response = response; criteria = criteria; contradictions = contradictions }))

  unfoldable pub grade_rubric :
      Language N
      → (response : String) → List (RubricCriterion N)
      → (contradictions : List String) → (max_score : N.Num) → GradingOptions N
      → GradeDecision N
  grade_rubric l response criteria contradictions max_score options =
      if is_blank response
      then unanswered
      else grade_by l response max_score criteria contradictions
          (minimum_confidence N options.minimum_rubric_confidence) options.rubric_judge
