-- ===== src/Content/Grading/Judged.antt =====
-- The judgments of a rubric: an answer gets rubric results only where every criterion is judged once.
use knowbalance.Prelude.{
  suc, String, Bool, true, false, ◌||◌, Option, none, some, List, [], ◌∷◌, ◌++◌, map, foldl, length,
  nat_eq, string_Eq, ◌==◌, includes, is_distinct, if◌then◌else◌, ◌≡◌, refl, sym, ◌∙◌, ap, inl, inr,
  Bool-cases, arith, is_some, append_assoc, append_empty, distinct-append,
}
use knowbalance.Prelude.Counting.{includes_all}
use knowbalance.Prelude.Text.{is_blank}
use knowbalance.Prelude.Dict.{
  lookup, insert, keys, is_some-lookup, includes-keys-insert, insert-HasDistinctKeys,
  HasDistinctKeys,
}
use knowbalance.Prelude.Number.{Number}
use knowbalance.Content.Grading.{
  Language, RubricCriterion, JudgedCriterion, BlindRubricJudge, RubricCriterionResult,
  GradingOptions,
}
use knowbalance.Content.Grading.Rubric.{
  blocked_decision, unanswered, Judging, criterion_by_id, judge_one, read_judgments,
  complete_judgments, grade_judged, grade_by, minimum_confidence, grade_rubric,
}

abbrev judged_ids : {N : Number} → List (JudgedCriterion N) → List String
judged_ids {N} judged = map (λ (result : JudgedCriterion N). result.criterion_id) judged

abbrev criterion_ids : {N : Number} → List (RubricCriterion N) → List String
criterion_ids {N} criteria =
    map (λ (criterion : RubricCriterion N). criterion.criterion_id) criteria

kept {ℓ} :
    {A : Type ℓ} (b : Bool) (x y : A)
    → (if b then none else some x) ≡ some y
    → (b ≡ false) × (some x ≡ some y)
kept true x y e = absurd (ground arith)
kept false x y e = (refl, e)

some-injective_at {ℓ κ} :
    {A : Type ℓ} {B : Type κ} (f : A → B) (x y : A) → some x ≡ some y → f x ≡ f y
some-injective_at f x y e = ap (λ o. elim o [ none ↦ f x | some z ↦ f z ]) e

some_of_elim {ℓ κ} :
    {A : Type ℓ} {B : Type κ} (o : Option A) (k : A → Option B) (b : B)
    → (elim o [ none ↦ none | some a ↦ k a ]) ≡ some b
    → (a : A) × (o ≡ some a) × (k a ≡ some b)
some_of_elim none k b e = absurd (ground arith)
some_of_elim (some a) k b e = (a, refl, e)

criterion_keys :
    {N : Number} (criteria : List (RubricCriterion N)) (m : List (String × RubricCriterion N))
    (id : String)
    → includes
        (keys (
          foldl
            (λ entries (criterion : RubricCriterion N).
              insert criterion.criterion_id criterion entries)
            m
            criteria))
        id
      ≡ (includes (keys m) id || includes (criterion_ids criteria) id)
criterion_keys [] m id = ground arith
criterion_keys (criterion ∷ criteria) m id = ground (
  arith,
  criterion_keys criteria (insert criterion.criterion_id criterion m) id,
  includes-keys-insert criterion.criterion_id criterion m id,
)

criterion_distinct :
    {N : Number} (criteria : List (RubricCriterion N)) (m : List (String × RubricCriterion N))
    → HasDistinctKeys m
    → HasDistinctKeys (
        foldl
          (λ entries (criterion : RubricCriterion N).
            insert criterion.criterion_id criterion entries)
          m
          criteria)
criterion_distinct [] m d = d
criterion_distinct (criterion ∷ criteria) m d =
    criterion_distinct criteria _ (insert-HasDistinctKeys criterion.criterion_id criterion m d)

length-keys {ℓ} : {V : Type ℓ} (m : List (String × V)) → length (keys m) ≡ length m
length-keys [] = refl
length-keys (entry ∷ m) = ap suc (length-keys m)

-- The judged criteria are those of the rubric, each once.
pub record IsJudged {N : Number} (criteria : List (RubricCriterion N))
    (judged : List (JudgedCriterion N)) : Type 0 where
  pub each_once : is_distinct (judged_ids judged) ≡ true
  pub all_judged :
      (id : String) → includes (judged_ids judged) id ≡ includes (criterion_ids criteria) id

-- What the loop over the judgments has kept when it ends.
record Read {N : Number} (criteria : List (RubricCriterion N)) (before : List String)
    (judged : List (JudgedCriterion N)) (after : List String) : Type 0 where
  seen_all : after ≡ before ++ judged_ids judged
  distinct : is_distinct before ≡ true → is_distinct after ≡ true
  known :
      (id : String)
      → includes (judged_ids judged) id ≡ true
      → includes (keys (criterion_by_id criteria)) id ≡ true

module _ {N : Number} (l : Language N) (response : String) (max_score : N.Num)
    (criteria : List (RubricCriterion N)) where
  judge_one-seen :
      (result : JudgedCriterion N) (found : Option (RubricCriterion N)) (judging next : Judging N)
      → judge_one l response max_score criteria result found judging ≡ some next
      → (is_some found ≡ true)
        × (includes judging.seen result.criterion_id ≡ false)
        × (next.seen ≡ judging.seen ++ result.criterion_id ∷ [])
  unfolding judge_one
  judge_one-seen result none judging next e = absurd (ground arith)
  judge_one-seen result (some criterion) judging next e =
      let (b, same) = kept _ _ next e in
      let new : includes judging.seen result.criterion_id ≡ false = ground (arith, b) in
      (refl, new, sym (some-injective_at (λ (j : Judging N). j.seen) _ next same) ∙ rw new refl)

  read_judgments-Read :
      (judged : List (JudgedCriterion N)) (judging last : Judging N)
      → read_judgments l response max_score criteria judged judging ≡ some last
      → Read criteria judging.seen judged last.seen
  unfolding read_judgments
  read_judgments-Read [] judging last e = record {
    seen_all =
        sym (some-injective_at (λ (j : Judging N). j.seen) judging last e) ∙ sym (append_empty _);
    distinct = λ d. rw (sym (some-injective_at (λ (j : Judging N). j.seen) judging last e)) d;
    known = λ id h. absurd (ground arith);
  }
  read_judgments-Read (result ∷ judged) judging last e =
      let (next, one, more) =
        some_of_elim
          (judge_one l response max_score criteria result
            (lookup result.criterion_id (criterion_by_id criteria)) judging)
          (read_judgments l response max_score criteria judged) last e in
      let (found, new, seen) =
        judge_one-seen result (lookup result.criterion_id (criterion_by_id criteria)) judging next
          one in
      let rest = read_judgments-Read judged next last more in
      let listed = sym (is_some-lookup result.criterion_id (criterion_by_id criteria)) ∙ found in
      record {
        seen_all =
            rest.seen_all
            ∙ ap (λ ids. ids ++ judged_ids judged) seen
            ∙ append_assoc judging.seen (result.criterion_id ∷ []) (judged_ids judged);
        distinct =
            λ d. rest.distinct (rw seen (distinct-append judging.seen result.criterion_id d new));
        known = λ id h. elim (Bool-cases (result.criterion_id == id)) [
          | inl own ↦ rw (sym ((string_Eq.beq_iff result.criterion_id id).0 own)) listed
          | inr other ↦ rest.known id (ground (arith, h, other))
        ];
      }

  Read-IsJudged :
      (judged : List (JudgedCriterion N)) (seen : List String)
      → Read criteria [] judged seen
      → length seen ≡ length (criterion_by_id criteria)
      → IsJudged criteria judged
  unfolding criterion_by_id
  Read-IsJudged judged seen r same =
      let distinct : is_distinct (judged_ids judged) ≡ true =
        rw (sym r.seen_all) (r.distinct refl) in
      let as_long =
        ap length (sym r.seen_all) ∙ same ∙ sym (length-keys (criterion_by_id criteria)) in
      let asked = criterion_keys criteria [] in
      let all_asked =
        includes_all (judged_ids judged) (keys (criterion_by_id criteria)) distinct r.known
          as_long in
      record {
        each_once = distinct;
        all_judged = λ id. ground (arith, asked id, r.known id, all_asked id);
      }

  complete-IsJudged :
      (minimum : N.Num) (judged : List (JudgedCriterion N))
      (results : List (RubricCriterionResult N)) (found : Option (Judging N))
      → read_judgments l response max_score criteria judged
          (record { seen = []; weighted_confidence = N.integer 0; rubric_results = [] })
        ≡ found
      → (complete_judgments l response max_score criteria minimum found).rubric_results
        ≡ some results
      → IsJudged criteria judged
  unfolding complete_judgments blocked_decision
  complete-IsJudged minimum judged results none r e = absurd (ground arith)
  complete-IsJudged minimum judged results (some judging) r e =
      elim (Bool-cases (nat_eq (length judging.seen) (length (criterion_by_id criteria)))) [
        | inl same ↦
            Read-IsJudged judged judging.seen (read_judgments-Read judged _ judging r)
              (ground (arith, same))
        | inr other ↦ absurd (ground (arith, rw other at e))
      ]

  complete_judgments-IsJudged :
      (minimum : N.Num) (judged : List (JudgedCriterion N))
      (results : List (RubricCriterionResult N))
      → (grade_judged l response max_score criteria minimum (some judged)).rubric_results
        ≡ some results
      → IsJudged criteria judged
  unfolding grade_judged
  complete_judgments-IsJudged minimum judged results e =
      complete-IsJudged minimum judged results _ refl e

-- A rubric result needs a response, a judge, and a judgment of the whole rubric by it.
pub record IsJudgedBy {N : Number} (response : String) (criteria : List (RubricCriterion N))
    (contradictions : List String) (options : GradingOptions N) : Type 0 where
  pub judge : BlindRubricJudge N
  pub judged : List (JudgedCriterion N)
  pub has_response : is_blank response ≡ false
  pub has_judge : options.rubric_judge ≡ some judge
  pub is_judged :
      judge (record { response = response; criteria = criteria; contradictions = contradictions })
      ≡ some judged
  pub whole : IsJudged criteria judged

grade_judged-cases :
    {N : Number} (l : Language N) (response : String) (max_score : N.Num)
    (criteria : List (RubricCriterion N)) (minimum : N.Num)
    (given : Option (List (JudgedCriterion N))) (results : List (RubricCriterionResult N))
    → (grade_judged l response max_score criteria minimum given).rubric_results ≡ some results
    → (judged : List (JudgedCriterion N)) × (given ≡ some judged) × IsJudged criteria judged
unfolding grade_judged blocked_decision
grade_judged-cases l response max_score criteria minimum none results e = absurd (ground arith)
grade_judged-cases l response max_score criteria minimum (some judged) results e = (
  judged,
  refl,
  complete_judgments-IsJudged l response max_score criteria minimum judged results e,
)

grade_by-IsJudgedBy :
    {N : Number} (l : Language N) (response : String) (max_score minimum : N.Num)
    (criteria : List (RubricCriterion N)) (contradictions : List String)
    (options : GradingOptions N) (given : Option (BlindRubricJudge N))
    (results : List (RubricCriterionResult N))
    → is_blank response ≡ false
    → options.rubric_judge ≡ given
    → (grade_by l response max_score criteria contradictions minimum given).rubric_results
      ≡ some results
    → IsJudgedBy response criteria contradictions options
unfolding grade_by
grade_by-IsJudgedBy l response max_score minimum criteria contradictions options none results b j
      e =
    absurd (ground arith)
grade_by-IsJudgedBy l response max_score minimum criteria contradictions options (some judge)
      results b j e =
    let (judged, said, whole) =
      grade_judged-cases l response max_score criteria minimum _ results e in
    record {
      judge = judge;
      judged = judged;
      has_response = b;
      has_judge = j;
      is_judged = said;
      whole = whole;
    }

-- An answer gets rubric results only where it is not blank, a judge is there, and the judge judges
-- every criterion of the rubric, each once, and nothing else.
pub grade_rubric-IsJudgedBy :
    {N : Number} (l : Language N) (response : String) (criteria : List (RubricCriterion N))
    (contradictions : List String) (max_score : N.Num) (options : GradingOptions N)
    (results : List (RubricCriterionResult N))
    → (grade_rubric l response criteria contradictions max_score options).rubric_results
      ≡ some results
    → IsJudgedBy response criteria contradictions options
unfolding grade_rubric unanswered
grade_rubric-IsJudgedBy {N} l response criteria contradictions max_score options results e =
    elim (Bool-cases (is_blank response)) [
      | inl blank ↦ absurd (ground (arith, rw blank at e))
      | inr given ↦
          grade_by-IsJudgedBy l response max_score
            (minimum_confidence N options.minimum_rubric_confidence) criteria contradictions options
            options.rubric_judge results given refl (rw given at e)
    ]
