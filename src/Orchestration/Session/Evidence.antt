-- ===== src/Orchestration/Session/Evidence.antt =====
-- src/orchestration/interactive-session.ts: the evidence that the answers to a diagnosis give.
use knowbalance.Prelude.{
  String, Bool, Option, none, some, List, [], ◌∷◌, map, string_Eq, ◌==◌, if◌then◌else◌, or_default,
  includes,
}
use knowbalance.Prelude.Number.{Number}
use knowbalance.Prelude.Dict.{lookup}
use knowbalance.Prelude.Json.{Json, null, text, array, object, elements_of, fields_of, delete_field}
use knowbalance.Orchestration.Types.{LearnerRequest, given, Upstream, artifacts}
use knowbalance.Orchestration.Session.{PublicDiagnosisItem}
use knowbalance.Orchestration.Session.Diagnosis.{learner_of}

abbrev pub text_or_null : Option String → Json
text_or_null none = null
text_or_null (some s) = text s

-- A value that is one of the four difficulties, or null.
unfoldable pub normalize_difficulty : Option String → Option String
normalize_difficulty none = none
normalize_difficulty (some value) =
    if includes ("beginner" ∷ "basic" ∷ "intermediate" ∷ "integrated" ∷ []) value
    then some value
    else none

abbrev quote_of : String → String → Json
quote_of name value = object (fields_of (("field", text name) ∷ ("text", text value) ∷ []))

-- A quote of a text that is not empty.
abbrev quotes_of : String → Option String → Json
quotes_of name none = array (elements_of [])
quotes_of name (some value) =
    array (elements_of (if value == "" then [] else quote_of name value ∷ []))

unfoldable pub background_evidence : LearnerRequest → (session_id : String) → Json
background_evidence request session_id = object (
    fields_of (
      ("evidence_type", text "background")
      ∷ ("learner_id", text (learner_of request session_id))
      ∷ ("education_context", text_or_null request.background)
      ∷ ("prior_languages", array (elements_of []))
      ∷ ("prior_topics", array (elements_of []))
      ∷ ("goal_raw", text request.goal)
      ∷ ("time_budget", null)
      ∷ ("quotes", quotes_of "education_context" request.background)
      ∷ []))

unfoldable pub self_assessment_evidence : LearnerRequest → Json
self_assessment_evidence request = object (
    fields_of (
      ("evidence_type", text "self_assessment")
      ∷ ("self_rating", text_or_null (normalize_difficulty request.self_rating))
      ∷ ("claimed_known", array (elements_of []))
      ∷ ("claimed_weak", array (elements_of []))
      ∷ ("quotes", quotes_of "self_rating" request.self_rating)
      ∷ []))

-- `answers[id]!` as a text, after the check that it is one.
abbrev pub answer_text : Option Json → String
answer_text (some (text s)) = s
answer_text _ = ""

module _ (normalize_answer : String → String) (answer_key : List (String × String))
    (answers : List (String × Json)) where
  unfoldable pub is_correct : PublicDiagnosisItem → Bool
  is_correct item =
      normalize_answer (answer_text (lookup item.item_id answers))
      == normalize_answer (or_default (lookup item.item_id answer_key) "")

  unfoldable pub judged_item : PublicDiagnosisItem → Json
  judged_item item = object (
      fields_of (
        ("source_id", text item.source_id)
        ∷ ("fact_id", text_or_null item.fact_id)
        ∷ ("question", text item.question)
        ∷ ("learner_answer", text (answer_text (lookup item.item_id answers)))
        ∷ ("verdict", text (if is_correct item then "correct" else "incorrect"))
        ∷ ("concept", text item.concept)
        ∷ ("difficulty", text (or_default (normalize_difficulty (some item.difficulty)) "beginner"))
        ∷ []))

  unfoldable pub objective_evidence : List PublicDiagnosisItem → Json
  objective_evidence items = object (
      fields_of (
        ("evidence_type", text "objective_diagnosis")
        ∷ ("items", array (elements_of (map judged_item items)))
        ∷ (
          "quotes",
          array (
              elements_of (
                map
                  (λ (item : PublicDiagnosisItem).
                    quote_of item.source_id (answer_text (lookup item.item_id answers)))
                  items)),
        )
        ∷ []))

abbrev pub public_item : PublicDiagnosisItem → Json
public_item item = object (
    fields_of (
      ("item_id", text item.item_id)
      ∷ ("source_id", text item.source_id)
      ∷ ("fact_id", text_or_null item.fact_id)
      ∷ ("concept", text item.concept)
      ∷ ("difficulty", text item.difficulty)
      ∷ ("question", text item.question)
      ∷ elim item.options [
        | none ↦ []
        | some options ↦ ("options", array (elements_of (map text options))) ∷ []
      ]))

module _ {N : Number} where
  -- `delete artifacts[name]` where the artifacts are an object.
  abbrev without_field : String → Upstream N Json → Upstream N Json
  without_field name (artifacts (given (object fields))) =
      artifacts (given (object (delete_field name fields)))
  without_field name upstream = upstream

  unfoldable pub public_upstream_artifacts :
      List (String × Upstream N Json) → List (String × Upstream N Json)
  public_upstream_artifacts [] = []
  public_upstream_artifacts ((name, upstream) ∷ entries) =
      (
        name,
        if name == "code-lab"
            then without_field "code_lab_secure" upstream
            else if name == "tiered-evaluator"
            then without_field "assessment_secure" upstream
            else upstream,
      )
      ∷ public_upstream_artifacts entries
