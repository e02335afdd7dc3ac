-- ===== src/Orchestration/Session/Input.antt =====
-- src/orchestration/interactive-session.ts: the checks of identifiers, commands and answers.
-- Parameter: `contentHash` of an answer.
use knowbalance.Prelude.{
  ℕ, String, Bool, true, false, not, ◌&&◌, Option, none, some, List, [], ◌∷◌, ◌++◌, map, filter,
  all, length, leb, nat_eq, string_Eq, nat_Eq, ◌==◌, includes, if◌then◌else◌, is_some, or_default,
}
use knowbalance.Prelude.Text.{concat, all_chars, text_length}
use knowbalance.Prelude.Dict.{lookup, keys}
use knowbalance.Prelude.Json.{Json, null, text, array, object, elements, get_field, field_of}
use knowbalance.Orchestration.Memory.{is_safe}
use knowbalance.Orchestration.Session.{
  PublicDiagnosisItem, SubmissionAnswer, GivenAnswer, CommandType, unsupported, Answers, answer_map,
  answer_list, no_answers, Command, Fallible, ok, refuse,
}

-- `/^[A-Za-z0-9_-]{1,n}$/.test(value)`
unfoldable pub is_safe_id : ℕ → String → Bool
is_safe_id n value =
    all_chars is_safe value && (leb 1 (text_length value) && leb (text_length value) n)

unfoldable pub safe_id : String → Fallible String
safe_id value =
    if is_safe_id 120 value
    then ok value
    else refuse "INVALID_ID" "session_id and run_id may only contain letters, numbers, _ and -" 400

abbrev pub is_unsupported : CommandType → Bool
is_unsupported unsupported = true
is_unsupported _ = false

unfoldable pub validate_command : Command → Fallible Command
validate_command command =
    if not (is_safe_id 120 command.command_id)
    then refuse "INVALID_COMMAND" "command_id is required and must be safe" 400
    else if is_unsupported command.type
    then refuse "INVALID_COMMAND" "Unsupported command type" 400
    else ok command

-- The `item_id` of an element of an array of answers, where it is safe.
abbrev pub safe_item_id : Option Json → Option String
safe_item_id (some (text id)) = if is_safe_id 200 id then some id else none
safe_item_id _ = none

-- The answers, or `none` where an element is malformed.
unfoldable pub read_answers : List Json → Option (List SubmissionAnswer)
read_answers [] = some []
read_answers (entry ∷ entries) = elim (safe_item_id (field_of "item_id" entry)) [
  | none ↦ none
  | some id ↦ elim (read_answers entries) [
    | none ↦ none
    | some rest ↦ some (record { item_id = id; value = entry } ∷ rest)
  ]
]

abbrev pub answers_or_refuse :
    String → Option (List SubmissionAnswer) → Fallible (List SubmissionAnswer)
answers_or_refuse command_type none =
    refuse "INVALID_COMMAND"
      (concat (command_type ∷ " requires answers array with valid item_id entries" ∷ [])) 400
answers_or_refuse command_type (some answers) = ok answers

unfoldable pub assert_submission_answers : Answers → String → Fallible (List SubmissionAnswer)
assert_submission_answers (answer_list entries) command_type =
    answers_or_refuse command_type (read_answers entries)
assert_submission_answers (answer_map entries) command_type = answers_or_refuse command_type none
assert_submission_answers no_answers command_type = answers_or_refuse command_type none

abbrev pub answer_ids : List SubmissionAnswer → List String
answer_ids answers = map (λ (answer : SubmissionAnswer). answer.item_id) answers

unfoldable pub merge_anchor_answers :
    List SubmissionAnswer → Option (List SubmissionAnswer) → List SubmissionAnswer
merge_anchor_answers submitted none = submitted
merge_anchor_answers submitted (some []) = submitted
merge_anchor_answers submitted (some (a ∷ anchors)) =
    a ∷ anchors
    ++ filter
        (λ (answer : SubmissionAnswer). not (includes (answer_ids (a ∷ anchors)) answer.item_id))
        submitted

-- `new Map(answers.map(answer => [answer.item_id, answer])).get(id)`: the last answer of an id.
unfoldable pub last_answer : List SubmissionAnswer → String → Option SubmissionAnswer
last_answer [] id = none
last_answer (answer ∷ answers) id =
    let later = last_answer answers id in
    if is_some later then later else if answer.item_id == id then some answer else none

module _ (content_hash : Json → String) where
  abbrev pub has_hash : Json → Option SubmissionAnswer → Bool
  has_hash value none = false
  has_hash value (some expected) = content_hash expected.value == content_hash value

  unfoldable pub same_anchor_answers : List SubmissionAnswer → List SubmissionAnswer → Bool
  same_anchor_answers prior current =
      nat_eq (length prior) (length current)
      && all
          (λ (answer : SubmissionAnswer). has_hash answer.value (last_answer prior answer.item_id))
          current

-- `answer[name] ?? null`
abbrev pub field_or_null : String → Json → Json
field_or_null name value = or_default (field_of name value) null

unfoldable pub given_answer : SubmissionAnswer → GivenAnswer
given_answer answer = record {
  item_id = answer.item_id;
  selected_option_id = field_or_null "selected_option_id" answer.value;
  text_response = field_or_null "text_response" answer.value;
  code_response = field_or_null "code_response" answer.value;
}

abbrev pub is_text : Option Json → Bool
is_text (some (text s)) = true
is_text _ = false

abbrev pub prefix_all : String → List String → List String
prefix_all prefix ids = map (λ id. concat (prefix ∷ id ∷ [])) ids

-- The issues of answers to a diagnosis.
unfoldable pub diagnosis_issues : List PublicDiagnosisItem → List (String × Json) → List String
diagnosis_issues items answers =
    let required = map (λ (item : PublicDiagnosisItem). item.item_id) items in
    prefix_all "missing diagnosis answer "
      (filter (λ id. not (is_text (lookup id answers))) required)
    ++ prefix_all "unknown diagnosis item "
        (filter (λ id. not (includes required id)) (keys answers))

-- The issues of answers to anchors.
unfoldable pub anchor_issues : List String → List String → List String
anchor_issues anchor_ids ids =
    prefix_all "missing anchor answer " (filter (λ id. not (includes ids id)) anchor_ids)
    ++ prefix_all "unknown anchor item " (filter (λ id. not (includes anchor_ids id)) ids)

-- `assessmentItems`
abbrev pub array_items : Option Json → Option (List Json)
array_items (some (array items)) = some (elements items)
array_items _ = none

abbrev pub payload_items : Option Json → List Json
payload_items (some (object payload)) = or_default (array_items (get_field "items" payload)) []
payload_items _ = []

unfoldable pub assessment_items : Option Json → List Json
assessment_items (some (object fields)) =
    or_default (array_items (get_field "items" fields)) (payload_items (get_field "payload" fields))
assessment_items (some (array items)) = []
assessment_items _ = []

-- Whether an item's `item_id` is among some ids.
abbrev pub has_id : List String → Option Json → Bool
has_id ids (some (text id)) = includes ids id
has_id ids _ = false

unfoldable pub items_with_ids : Option Json → List String → List Json
items_with_ids assessment ids =
    filter (λ item. has_id ids (field_of "item_id" item)) (assessment_items assessment)
