-- ===== src/Orchestration/Session/Rounds.antt =====
-- src/orchestration/interactive-session.ts: the generation of a round of content by role C.
use knowbalance.Prelude.{
  ℕ, ◌+◌, String, Bool, true, false, ◌&&◌, Option, none, some, List, [], ◌∷◌, map, filter, find,
  string_Eq, ◌==◌, includes, unique, if◌then◌else◌, is_empty, or_default, head?,
}
use knowbalance.Prelude.Text.{concat, show_nat}
use knowbalance.Prelude.Number.{Number}
use knowbalance.Prelude.Json.{Json}
use knowbalance.Content.Policy.{Action, remediate, reinforce, advance, reprofile}
use knowbalance.Teaching.Progress.{LearnerProfile}
use knowbalance.Teaching.Recovery.{flat_map}
use knowbalance.Teaching.Paths.{LearningPathNode, LearningObjective}
use knowbalance.Orchestration.Session.{
  SessionStatus, Stage, anchor_answers, assessment_answers, anchor_pending, AnchorRouting,
  ObjectiveRoundResult, Feedback, NextRoundContext, RagResultItem, RagResult, PublicView,
  SessionRecord, Fallible, ok, thrown, ◌>>=◌, other_error,
}
use knowbalance.Orchestration.Session.Services.{
  GenerateOutcome, not_ready, ready, LearningSession, Services,
}
use knowbalance.Orchestration.Session.Input.{assessment_items, items_with_ids}

-- `${baseRunId}-R${roundNo}-C${generationAttempt + 1}`
unfoldable pub role_c_round_run_id : (base_run_id : String) → (round_no attempt : ℕ) → String
role_c_round_run_id base_run_id round_no attempt =
    concat (base_run_id ∷ "-R" ∷ show_nat round_no ∷ "-C" ∷ show_nat (attempt + 1) ∷ [])

-- An objective without required facts gets the first fact of its source.
abbrev pub first_fact : Option RagResultItem → List String
first_fact none = []
first_fact (some source) = elim (head? source.fact_ids) [
  | none ↦ []
  | some none ↦ []
  | some (some id) ↦ id ∷ []
]

unfoldable pub bind_objective : List RagResultItem → LearningObjective → LearningObjective
bind_objective results objective =
    if is_empty objective.required_fact_ids
    then record objective {
      required_fact_ids =
          first_fact
            (find (λ (item : RagResultItem). item.source_id == objective.source_id) results);
    }
    else objective

unfoldable pub bind_path_node_facts : LearningPathNode → List RagResultItem → LearningPathNode
bind_path_node_facts node results = record node {
  objectives = map (bind_objective results) node.objectives;
}

-- `tags.length > 0 ? { misconception_tags: tags } : {}`
abbrev pub tags_or_none : List String → Option (List String)
tags_or_none [] = none
tags_or_none (tag ∷ tags) = some (tag ∷ tags)

abbrev pub is_reprofile : Action → Bool
is_reprofile reprofile = true
is_reprofile _ = false

module _ {N : Number} where
  -- The objectives of the next round: those below 0.4, those from 0.4 to below 0.8, or all.
  unfoldable pub focus_objectives_for_next_round :
      List (ObjectiveRoundResult N) → Action → List String
  focus_objectives_for_next_round results action =
      map (λ (result : ObjectiveRoundResult N). result.objective_id)
        (elim action [
          | remediate ↦
              filter (λ (result : ObjectiveRoundResult N). N.lt result.accuracy (N.hundredths 40))
                results
          | reinforce ↦
              filter
                (λ (result : ObjectiveRoundResult N).
                  N.le (N.hundredths 40) result.accuracy && N.lt result.accuracy (N.hundredths 80))
                results
          | advance ↦ results
          | reprofile ↦ results
        ])

  abbrev pub misconception_tags_of : List (ObjectiveRoundResult N) → List String → List String
  misconception_tags_of results focus = unique (
      flat_map (λ (result : ObjectiveRoundResult N). result.misconception_tags)
        (filter (λ (result : ObjectiveRoundResult N). includes focus result.objective_id) results))

  context_of : Feedback N → (parent_spec_id request_id : String) → NextRoundContext
  context_of feedback parent_spec_id request_id =
      let focus = focus_objectives_for_next_round feedback.objective_results feedback.action in
      record {
        request_id = request_id;
        parent_spec_id = parent_spec_id;
        prior_feedback_ref = feedback.feedback_id;
        trigger_grade_artifact_id = feedback.grade_artifact_id;
        action = feedback.action;
        focus_objective_ids = focus;
        reason_codes = feedback.reason_codes;
        misconception_tags =
            tags_or_none (
              if is_empty focus
              then []
              else misconception_tags_of feedback.objective_results focus);
      }

  unfoldable pub build_next_round_context :
      Feedback N → (parent_spec_id request_id : String) → Option NextRoundContext
  unfolding context_of
  build_next_round_context feedback parent_spec_id request_id =
      if is_reprofile feedback.action
      then none
      else some (context_of feedback parent_spec_id request_id)

-- What `generateFormalRoleCRound` returns.
pub record FormalRound : Type 0 where
  pub run_id : String
  pub learning_session : LearningSession
  pub concept_lesson : Option Json
  pub code_lab : Option Json
  pub assessment : Option Json
  pub rag_result : RagResult
  pub adaptation : Option Json

pub data FormalRoundResult : Type 0 where
  round_ready : FormalRound → FormalRoundResult
  round_refused : (reason : String) → FormalRoundResult

-- A string that a test takes for true.
abbrev pub truthy : Option String → Option String
truthy none = none
truthy (some s) = if s == "" then none else some s

-- The handoff of a learning session, whose anchors are kept only with a routing request.
unfoldable pub handoff : LearningSession → LearningSession
handoff session = elim (truthy session.routing_request_id) [
  | none ↦ record session { routing_request_id = none; anchor_item_ids = none }
  | some id ↦ record session {
    routing_request_id = some id;
    anchor_item_ids = some (or_default session.anchor_item_ids []);
  }
]

unfoldable pub round_of_outcome : RagResult → GenerateOutcome → FormalRoundResult
round_of_outcome rag_result (not_ready reason) = round_refused reason
round_of_outcome rag_result (ready run_id session none) =
    round_refused "Role C ready result omitted reviewed public release"
round_of_outcome rag_result (ready run_id session (some release)) = round_ready (record {
  run_id = run_id;
  learning_session = handoff session;
  concept_lesson = release.concept_lesson;
  code_lab = release.code_lab;
  assessment = release.assessment;
  rag_result = rag_result;
  adaptation = release.adaptation;
})

-- The anchors that a round asks for first, where it has some.
abbrev pub anchors_of : LearningSession → Option (String × List String)
anchors_of session = elim (truthy session.routing_request_id) [
  | none ↦ none
  | some id ↦ elim (or_default session.anchor_item_ids []) [
    | [] ↦ none
    | anchor ∷ anchors ↦ some (id, anchor ∷ anchors)
  ]
]

module _ {N : Number} where
  abbrev pub pending_routing : String → List String → AnchorRouting N
  pending_routing id anchors = record {
    phase = anchor_pending;
    routing_request_id = id;
    anchor_item_ids = anchors;
    route = none;
  }

  -- The routing and the waiting of a new round.
  unfoldable pub ask_anchors :
      Option (String × List String) → Option Json → PublicView N → PublicView N
  ask_anchors none assessment v = record v {
    anchor_routing = none;
    waiting_for = some (assessment_answers (assessment_items assessment));
  }
  ask_anchors (some (id, anchors)) assessment v = record v {
    anchor_routing = some (pending_routing id anchors);
    waiting_for = some (anchor_answers (items_with_ids assessment anchors));
  }

  unfoldable pub set_round :
      Option (String × List String)
      → LearnerProfile
      → FormalRound
      → SessionRecord N
      → SessionRecord N
  set_round anchors profile round r = record r {
    view = ask_anchors anchors round.assessment (record r.view {
      rag_result = some round.rag_result;
      learning_resources = record {
        concept_lesson = round.concept_lesson;
        code_lab = round.code_lab;
      };
      assessment = round.assessment;
      adaptation = round.adaptation;
      status = SessionStatus.waiting_for_user;
      current_stage = Stage.assessment;
    });
    private_data = record r.private_data {
      anchor_answers = none;
      role_c = some (record {
        data_directory = "role-c";
        session_id = round.learning_session.session_id;
        run_id = round.run_id;
        learner_id = profile.learner_id;
        form_id = round.learning_session.form_id;
        attempt_no = round.learning_session.attempt_no;
      });
    };
  }

  -- A session without a profile makes it fail with a TypeError.
  unfoldable pub apply_for_profile :
      Option LearnerProfile → FormalRound → SessionRecord N → Fallible (SessionRecord N)
  apply_for_profile none round r =
      thrown (other_error "null is not an object (evaluating 'record.profile.learner_id')")
  apply_for_profile (some profile) round r =
      ok (set_round (anchors_of round.learning_session) profile round r)

  unfoldable pub apply_formal_role_c_round :
      FormalRound → SessionRecord N → Fallible (SessionRecord N)
  apply_formal_role_c_round round r = apply_for_profile r.view.profile round r

  unfoldable pub generate_formal_role_c_round :
      Services N
      → SessionRecord N
      → LearningPathNode
      → Option NextRoundContext
      → Fallible FormalRoundResult
  generate_formal_role_c_round s r node context = elim r.view.rag_result [
    | none ↦ ok (round_refused "A RAG result is missing for Role C generation")
    | some rag_result ↦ do
      kb_version ← s.kb_version
      outcome ← s.generate (record {
        profile = r.view.profile;
        rag_result = rag_result;
        kb_version = kb_version;
        run_id =
            role_c_round_run_id r.view.run_id r.view.round_no
              r.private_data.role_c_generation_attempt;
        path_node = bind_path_node_facts node rag_result.results;
        next_round_context = context;
      })
      ok (round_of_outcome rag_result outcome)
  ]
