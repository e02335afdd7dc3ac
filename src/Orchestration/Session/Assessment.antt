-- ===== src/Orchestration/Session/Assessment.antt =====
-- src/orchestration/interactive-session.ts: what follows the answers to the anchors and to an
-- assessment.
use knowbalance.Prelude.{
  ◌+◌, String, Option, none, some, List, [], ◌∷◌, map, string_Eq, if◌then◌else◌, is_empty,
  or_default,
}
use knowbalance.Prelude.Text.{concat, join, show_nat}
use knowbalance.Prelude.Number.{Number}
use knowbalance.Prelude.Json.{Json, null, field_of}
use knowbalance.Orchestration.States.{Worker}
use knowbalance.Content.Policy.{Action, remediate, reinforce, advance, reprofile}
use knowbalance.Teaching.Paths.{
  LearningPathNode, FormalLearningPath, AdvancePathResult, advance_to_next_node,
}
use knowbalance.Orchestration.Session.{
  SessionStatus, Stage, EventType, assessment_answers, SubmissionAnswer, Phase, anchor_pending,
  route_locked, Route, AnchorRouting, Feedback, RoleC, SessionRecord, Command, Fallible, ok, thrown,
  ◌>>=◌, refuse, session_error,
}
use knowbalance.Orchestration.Session.Input.{
  assert_submission_answers, merge_anchor_answers, same_anchor_answers, given_answer, answer_ids,
  anchor_issues, items_with_ids,
}
use knowbalance.Orchestration.Session.Services.{
  SubmitOutcome, submit_blocked, submit_needs_review, graded, RouteOutcome, routed,
  route_needs_review, route_blocked, Services, push_event, block_session, complete_session, touch,
}
use knowbalance.Orchestration.Session.Rounds.{is_reprofile, build_next_round_context}
use knowbalance.Orchestration.Session.Diagnosis.{reset_to_diagnosis_phase}

abbrev pub action_name : Action → String
action_name remediate = "remediate"
action_name reinforce = "reinforce"
action_name advance = "advance"
action_name reprofile = "reprofile"

-- `record.assessment?.payload ?? null`
abbrev pub payload_or_null : Option Json → Json
payload_or_null none = null
payload_or_null (some assessment) = or_default (field_of "payload" assessment) null

module _ {N : Number} (s : Services N) where
  -- The feedback is stored with the items and the answers that it is about.
  unfoldable pub take_feedback :
      Feedback N → List SubmissionAnswer → SessionRecord N → SessionRecord N
  take_feedback feedback answers r =
      push_event s 0 EventType.command_received Stage.assessment
        "Role C accepted and graded assessment answers" (some Worker.tiered_evaluator)
        (record r {
          view = record r.view {
            feedback = some (record {
              feedback = feedback;
              assessment_items = payload_or_null r.view.assessment;
              your_answers = map given_answer answers;
            });
          };
        })

  -- The next round is started, to be generated in the background.
  unfoldable pub start_round :
      Feedback N → RoleC → LearningPathNode → SessionRecord N → SessionRecord N
  start_round feedback role_c node r =
      let round_no = r.view.round_no + 1 in
      let context =
        build_next_round_context feedback role_c.run_id
          (concat ("NRC-" ∷ r.view.session_id ∷ "-R" ∷ show_nat round_no ∷ [])) in
      push_event s 2 EventType.session_updated Stage.assessment
        (concat ("round " ∷ show_nat round_no ∷ " generation started in background" ∷ []))
        (some Worker.tiered_evaluator)
        (touch s 2 (record r {
          view = record r.view {
            current_path_node = some node;
            round_no = round_no;
            status = SessionStatus.running;
            current_stage = Stage.assessment;
            waiting_for = none;
          };
          private_data = record r.private_data {
            role_c_generation_attempt = 0;
            next_round_context = context;
          };
        }))

  -- The path is completed, or has no next node.
  unfoldable pub finish_path : SessionRecord N → SessionRecord N
  finish_path r = touch s 3 (
      push_event s 2 EventType.session_completed Stage.completed "formal learning path completed"
        none (complete_session (record r { view = record r.view { current_path_node = none } })))

  unfoldable pub follow_path :
      Feedback N
      → RoleC
      → AdvancePathResult
      → (next_path_node : Option LearningPathNode) → SessionRecord N
      → SessionRecord N
  follow_path feedback role_c result none r =
      finish_path (record r { view = record r.view { formal_path = some result.path } })
  follow_path feedback role_c result (some current_node) r =
      let moved = record r { view = record r.view { formal_path = some result.path } } in
      if result.path_completed
      then finish_path moved
      else start_round feedback role_c current_node moved

  unfoldable pub after_grading :
      Feedback N
      → RoleC
      → FormalLearningPath
      → List SubmissionAnswer
      → SessionRecord N
      → Fallible (SessionRecord N)
  after_grading feedback role_c path answers r =
      let taken = take_feedback feedback answers r in
      if is_reprofile feedback.action
      then reset_to_diagnosis_phase s taken
      else (let result =
            advance_to_next_node (s.now 1) path path.profile_snapshot feedback.action in
          ok (follow_path feedback role_c result result.next_path_node taken))

  unfoldable pub after_submission :
      SubmitOutcome N
      → RoleC
      → FormalLearningPath
      → List SubmissionAnswer
      → SessionRecord N
      → Fallible (SessionRecord N)
  after_submission (submit_blocked code message) role_c path answers r =
      ok (block_session s 0 (concat (code ∷ ": " ∷ message ∷ [])) (some Worker.tiered_evaluator) r)
  after_submission (submit_needs_review ids) role_c path answers r = ok (
      block_session s 0 (concat ("assessment requires review: " ∷ join "," ids ∷ []))
        (some Worker.tiered_evaluator) r)
  after_submission (graded feedback) role_c path answers r =
      after_grading feedback role_c path answers r

  submission_id : SessionRecord N → (infix_part command_id : String) → String
  submission_id r infix_part command_id =
      concat (
        "SUB-" ∷ r.view.session_id ∷ "-R" ∷ show_nat r.view.round_no ∷ infix_part ∷ command_id ∷ [])

  unfoldable pub submit_answers :
      (command_id : String)
      → List SubmissionAnswer
      → Option RoleC
      → Option Json
      → Option FormalLearningPath
      → Option LearningPathNode
      → SessionRecord N
      → Fallible (SessionRecord N)
  unfolding submission_id
  submit_answers command_id answers (some role_c) (some assessment) (some path) (some current_node)
        r =
      do
        outcome ← s.submit (record {
          role_c = role_c;
          submission_id = submission_id r "-" command_id;
          answers = merge_anchor_answers answers r.private_data.anchor_answers;
        })
        after_submission outcome role_c path answers r
  submit_answers command_id answers role_c assessment path current_node r =
      refuse "SESSION_ARTIFACT_MISSING" "Assessment session is missing trusted Role C identities"
        409

  unfoldable pub continue_after_assessment : SessionRecord N → Command → Fallible (SessionRecord N)
  continue_after_assessment r command = do
    answers ← assert_submission_answers command.answers "submit_assessment_answers"
    submit_answers command.command_id answers r.private_data.role_c r.view.assessment
        r.view.formal_path r.view.current_path_node r

  -- The route is locked, and the items that it requires are asked.
  unfoldable pub lock_route :
      AnchorRouting N → Route N → List SubmissionAnswer → SessionRecord N → SessionRecord N
  lock_route routing route answers r = touch s 1 (
      push_event s 0 EventType.session_updated Stage.assessment
        (concat (
          "anchor route locked ("
          ∷ action_name route.action
          ∷ ", ratio "
          ∷ s.show_num route.anchor_score_ratio
          ∷ ")"
          ∷ []))
        none
        (record r {
          view = record r.view {
            anchor_routing = some (record routing { phase = route_locked; route = some route });
            waiting_for =
                some
                  (assessment_answers (items_with_ids r.view.assessment route.required_item_ids));
          };
          private_data = record r.private_data { anchor_answers = some answers };
        }))

  unfoldable pub after_routing :
      RouteOutcome N → AnchorRouting N → List SubmissionAnswer → SessionRecord N → SessionRecord N
  after_routing (route_needs_review ids) routing answers r =
      block_session s 0 (concat ("anchor assessment requires review: " ∷ join "," ids ∷ [])) none r
  after_routing (route_blocked issues) routing answers r =
      block_session s 0 (concat ("anchor routing blocked: " ∷ join "；" issues ∷ [])) none r
  after_routing (routed route) routing answers r = lock_route routing route answers r

  unfoldable pub replay_anchors :
      Option (List SubmissionAnswer)
      → List SubmissionAnswer
      → SessionRecord N
      → Fallible (SessionRecord N)
  replay_anchors none answers r =
      refuse "ANCHOR_ANSWERS_CHANGED" "Anchor routing is already locked with different answers" 409
  replay_anchors (some prior) answers r =
      if same_anchor_answers s.content_hash prior answers
      then ok r
      else refuse "ANCHOR_ANSWERS_CHANGED" "Anchor routing is already locked with different answers"
          409

  unfoldable pub answer_anchors :
      (command_id : String)
      → RoleC
      → AnchorRouting N
      → Phase
      → List SubmissionAnswer
      → SessionRecord N
      → Fallible (SessionRecord N)
  unfolding submission_id
  answer_anchors command_id role_c routing route_locked answers r =
      replay_anchors r.private_data.anchor_answers answers r
  answer_anchors command_id role_c routing anchor_pending answers r =
      let issues = anchor_issues routing.anchor_item_ids (answer_ids answers) in
      if is_empty issues
      then s.route routing.routing_request_id (record {
        role_c = role_c;
        submission_id = submission_id r "-ANCHOR-" command_id;
        answers = answers;
      })
        >>= (λ outcome. ok (after_routing outcome routing answers r))
      else thrown (
          session_error "INVALID_ANCHOR_ANSWERS" "Anchor answers do not match the requested items"
            400 issues)

  unfoldable pub route_answers :
      (command_id : String)
      → Option RoleC
      → Option (AnchorRouting N)
      → List SubmissionAnswer
      → SessionRecord N
      → Fallible (SessionRecord N)
  route_answers command_id (some role_c) (some routing) answers r =
      answer_anchors command_id role_c routing routing.phase answers r
  route_answers command_id role_c routing answers r =
      refuse "SESSION_ARTIFACT_MISSING" "Anchor routing is missing" 409

  unfoldable pub continue_after_anchor_answers :
      SessionRecord N → Command → Fallible (SessionRecord N)
  continue_after_anchor_answers r command = do
    answers ← assert_submission_answers command.answers "submit_anchor_answers"
    route_answers command.command_id r.private_data.role_c r.view.anchor_routing answers r
