-- ===== src/Orchestration/Session/Assessed.antt =====
-- What follows the answers to anchors and to an assessment leads to a session that is consistent.
use knowbalance.Prelude.{
  ◌≡◌, refl, String, true, false, Option, none, some, List, Bool-cases, is_empty, arith, inl, inr,
}
use knowbalance.Prelude.Number.{Number}
use knowbalance.Prelude.Json.{Json}
use knowbalance.Orchestration.States.{Worker}
use knowbalance.Teaching.Paths.{LearningPathNode, FormalLearningPath, AdvancePathResult}
use knowbalance.Orchestration.Session.{
  SessionStatus, Stage, EventType, SubmissionAnswer, Phase, anchor_pending, route_locked, Route,
  AnchorRouting, Feedback, RoleC, SessionRecord, Command,
}
use knowbalance.Orchestration.Session.Input.{
  assert_submission_answers, anchor_issues, answer_ids, same_anchor_answers,
}
use knowbalance.Orchestration.Session.Services.{
  Services, SubmitOutcome, submit_blocked, submit_needs_review, graded, RouteOutcome, routed,
  route_needs_review, route_blocked, push_event, complete_session,
}
use knowbalance.Orchestration.Session.Rounds.{is_reprofile, build_next_round_context}
use knowbalance.Orchestration.Session.Diagnosis.{learner_of, reset_to_diagnosis_phase}
use knowbalance.Orchestration.Session.Assessment.{
  take_feedback, start_round, finish_path, follow_path, after_grading, after_submission,
  submit_answers, continue_after_assessment, lock_route, after_routing, replay_anchors,
  answer_anchors, route_answers, continue_after_anchor_answers,
}
use knowbalance.Orchestration.Session.Commands.{is_pending_phase}
use knowbalance.Orchestration.Session.Consistency.{
  Holds, Holds-bind, Same, Follows, Same-refl, block_session-Follows, push_event-Follows,
  touch-Follows, is_consistent, is_assessment_stage, is_pending_routing,
}

module _ {N : Number} (s : Services N) where
  reset-Follows :
      (r t : SessionRecord N) → Same r t → Holds (Follows r) (reset_to_diagnosis_phase s t)
  unfolding reset_to_diagnosis_phase
  reset-Follows r t h =
      Holds-bind (Follows r)
        (s.select_diagnosis t.learner_request (learner_of t.learner_request t.view.session_id)) _
        (λ items.
          push_event-Follows s 2 EventType.session_updated Stage.objective_diagnosis _ none r _
            (record {
              consistent = refl;
              moved = λ e. absurd (ground (arith, e));
              same = record {
                session_id = h.session_id;
                owner_id = h.owner_id;
                processed = h.processed;
              };
            }))

  finish_path-Follows : (r t : SessionRecord N) → Same r t → Follows r (finish_path s t)
  unfolding finish_path complete_session
  finish_path-Follows r t h = touch-Follows s 3 r _ (
      push_event-Follows s 2 EventType.session_completed Stage.completed _ none r _ (record {
        consistent = refl;
        moved = λ e. absurd (ground (arith, e));
        same = record { session_id = h.session_id; owner_id = h.owner_id; processed = h.processed };
      }))

  start_round-Follows :
      (feedback : Feedback N) (role_c : RoleC) (node : LearningPathNode) (r t : SessionRecord N)
      → is_reprofile feedback.action ≡ false
      → t.view.round_no ≡ r.view.round_no
      → Same r t
      → Follows r (start_round s feedback role_c node t)
  unfolding start_round build_next_round_context
  start_round-Follows feedback role_c node r t e n h =
      push_event-Follows s 2 EventType.session_updated Stage.assessment _
        (some Worker.tiered_evaluator) r _
        (record {
          consistent = ground (arith, e);
          moved = λ _. ground (arith, n);
          same = record {
            session_id = h.session_id;
            owner_id = h.owner_id;
            processed = h.processed;
          };
        })

  follow_path-Follows :
      (feedback : Feedback N) (role_c : RoleC) (result : AdvancePathResult)
      (next : Option LearningPathNode) (r t : SessionRecord N)
      → is_reprofile feedback.action ≡ false
      → t.view.round_no ≡ r.view.round_no
      → Same r t
      → Follows r (follow_path s feedback role_c result next t)
  unfolding follow_path
  follow_path-Follows feedback role_c result none r t e n h =
      finish_path-Follows r _
        (record { session_id = h.session_id; owner_id = h.owner_id; processed = h.processed })
  follow_path-Follows feedback role_c result (some node) r t e n h =
      elim (Bool-cases result.path_completed) [
        | inl over ↦ rw over (
            finish_path-Follows r _ (record {
              session_id = h.session_id;
              owner_id = h.owner_id;
              processed = h.processed;
            }))
        | inr more ↦ rw more (
            start_round-Follows feedback role_c node r _ e n (record {
              session_id = h.session_id;
              owner_id = h.owner_id;
              processed = h.processed;
            }))
      ]

  take_feedback-Same :
      (feedback : Feedback N) (answers : List SubmissionAnswer) (r : SessionRecord N)
      → Same r (take_feedback s feedback answers r)
  unfolding take_feedback push_event
  take_feedback-Same feedback answers r = record {
    session_id = refl;
    owner_id = refl;
    processed = refl;
  }

  take_feedback-round :
      (feedback : Feedback N) (answers : List SubmissionAnswer) (r : SessionRecord N)
      → (take_feedback s feedback answers r).view.round_no ≡ r.view.round_no
  unfolding take_feedback push_event
  take_feedback-round feedback answers r = refl

  after_grading-Follows :
      (feedback : Feedback N) (role_c : RoleC) (path : FormalLearningPath)
      (answers : List SubmissionAnswer) (r : SessionRecord N)
      → Holds (Follows r) (after_grading s feedback role_c path answers r)
  unfolding after_grading
  after_grading-Follows feedback role_c path answers r =
      let same = take_feedback-Same feedback answers r in
      elim (Bool-cases (is_reprofile feedback.action)) [
        | inl e ↦ rw e (reset-Follows r _ same)
        | inr e ↦ rw e (
            follow_path-Follows feedback role_c _ _ r (take_feedback s feedback answers r) e
              (take_feedback-round feedback answers r) same)
      ]

  after_submission-Follows :
      (outcome : SubmitOutcome N) (role_c : RoleC) (path : FormalLearningPath)
      (answers : List SubmissionAnswer) (r : SessionRecord N)
      → Holds (Follows r) (after_submission s outcome role_c path answers r)
  unfolding after_submission
  after_submission-Follows (submit_blocked code message) role_c path answers r =
      block_session-Follows s 0 _ (some Worker.tiered_evaluator) r r (Same-refl r)
  after_submission-Follows (submit_needs_review ids) role_c path answers r =
      block_session-Follows s 0 _ (some Worker.tiered_evaluator) r r (Same-refl r)
  after_submission-Follows (graded feedback) role_c path answers r =
      after_grading-Follows feedback role_c path answers r

  submit_answers-Follows :
      (id : String) (answers : List SubmissionAnswer) (role_c : Option RoleC)
      (assessment : Option Json) (path : Option FormalLearningPath) (node : Option LearningPathNode)
      (r : SessionRecord N)
      → Holds (Follows r) (submit_answers s id answers role_c assessment path node r)
  unfolding submit_answers
  submit_answers-Follows id answers none assessment path current_node r = tt
  submit_answers-Follows id answers (some c) none path current_node r = tt
  submit_answers-Follows id answers (some c) (some a) none current_node r = tt
  submit_answers-Follows id answers (some c) (some a) (some p) none r = tt
  submit_answers-Follows id answers (some c) (some a) (some p) (some n) r =
      Holds-bind (Follows r) (s.submit _) _
        (λ outcome. after_submission-Follows outcome c p answers r)

  -- The answers to an assessment lead to a consistent session, or are refused.
  pub continue_after_assessment-Follows :
      (r : SessionRecord N) (command : Command)
      → Holds (Follows r) (continue_after_assessment s r command)
  unfolding continue_after_assessment
  continue_after_assessment-Follows r command =
      Holds-bind (Follows r) (assert_submission_answers command.answers "submit_assessment_answers")
        _
        (λ answers.
          submit_answers-Follows command.command_id answers r.private_data.role_c r.view.assessment
            r.view.formal_path r.view.current_path_node r)

  lock_route-Follows :
      (routing : AnchorRouting N) (route : Route N) (answers : List SubmissionAnswer)
      (r : SessionRecord N)
      → r.view.status ≡ SessionStatus.waiting_for_user
      → is_assessment_stage r.view.current_stage ≡ true
      → Follows r (lock_route s routing route answers r)
  unfolding lock_route
  lock_route-Follows routing route answers r w h = touch-Follows s 1 r _ (
      push_event-Follows s 0 EventType.session_updated Stage.assessment _ none r _ (record {
        consistent = ground (arith, w, h);
        moved = λ e. absurd (ground (arith, w, e));
        same = record { session_id = refl; owner_id = refl; processed = refl };
      }))

  after_routing-Follows :
      (outcome : RouteOutcome N) (routing : AnchorRouting N) (answers : List SubmissionAnswer)
      (r : SessionRecord N)
      → r.view.status ≡ SessionStatus.waiting_for_user
      → is_assessment_stage r.view.current_stage ≡ true
      → Follows r (after_routing s outcome routing answers r)
  unfolding after_routing
  after_routing-Follows (route_needs_review ids) routing answers r w h =
      block_session-Follows s 0 _ none r r (Same-refl r)
  after_routing-Follows (route_blocked issues) routing answers r w h =
      block_session-Follows s 0 _ none r r (Same-refl r)
  after_routing-Follows (routed route) routing answers r w h =
      lock_route-Follows routing route answers r w h

  replay_anchors-Follows :
      (prior : Option (List SubmissionAnswer)) (answers : List SubmissionAnswer)
      (r : SessionRecord N)
      → is_consistent r ≡ true
      → r.view.status ≡ SessionStatus.waiting_for_user
      → Holds (Follows r) (replay_anchors s prior answers r)
  unfolding replay_anchors
  replay_anchors-Follows none answers r h w = tt
  replay_anchors-Follows (some prior) answers r h w =
      elim (Bool-cases (same_anchor_answers s.content_hash prior answers)) [
        | inl e ↦ rw e (record {
          consistent = h;
          same = Same-refl r;
          moved = λ k. absurd (ground (arith, w, k));
        })
        | inr e ↦ rw e tt
      ]

  answer_anchors-Follows :
      (phase : Phase) (id : String) (role_c : RoleC) (routing : AnchorRouting N)
      (answers : List SubmissionAnswer) (r : SessionRecord N)
      → is_consistent r ≡ true
      → r.view.status ≡ SessionStatus.waiting_for_user
      → (is_pending_phase phase ≡ true → is_assessment_stage r.view.current_stage ≡ true)
      → Holds (Follows r) (answer_anchors s id role_c routing phase answers r)
  unfolding answer_anchors
  answer_anchors-Follows route_locked id role_c routing answers r h w f =
      replay_anchors-Follows r.private_data.anchor_answers answers r h w
  answer_anchors-Follows anchor_pending id role_c routing answers r h w f =
      elim (Bool-cases (is_empty (anchor_issues routing.anchor_item_ids (answer_ids answers)))) [
        | inr e ↦ rw e tt
        | inl e ↦ rw e (
            Holds-bind (Follows r) (s.route routing.routing_request_id _) _
              (λ outcome. after_routing-Follows outcome routing answers r w (f refl)))
      ]

  route_answers-Follows :
      (id : String) (role_c : Option RoleC) (routing : Option (AnchorRouting N))
      (answers : List SubmissionAnswer) (r : SessionRecord N)
      → is_consistent r ≡ true
      → r.view.status ≡ SessionStatus.waiting_for_user
      → (is_pending_routing routing ≡ true → is_assessment_stage r.view.current_stage ≡ true)
      → Holds (Follows r) (route_answers s id role_c routing answers r)
  unfolding route_answers
  route_answers-Follows id none routing answers r h w f = tt
  route_answers-Follows id (some role_c) none answers r h w f = tt
  route_answers-Follows id (some role_c) (some routing) answers r h w f =
      answer_anchors-Follows routing.phase id role_c routing answers r h w f

  -- The answers to anchors, where they are allowed, lead to a consistent session, or are refused.
  pub continue_after_anchor_answers-Follows :
      (r : SessionRecord N) (command : Command)
      → is_consistent r ≡ true
      → r.view.status ≡ SessionStatus.waiting_for_user
      → (is_pending_routing r.view.anchor_routing ≡ true
          → is_assessment_stage r.view.current_stage ≡ true)
      → Holds (Follows r) (continue_after_anchor_answers s r command)
  unfolding continue_after_anchor_answers
  continue_after_anchor_answers-Follows r command h w f =
      Holds-bind (Follows r) (assert_submission_answers command.answers "submit_anchor_answers") _
        (λ answers.
          route_answers-Follows command.command_id r.private_data.role_c r.view.anchor_routing
            answers r h w f)
