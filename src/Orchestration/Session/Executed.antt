-- ===== src/Orchestration/Session/Executed.antt =====
-- What a command does to the store of sessions.
use knowbalance.Prelude.{
  ◌≡◌, refl, String, true, ◌&&◌, ◌||◌, Option, none, some, List, Bool-cases, is_some, arith, inl,
  inr, string_Eq,
}
use knowbalance.Prelude.Number.{Number}
use knowbalance.Prelude.Json.{Json}
use knowbalance.Teaching.Paths.{LearningPathNode, FormalLearningPath}
use knowbalance.Orchestration.Session.{
  Stage, EventType, AnchorRouting, SessionRecord, CommandType, submit_diagnosis_answers,
  submit_anchor_answers, submit_assessment_answers, retry, unsupported, Command, answer_map,
}
use knowbalance.Orchestration.Session.Services.{Services, complete_session, touch}
use knowbalance.Orchestration.Session.Rounds.{
  FormalRoundResult, round_ready, round_refused, apply_formal_role_c_round,
  generate_formal_role_c_round,
}
use knowbalance.Orchestration.Session.FirstRound.{reviewed_role_c_workers, continue_after_diagnosis}
use knowbalance.Orchestration.Session.Continued.{continue_after_diagnosis-Follows}
use knowbalance.Orchestration.Session.Assessed.{
  continue_after_assessment-Follows, continue_after_anchor_answers-Follows,
}
use knowbalance.Orchestration.Session.Commands.{
  is_waiting, is_stopped, asks_diagnosis, asks_anchors, asks_assessment, is_locked, decided_advance,
  restored_waiting, block_retry, count_attempt, apply_retried, apply_first_retried,
  retry_generation, restore_assessment, retry_from_answers, retry_first_round, retry_plan,
  retry_interactive_session, has_assessment, dispatch, not_allowed,
}
use knowbalance.Orchestration.Session.Consistency.{
  Holds, Holds-bind, Holds-bind_of, Holds-map, Same, Follows, Same-Follows, block_session-Follows,
  apply_formal_role_c_round-Follows, push_event-Follows, touch-Follows, mark_reviewed-Follows,
  is_consistent, is_asking, is_pending_routing,
}

module _ {N : Number} (s : Services N) where
  block_retry-Follows :
      (reason : String) (r t : SessionRecord N) → Same r t → Follows r (block_retry s reason t)
  unfolding block_retry
  block_retry-Follows reason r t h =
      block_session-Follows s 0 reason none r _
        (record { session_id = h.session_id; owner_id = h.owner_id; processed = h.processed })

  apply_retried-Follows :
      (result : FormalRoundResult) (r t : SessionRecord N)
      → Same r t
      → Holds (Follows r) (apply_retried s result t)
  unfolding apply_retried
  apply_retried-Follows (round_refused reason) r t h = block_retry-Follows reason r t h
  apply_retried-Follows (round_ready round) r t h =
      Holds-bind_of (Follows r) (Follows r) (apply_formal_role_c_round round t) _
        (apply_formal_role_c_round-Follows round r t h) (λ applied k. touch-Follows s 0 r applied k)

  apply_first_retried-Follows :
      (result : FormalRoundResult) (r t : SessionRecord N)
      → Same r t
      → Holds (Follows r) (apply_first_retried s result t)
  unfolding apply_first_retried
  apply_first_retried-Follows (round_refused reason) r t h = block_retry-Follows reason r t h
  apply_first_retried-Follows (round_ready round) r t h =
      Holds-bind_of (Follows r) (Follows r) (apply_formal_role_c_round round t) _
        (apply_formal_role_c_round-Follows round r t h)
        (λ applied k.
          touch-Follows s 6 r _ (mark_reviewed-Follows s 0 reviewed_role_c_workers r applied k))

  completed-Follows :
      (r t : SessionRecord N) → Same r t → Follows r (touch s 0 (complete_session t))
  unfolding complete_session
  completed-Follows r t h = touch-Follows s 0 r (complete_session t) (record {
    consistent = refl;
    moved = λ e. absurd (ground (arith, e));
    same = record { session_id = h.session_id; owner_id = h.owner_id; processed = h.processed };
  })

  retry_generation-Follows :
      (path : Option FormalLearningPath) (node : Option LearningPathNode) (r t : SessionRecord N)
      → Same r t
      → Holds (Follows r) (retry_generation s path node t)
  unfolding retry_generation
  retry_generation-Follows none n r t h = completed-Follows r t h
  retry_generation-Follows (some path) none r t h = completed-Follows r t h
  retry_generation-Follows (some path) (some n) r t h =
      Holds-bind (Follows r) (generate_formal_role_c_round s _ n _) _ (λ result.
        apply_retried-Follows result r _
          (record { session_id = h.session_id; owner_id = h.owner_id; processed = h.processed }))

  is_asking-restored :
      (routing : Option (AnchorRouting N)) (assessment : Option Json)
      → is_asking
          (is_pending_routing routing)
          Stage.assessment
          (some (restored_waiting routing assessment))
        ≡ true
  unfolding restored_waiting
  is_asking-restored none assessment = refl
  is_asking-restored (some routing) assessment = ground arith

  restore_assessment-Follows :
      (r t : SessionRecord N) → Same r t → Follows r (restore_assessment s t)
  unfolding restore_assessment
  restore_assessment-Follows r t h = touch-Follows s 1 r _ (
      push_event-Follows s 0 EventType.session_updated Stage.assessment _ none r _ (record {
        consistent = is_asking-restored t.view.anchor_routing t.view.assessment;
        moved = λ e. absurd (ground (arith, e));
        same = record { session_id = h.session_id; owner_id = h.owner_id; processed = h.processed };
      }))

  retry_from_answers-Follows :
      (answers : Option (List (String × Json))) (r t : SessionRecord N)
      → Same r t
      → t.view.round_no ≡ r.view.round_no
      → Holds (Follows r) (retry_from_answers s answers t)
  unfolding retry_from_answers
  retry_from_answers-Follows none r t h q = tt
  retry_from_answers-Follows (some answers) r t h q =
      Holds-map (Follows t) (Follows r) (continue_after_diagnosis s t (answer_map answers))
        (λ u k. Same-Follows r t u h q k)
        (continue_after_diagnosis-Follows s t (answer_map answers))

  retry_plan-Follows :
      (node : Option LearningPathNode) (r t : SessionRecord N)
      → Same r t
      → t.view.round_no ≡ r.view.round_no
      → Holds (Follows r) (retry_plan s node t)
  unfolding retry_plan retry_first_round
  retry_plan-Follows none r t h q =
      retry_from_answers-Follows t.private_data.diagnosis_answers r t h q
  retry_plan-Follows (some n) r t h q =
      elim (Bool-cases
        (is_some t.view.profile && (is_some t.view.formal_path && is_some t.view.rag_result))) [
          | inr e ↦ rw e (retry_from_answers-Follows t.private_data.diagnosis_answers r t h q)
          | inl e ↦ rw e (
              Holds-bind (Follows r) (generate_formal_role_c_round s (count_attempt s t) n none) _
                (λ result. apply_first_retried-Follows result r (count_attempt s t) (record {
                  session_id = h.session_id;
                  owner_id = h.owner_id;
                  processed = h.processed;
                })))
        ]

  -- A retry leads to a consistent session, or is refused.
  retry_interactive_session-Follows :
      (r : SessionRecord N) → Holds (Follows r) (retry_interactive_session s r)
  unfolding retry_interactive_session
  retry_interactive_session-Follows r =
      let t = record r { view = record r.view { blocked_reason = none } } in
      let same : Same r t = record { session_id = refl; owner_id = refl; processed = refl } in
      elim (Bool-cases (decided_advance r.view.feedback)) [
        | inl e ↦
            rw e (retry_generation-Follows r.view.formal_path r.view.current_path_node r t same)
        | inr e ↦ elim (Bool-cases (has_assessment s t)) [
          | inl k ↦ rw (e, k) (restore_assessment-Follows r t same)
          | inr k ↦ rw (e, k) (retry_plan-Follows r.view.current_path_node r t same refl)
        ]
      ]

  -- Whatever a command does with a consistent session, the result is one.
  pub dispatch-Follows :
      (command : Command) (type : CommandType) (r : SessionRecord N)
      → is_consistent r ≡ true
      → Holds (Follows r) (dispatch s command type r)
  unfolding dispatch not_allowed
  dispatch-Follows command submit_diagnosis_answers r h =
      elim (Bool-cases (is_waiting r.view.status && asks_diagnosis r.view.waiting_for)) [
        | inl e ↦ rw e (continue_after_diagnosis-Follows s r command.answers)
        | inr e ↦ rw e tt
      ]
  dispatch-Follows command submit_anchor_answers r h =
      elim (Bool-cases (
        is_waiting r.view.status
        && (asks_anchors r.view.waiting_for || is_locked r.view.anchor_routing))) [
          | inl e ↦ rw e (
              continue_after_anchor_answers-Follows s r command h (ground (arith, e))
                (λ k. ground (arith, e, h, k)))
          | inr e ↦ rw e tt
        ]
  dispatch-Follows command submit_assessment_answers r h =
      elim (Bool-cases (is_waiting r.view.status && asks_assessment r.view.waiting_for)) [
        | inl e ↦ rw e (continue_after_assessment-Follows s r command)
        | inr e ↦ rw e tt
      ]
  dispatch-Follows command retry r h = elim (Bool-cases (is_stopped r.view.status)) [
    | inl e ↦ rw e (retry_interactive_session-Follows r)
    | inr e ↦ rw e tt
  ]
  dispatch-Follows command unsupported r h = elim (Bool-cases (is_stopped r.view.status)) [
    | inl e ↦ rw e (retry_interactive_session-Follows r)
    | inr e ↦ rw e tt
  ]
