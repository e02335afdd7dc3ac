-- ===== src/Orchestration/Session/Continued.antt =====
-- What follows the answers of a learner leads to a session that is consistent.
use knowbalance.Prelude.{
  ℕ, suc, ◌*◌, refl, String, Option, none, some, List, [], ◌∷◌, Bool-cases, is_empty, arith, inl,
  inr, drop, take,
}
use knowbalance.Prelude.Text.{concat}
use knowbalance.Orchestration.Runner.Steps.{first_message}
use knowbalance.Prelude.Number.{Number}
use knowbalance.Prelude.Json.{Json}
use knowbalance.Orchestration.States.{Worker, worker_name, StepDefinition, worker_sequence}
use knowbalance.Orchestration.Types.{Status, WorkerResult}
use knowbalance.Orchestration.Contract.{Validation, valid, invalid, validate_worker_result}
use knowbalance.Teaching.Paths.{LearningPathNode}
use knowbalance.Orchestration.Session.{
  Stage, EntryStatus, EventType, SessionRecord, Answers, answer_map, answer_list, no_answers,
  Fallible, ok,
}
use knowbalance.Orchestration.Session.Input.{diagnosis_issues}
use knowbalance.Orchestration.Session.Services.{
  Services, stage_for_worker, push_event, complete_session, upsert_ledger,
}
use knowbalance.Orchestration.Session.Rounds.{
  FormalRoundResult, round_ready, round_refused, apply_formal_role_c_round,
  generate_formal_role_c_round,
}
use knowbalance.Orchestration.Session.Diagnosis.{learner_of}
use knowbalance.Orchestration.Session.FirstRound.{
  Planning, Planned, returned, planned, reviewed_role_c_workers, accept_answers, stop_planning,
  accept_worker, after_worker, plan_steps, take_plan, first_upstream, worker_invocation,
  finish_first_round, start_first_round, after_planning, plan_from_answers,
  continue_after_diagnosis,
}
use knowbalance.Orchestration.Session.Consistency.{
  Holds, Holds-bind, Holds-bind_of, Same, Follows, block_session-Follows,
  apply_formal_role_c_round-Follows, push_event-Same, push_event-Follows, upsert_ledger-Same,
  touch-Follows, mark_reviewed-Follows,
}

module _ {N : Number} (s : Services N) where
  -- A session that the loop returned is consistent; where the loop goes on, it is the same session.
  abbrev FollowsPlan : SessionRecord N → Planned N → Type 0
  FollowsPlan r (returned t) = Follows r t
  FollowsPlan r (planned p) = Same r p.session

  stop_planning-Follows :
      (k : ℕ) (w : Worker) (status : Status) (message : String) (r t : SessionRecord N)
      → Same r t
      → Follows r (stop_planning s k w status message t)
  unfolding stop_planning push_event
  stop_planning-Follows k w status message r t h = record {
    consistent = ground arith;
    moved = λ e. absurd (ground (arith, e));
    same = record { session_id = h.session_id; owner_id = h.owner_id; processed = h.processed };
  }

  after_worker-FollowsPlan :
      (k : ℕ) (w : Worker) (result : WorkerResult N Json) (v : Validation N Json)
      (r : SessionRecord N) (p : Planning N)
      → Same r p.session
      → FollowsPlan r (after_worker s k w result v p)
  unfolding after_worker accept_worker
  after_worker-FollowsPlan k w result (invalid errors) r p h =
      stop_planning-Follows k w result.status _ r p.session h
  after_worker-FollowsPlan k w result (valid checked) r p h = after_status result.status
    where
      after_status :
          (status : Status)
          → FollowsPlan r (elim status [
            | Status.completed ↦ planned (accept_worker s k w result p)
            | Status.blocked ↦ returned (
                stop_planning s k w result.status
                  (first_message result.errors result.summary)
                  p.session)
            | Status.failed ↦ returned (
                stop_planning s k w result.status
                  (first_message result.errors result.summary)
                  p.session)
          ])
      after_status Status.completed =
          upsert_ledger-Same s (suc k) w EntryStatus.completed result.summary r _ (
            push_event-Same s k EventType.worker_completed (stage_for_worker w) result.summary
              (some w) r p.session h)
      after_status Status.blocked = stop_planning-Follows k w result.status _ r p.session h
      after_status Status.failed = stop_planning-Follows k w result.status _ r p.session h

  go_on :
      (r : SessionRecord N) (o : Planned N)
      → FollowsPlan r o
      → (next : Planning N → Fallible (Planned N))
      → ((q : Planning N) → Same r q.session → Holds (FollowsPlan r) (next q))
      → Holds (FollowsPlan r) (elim o [ returned t ↦ ok (returned t) | planned q ↦ next q ])
  go_on r (returned t) h next f = h
  go_on r (planned q) h next f = f q h

  plan_steps-FollowsPlan :
      (index : ℕ) (steps : List StepDefinition) (r : SessionRecord N) (p : Planning N)
      → Same r p.session
      → Holds (FollowsPlan r) (plan_steps s index steps p)
  unfolding plan_steps
  plan_steps-FollowsPlan index [] r p h = h
  plan_steps-FollowsPlan index (step ∷ steps) r p h =
      let k = index * 4 in
      let invoked = record p {
        session =
            push_event s k EventType.worker_invoked (stage_for_worker step.worker)
              (concat ("invoke " ∷ worker_name step.worker ∷ [])) (some step.worker) p.session;
      } in
      let invocation = worker_invocation s index step invoked in
      Holds-bind (FollowsPlan r) (s.run_worker invocation) _ (λ result.
        go_on r
          (after_worker s (suc k) step.worker result (validate_worker_result invocation result)
            invoked)
          (after_worker-FollowsPlan (suc k) step.worker result
            (validate_worker_result invocation result) r invoked
            (push_event-Same s k EventType.worker_invoked (stage_for_worker step.worker) _
              (some step.worker) r p.session h))
          (plan_steps s (suc index) steps) (λ q g. plan_steps-FollowsPlan (suc index) steps r q g))

  finish_first_round-Follows :
      (result : FormalRoundResult) (r t : SessionRecord N)
      → Same r t
      → Holds (Follows r) (finish_first_round s t result)
  unfolding finish_first_round
  finish_first_round-Follows (round_refused reason) r t h =
      block_session-Follows s 40 reason (some Worker.tiered_evaluator) r _
        (record { session_id = h.session_id; owner_id = h.owner_id; processed = h.processed })
  finish_first_round-Follows (round_ready round) r t h =
      Holds-bind_of (Follows r) (Follows r) (apply_formal_role_c_round round t) _
        (apply_formal_role_c_round-Follows round r t h)
        (λ applied k.
          push_event-Follows s 47 EventType.waiting_for_user Stage.assessment
            "waiting for assessment answers" (some Worker.tiered_evaluator) r _
            (touch-Follows s 47 r _
              (mark_reviewed-Follows s 40 reviewed_role_c_workers r applied k)))

  start_first_round-Follows :
      (node : Option LearningPathNode) (r t : SessionRecord N)
      → Same r t
      → Holds (Follows r) (start_first_round s t node)
  unfolding start_first_round complete_session
  start_first_round-Follows none r t h = record {
    consistent = refl;
    moved = λ e. absurd (ground (arith, e));
    same = record { session_id = h.session_id; owner_id = h.owner_id; processed = h.processed };
  }
  start_first_round-Follows (some node) r t h =
      Holds-bind (Follows r) (generate_formal_role_c_round s t node none) _
        (λ result. finish_first_round-Follows result r t h)

  after_planning-Follows :
      (o : Planned N) (r : SessionRecord N)
      → FollowsPlan r o
      → Holds (Follows r) (after_planning s o)
  unfolding after_planning take_plan
  after_planning-Follows (returned t) r h = h
  after_planning-Follows (planned p) r h =
      start_first_round-Follows _ r _
        (record { session_id = h.session_id; owner_id = h.owner_id; processed = h.processed })

  accept_answers-Same :
      (answers : List (String × Json)) (r : SessionRecord N) → Same r (accept_answers s answers r)
  unfolding accept_answers push_event upsert_ledger
  accept_answers-Same answers r = record { session_id = refl; owner_id = refl; processed = refl }

  -- The answers to a diagnosis lead to a consistent session, or are refused.
  pub continue_after_diagnosis-Follows :
      (r : SessionRecord N) (answers : Answers)
      → Holds (Follows r) (continue_after_diagnosis s r answers)
  unfolding continue_after_diagnosis plan_from_answers
  continue_after_diagnosis-Follows r no_answers = tt
  continue_after_diagnosis-Follows r (answer_list entries) = tt
  continue_after_diagnosis-Follows r (answer_map answers) =
      elim (Bool-cases (is_empty (diagnosis_issues r.private_data.diagnosis_items answers))) [
        | inr e ↦ rw e tt
        | inl e ↦ rw e (
            Holds-bind (Follows r) (s.load_memory (learner_of r.learner_request r.view.session_id))
              _
              (λ snapshot.
                Holds-bind_of (FollowsPlan r) (Follows r)
                  (plan_steps s 4 (take 2 (drop 3 worker_sequence)) (record {
                    session = accept_answers s answers r;
                    upstream = first_upstream s r answers snapshot;
                    input_refs = "objective-diagnostician:interactive-result" ∷ [];
                  }))
                  _
                  (plan_steps-FollowsPlan 4 (take 2 (drop 3 worker_sequence)) r _
                    (accept_answers-Same answers r))
                  (λ o k. after_planning-Follows o r k)))
      ]
