-- ===== src/Orchestration/Session/Commands.antt =====
-- src/orchestration/interactive-session.ts: the store of sessions, a retry, and the execution of a
-- command. The commands of a session are queued, so they are executed one after the other.
use knowbalance.Prelude.{
  includes, suc, String, Bool, true, false, not, ◌&&◌, ◌||◌, Option, none, some, List, [], ◌∷◌,
  string_Eq, ◌!=◌, if◌then◌else◌, is_some,
}
use knowbalance.Prelude.Text.{concat}
use knowbalance.Prelude.Number.{Number}
use knowbalance.Prelude.Dict.{lookup, insert}
use knowbalance.Prelude.Json.{Json}
use knowbalance.Content.Policy.{Action, advance}
use knowbalance.Teaching.Paths.{LearningPathNode, FormalLearningPath}
use knowbalance.Orchestration.Session.{
  SessionStatus, Stage, EventType, WaitingFor, diagnosis_answers, anchor_answers,
  assessment_answers, Phase, anchor_pending, route_locked, AnchorRouting, SessionFeedback,
  PublicView, ProcessedCommand, SessionRecord, public_session_view, CommandType,
  submit_diagnosis_answers, submit_anchor_answers, submit_assessment_answers, retry, unsupported,
  answer_map, Command, Fallible, ok, ◌>>=◌, refuse,
}
use knowbalance.Orchestration.Session.Input.{
  safe_id, validate_command, assessment_items, items_with_ids,
}
use knowbalance.Orchestration.Session.Services.{
  Services, push_event, block_session, complete_session, wait_for_nothing, touch,
}
use knowbalance.Orchestration.Session.Rounds.{
  FormalRoundResult, round_ready, round_refused, apply_formal_role_c_round,
  generate_formal_role_c_round,
}
use knowbalance.Orchestration.Session.Diagnosis.{CreateInput, create_record}
use knowbalance.Orchestration.Session.FirstRound.{continue_after_diagnosis, mark_reviewed_workers}
use knowbalance.Orchestration.Session.Assessment.{
  continue_after_assessment, continue_after_anchor_answers,
}

-- The files of the sessions, by session id.
abbrev pub SessionStore : Number → Type 0
SessionStore N = List (String × SessionRecord N)

abbrev pub is_waiting : SessionStatus → Bool
is_waiting SessionStatus.waiting_for_user = true
is_waiting _ = false

abbrev pub is_running : SessionStatus → Bool
is_running SessionStatus.running = true
is_running _ = false

abbrev pub is_stopped : SessionStatus → Bool
is_stopped SessionStatus.blocked = true
is_stopped SessionStatus.failed = true
is_stopped _ = false

abbrev pub asks_diagnosis : Option WaitingFor → Bool
asks_diagnosis (some (diagnosis_answers items)) = true
asks_diagnosis _ = false

abbrev pub asks_anchors : Option WaitingFor → Bool
asks_anchors (some (anchor_answers items)) = true
asks_anchors _ = false

abbrev pub asks_assessment : Option WaitingFor → Bool
asks_assessment (some (assessment_answers items)) = true
asks_assessment _ = false

abbrev pub is_pending_phase : Phase → Bool
is_pending_phase anchor_pending = true
is_pending_phase route_locked = false

abbrev pub is_locked : {N : Number} → Option (AnchorRouting N) → Bool
is_locked none = false
is_locked (some routing) = not (is_pending_phase routing.phase)

abbrev pub is_advance : Action → Bool
is_advance advance = true
is_advance _ = false

-- `feedbackDecisionAction(feedback) === "advance"`
abbrev pub decided_advance : {N : Number} → Option (SessionFeedback N) → Bool
decided_advance none = false
decided_advance (some feedback) = is_advance feedback.feedback.action

-- What every plain object of the language has, also an empty one: `processed_commands[id]` is then
-- something other than a processed command, whose hash is not that of the command.
abbrev pub is_inherited : (command_id : String) → Bool
is_inherited command_id =
    includes
      ("__proto__" ∷ "__defineGetter__" ∷ "__defineSetter__" ∷ "__lookupGetter__"
        ∷ "__lookupSetter__" ∷ "constructor" ∷ "hasOwnProperty" ∷ "isPrototypeOf"
        ∷ "propertyIsEnumerable" ∷ "toLocaleString" ∷ "toString" ∷ "valueOf" ∷ [])
      command_id

module _ {N : Number} where
  unfoldable pub save : SessionRecord N → SessionStore N → SessionStore N
  save r store = insert r.view.session_id r store

  -- The items that a session asks for when a retry restores its assessment.
  unfoldable pub restored_waiting : Option (AnchorRouting N) → Option Json → WaitingFor
  restored_waiting none assessment = assessment_answers (assessment_items assessment)
  restored_waiting (some routing) assessment =
      if is_pending_phase routing.phase
      then anchor_answers (items_with_ids assessment routing.anchor_item_ids)
      else assessment_answers (assessment_items assessment)

  module _ (s : Services N) where
    unfoldable pub block_retry : String → SessionRecord N → SessionRecord N
    block_retry reason r = block_session s 0 reason none (wait_for_nothing r)

    -- The attempt counts the generations of a round.
    abbrev pub count_attempt : SessionRecord N → SessionRecord N
    count_attempt r = record r {
      private_data = record r.private_data {
        role_c_generation_attempt = suc r.private_data.role_c_generation_attempt;
      };
    }

    abbrev pub forget_anchors : SessionRecord N → SessionRecord N
    forget_anchors r = record r {
      view = record r.view { anchor_routing = none };
      private_data = record r.private_data { anchor_answers = none };
    }

    unfoldable pub apply_retried : FormalRoundResult → SessionRecord N → Fallible (SessionRecord N)
    apply_retried (round_refused reason) r = ok (block_retry reason r)
    apply_retried (round_ready round) r =
        apply_formal_role_c_round round r >>= (λ applied. ok (touch s 0 applied))

    unfoldable pub apply_first_retried :
        FormalRoundResult → SessionRecord N → Fallible (SessionRecord N)
    apply_first_retried (round_refused reason) r = ok (block_retry reason r)
    apply_first_retried (round_ready round) r =
        apply_formal_role_c_round round r
        >>= (λ applied. ok (touch s 6 (mark_reviewed_workers s 0 applied)))

    unfoldable pub retry_generation :
        Option FormalLearningPath
        → Option LearningPathNode
        → SessionRecord N
        → Fallible (SessionRecord N)
    retry_generation (some path) (some current_node) r =
        let counted = forget_anchors (count_attempt r) in
        generate_formal_role_c_round s counted current_node counted.private_data.next_round_context
        >>= (λ result. apply_retried result counted)
    retry_generation path current_node r = ok (touch s 0 (complete_session r))

    unfoldable pub restore_assessment : SessionRecord N → SessionRecord N
    restore_assessment r = touch s 1 (
        push_event s 0 EventType.session_updated Stage.assessment
          "retry restored the assessment checkpoint" none
          (record r {
            view = record r.view {
              status = SessionStatus.waiting_for_user;
              current_stage = Stage.assessment;
              waiting_for = some (restored_waiting r.view.anchor_routing r.view.assessment);
            };
          }))

    unfoldable pub retry_from_answers :
        (diagnosis_answers : Option (List (String × Json)))
        → SessionRecord N
        → Fallible (SessionRecord N)
    retry_from_answers none r =
        refuse "RETRY_CHECKPOINT_MISSING"
          "The original learner diagnosis answers are unavailable; create a new plan instead of fabricating answers"
          409
    retry_from_answers (some answers) r = continue_after_diagnosis s r (answer_map answers)

    unfoldable pub retry_first_round :
        LearningPathNode → SessionRecord N → Fallible (SessionRecord N)
    retry_first_round current_node r =
        let counted = count_attempt r in
        generate_formal_role_c_round s counted current_node none
        >>= (λ result. apply_first_retried result counted)

    unfoldable pub retry_plan :
        Option LearningPathNode → SessionRecord N → Fallible (SessionRecord N)
    retry_plan none r = retry_from_answers r.private_data.diagnosis_answers r
    retry_plan (some current_node) r =
        if is_some r.view.profile && (is_some r.view.formal_path && is_some r.view.rag_result)
        then retry_first_round current_node r
        else retry_from_answers r.private_data.diagnosis_answers r

    unfoldable pub has_assessment : SessionRecord N → Bool
    has_assessment r =
        is_some r.private_data.role_c
        && (is_some r.view.assessment
            && (is_some r.view.current_path_node && is_some r.view.formal_path))

    unfoldable pub retry_interactive_session : SessionRecord N → Fallible (SessionRecord N)
    unfolding has_assessment
    retry_interactive_session original =
        let r = record original { view = record original.view { blocked_reason = none } } in
        if decided_advance r.view.feedback
        then retry_generation r.view.formal_path r.view.current_path_node r
        else if has_assessment r
        then ok (restore_assessment r)
        else retry_plan r.view.current_path_node r

    -- A command that the status of the session does not allow is refused.
    unfoldable pub not_allowed : (what : String) → Fallible (SessionRecord N)
    not_allowed what =
        refuse "COMMAND_NOT_ALLOWED" (concat ("This session is not " ∷ what ∷ [])) 409

    unfoldable pub dispatch : Command → CommandType → SessionRecord N → Fallible (SessionRecord N)
    dispatch command submit_diagnosis_answers r =
        if is_waiting r.view.status && asks_diagnosis r.view.waiting_for
        then continue_after_diagnosis s r command.answers
        else not_allowed "waiting for diagnosis answers"
    dispatch command submit_anchor_answers r =
        if is_waiting r.view.status
          && (asks_anchors r.view.waiting_for || is_locked r.view.anchor_routing)
        then continue_after_anchor_answers s r command
        else not_allowed "waiting for anchor answers"
    dispatch command submit_assessment_answers r =
        if is_waiting r.view.status && asks_assessment r.view.waiting_for
        then continue_after_assessment s r command
        else not_allowed "waiting for assessment answers"
    dispatch command retry r =
        if is_stopped r.view.status
        then retry_interactive_session r
        else not_allowed "blocked and cannot be retried"
    dispatch command unsupported r =
        if is_stopped r.view.status
        then retry_interactive_session r
        else not_allowed "blocked and cannot be retried"

    unfoldable pub load : String → SessionStore N → Fallible (SessionRecord N)
    load session_id store = elim (lookup session_id store) [
      | none ↦
          refuse "SESSION_NOT_FOUND" (concat ("Session " ∷ session_id ∷ " was not found" ∷ [])) 404
      | some r ↦ ok r
    ]

    -- `create`: the store with the new session.
    unfoldable pub create :
        CreateInput → SessionStore N → Fallible (SessionRecord N × SessionStore N)
    create input store = do
      session_id ← safe_id input.session_id
      r ←
          if is_some (lookup session_id store)
          then refuse "SESSION_ALREADY_EXISTS"
              (concat ("Session " ∷ session_id ∷ " already exists" ∷ [])) 409
          else create_record s input
      ok (r, save r store)

    module _ (hash_json : Command → String) where
      unfoldable pub remember : Command → SessionRecord N → SessionRecord N
      remember command r = record r {
        processed_commands =
            insert command.command_id
              (record { request_hash = hash_json command; response = public_session_view r })
              r.processed_commands;
      }

      -- The response and the store after it; where it throws, the store is as it was.
      unfoldable pub execute_new :
          Command → SessionStore N → SessionRecord N → Fallible (PublicView N × SessionStore N)
      execute_new command store r = do
        updated ← dispatch command command.type r
        ok (public_session_view updated, save (remember command updated) store)

      unfoldable pub replay_or_execute :
          Command
          → SessionStore N
          → SessionRecord N
          → Option (ProcessedCommand N)
          → Fallible (PublicView N × SessionStore N)
      replay_or_execute command store r none =
          if is_inherited command.command_id
          then refuse "COMMAND_ID_REUSED" "command_id was already used with different content" 409
          else execute_new command store r
      replay_or_execute command store r (some replay) =
          if replay.request_hash != hash_json command
          then refuse "COMMAND_ID_REUSED" "command_id was already used with different content" 409
          else ok (replay.response, store)

      unfoldable pub execute_command :
          String → Command → SessionStore N → Fallible (PublicView N × SessionStore N)
      execute_command session_id command store = do
        valid ← validate_command command
        r ← load session_id store
        replay_or_execute command store r (lookup command.command_id r.processed_commands)

      -- `command`, whose lock is free.
      unfoldable pub run_command :
          String → Command → SessionStore N → Fallible (PublicView N × SessionStore N)
      run_command session_id command store =
          safe_id session_id >>= (λ id. execute_command id command store)
