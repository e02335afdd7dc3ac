-- ===== src/Orchestration/Session/Background.antt =====
-- src/orchestration/interactive-session.ts: the generation of the next round in the background. It
-- loads the session, waits for role C, and loads the session again before it writes; commands and
-- other writes can come in between, so its two parts are two steps.
use knowbalance.Prelude.{
  String, Bool, ◌&&◌, Option, none, some, ◌==◌, nat_Eq, string_Eq, if◌then◌else◌, [], ◌∷◌,
}
use knowbalance.Prelude.Text.{concat, show_nat}
use knowbalance.Prelude.Number.{Number}
use knowbalance.Prelude.Dict.{lookup}
use knowbalance.Orchestration.States.{Worker}
use knowbalance.Teaching.Paths.{LearningPathNode, FormalLearningPath}
use knowbalance.Orchestration.Session.{
  SessionStatus, Stage, EventType, NextRoundContext, SessionRecord, SessionError, session_error,
  other_error, Fallible, ok, thrown, ◌>>=◌,
}
use knowbalance.Orchestration.Session.Services.{Services, push_event, block_session, touch}
use knowbalance.Orchestration.Session.Rounds.{
  FormalRoundResult, round_ready, round_refused, apply_formal_role_c_round,
  generate_formal_role_c_round,
}
use knowbalance.Orchestration.Session.Commands.{SessionStore, is_running, save, load}

abbrev pub error_message : SessionError → String
error_message (session_error code message http_status details) = message
error_message (other_error message) = message

-- The session as it was loaded, and what the generation gave.
pub record Generated (N : Number) : Type 0 where
  pub snapshot : SessionRecord N
  pub result : FormalRoundResult

module _ {N : Number} (s : Services N) where
  unfoldable pub generate_for :
      NextRoundContext
      → SessionRecord N
      → Option FormalLearningPath
      → Option LearningPathNode
      → Fallible (Generated N)
  generate_for context r (some path) (some current_node) = do
    result ← generate_formal_role_c_round s r current_node (some context)
    ok (record { snapshot = r; result = result })
  generate_for context r path current_node =
      thrown (other_error "next round generation missing path or node")

  -- The first part, up to the second load.
  unfoldable pub begin_next_round :
      String → NextRoundContext → SessionStore N → Fallible (Generated N)
  begin_next_round session_id context store = do
    r ← load s session_id store
    generate_for context r r.view.formal_path r.view.current_path_node

  unfoldable pub fail_session : (message : String) → SessionRecord N → SessionRecord N
  fail_session message r = touch s 9 (record r {
    view = record r.view {
      status = SessionStatus.failed;
      current_stage = Stage.failed;
      blocked_reason = some message;
    };
  })

  unfoldable pub fail_found :
      (message : String) → Option (SessionRecord N) → SessionStore N → SessionStore N
  fail_found message none store = store
  fail_found message (some current) store =
      if is_running current.view.status then save (fail_session message current) store else store

  -- The `catch` block.
  unfoldable pub fail_next_round : String → (message : String) → SessionStore N → SessionStore N
  fail_next_round session_id message store = fail_found message (lookup session_id store) store

  unfoldable pub round_written : SessionRecord N → SessionRecord N
  round_written r =
      push_event s 1 EventType.waiting_for_user Stage.assessment
        (concat ("round " ∷ show_nat r.view.round_no ∷ " waiting for assessment answers" ∷ []))
        (some Worker.tiered_evaluator)
        (touch s 1
          (record r { private_data = record r.private_data { next_round_context = none } }))

  unfoldable pub write_applied :
      String → SessionStore N → Fallible (SessionRecord N) → SessionStore N
  write_applied session_id store (ok r) = save (round_written r) store
  write_applied session_id store (thrown e) = fail_next_round session_id (error_message e) store

  unfoldable pub write_round :
      String → SessionRecord N → FormalRoundResult → SessionStore N → SessionStore N
  write_round session_id r (round_refused reason) store =
      save (block_session s 0 reason none r) store
  write_round session_id r (round_ready round) store =
      write_applied session_id store (apply_formal_role_c_round round r)

  -- The generation is written only where the session still runs the same round.
  unfoldable pub is_current : (current snapshot : SessionRecord N) → Bool
  is_current current snapshot =
      is_running current.view.status && current.view.round_no == snapshot.view.round_no

  unfoldable pub write_if_current :
      String → Generated N → Option (SessionRecord N) → SessionStore N → SessionStore N
  write_if_current session_id generated none store = store
  write_if_current session_id generated (some current) store =
      if is_current current generated.snapshot
      then write_round session_id generated.snapshot generated.result store
      else store

  -- The second part.
  unfoldable pub finish_next_round :
      String → Fallible (Generated N) → SessionStore N → SessionStore N
  finish_next_round session_id (thrown e) store = fail_next_round session_id (error_message e) store
  finish_next_round session_id (ok generated) store =
      write_if_current session_id generated (lookup session_id store) store
