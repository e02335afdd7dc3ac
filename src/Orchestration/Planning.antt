-- ===== src/Orchestration/Planning.antt =====
-- src/orchestration/dynamic-planning-orchestrator.ts. The callback is an argument; `Input` is
-- `ContinueRoleCAfterSubmissionInput`, which the loop copies and hands on.
use knowbalance.Prelude.{
  ℕ, zero, suc, ◌+◌, ◌≡◌, ◌≢◌, refl, ap, String, false, Option, none, some, List, [], ◌∷◌, ◌++◌,
  arith, ltb, if◌then◌else◌, map,
}
use knowbalance.Prelude.Text.{concat, join}

pub data RequiredInput : Type 0 where
  next_path_node next_profile_snapshot next_generation_action : RequiredInput

abbrev pub input_name : RequiredInput → String
input_name next_path_node = "nextPathNode"
input_name next_profile_snapshot = "nextProfileSnapshot"
input_name next_generation_action = "nextGenerationAction"

pub record LearningSession : Type 0 where
  pub run_id : String
  pub session_id : String
  pub form_id : String
  pub attempt_no : ℕ

pub data StopStatus : Type 0 where
  blocked failed : StopStatus

-- The parts of `ContinueRoleCForRoleDResult` that the loop reads.
pub data ContinueResult : Type 0 where
  published : LearningSession → ContinueResult
  awaiting_input : List RequiredInput → ContinueResult
  stopped : StopStatus → (reason : String) → ContinueResult

-- `DynamicPlanningLoopDecision`; the statuses of a round and of the loop are among them.
pub data LoopDecision : Type 0 where
  remediate reinforce advance reprofile awaiting_submission awaiting_input blocked failed
        completed :
      LoopDecision

pub record PlanningRound (Input : Type 0) : Type 0 where
  pub round_no : ℕ
  pub input : Input
  pub status : LoopDecision
  pub decision : LoopDecision
  pub session : Option LearningSession
  pub required_inputs : Option (List RequiredInput)
  pub reason : Option String

pub record PlanningResult (Input : Type 0) : Type 0 where
  pub status : LoopDecision
  pub rounds : List (PlanningRound Input)
  pub final_decision : LoopDecision
  pub final_round : Option (PlanningRound Input)
  pub latest_result : Option ContinueResult

pub data PlanningOutcome (Input : Type 0) : Type 0 where
  returned : PlanningResult Input → PlanningOutcome Input
  thrown : (message : String) → PlanningOutcome Input

abbrev pub stop_decision : StopStatus → LoopDecision
stop_decision StopStatus.blocked = LoopDecision.blocked
stop_decision StopStatus.failed = LoopDecision.failed

-- `rounds.at(-1)`
abbrev pub last? : {A : Type 0} → List A → Option A
last? [] = none
last? (x ∷ []) = some x
last? (x ∷ y ∷ ys) = last? (y ∷ ys)

module _ {Input : Type 0} where
  -- The round that a result of the callback gives.
  unfoldable pub round_of : ℕ → Input → ContinueResult → PlanningRound Input
  round_of round_no current (published session) = record {
    round_no = round_no;
    input = current;
    status = awaiting_submission;
    decision = awaiting_submission;
    session = some session;
    required_inputs = none;
    reason = some "C published next round and opened a new learning session.";
  }
  round_of round_no current (ContinueResult.awaiting_input required) = record {
    round_no = round_no;
    input = current;
    status = LoopDecision.awaiting_input;
    decision = LoopDecision.awaiting_input;
    session = none;
    required_inputs = some required;
    reason = some (
        concat (
          "C requires "
          ∷ join ", " (map input_name required)
          ∷ " before the next dynamic-planning round."
          ∷ []));
  }
  round_of round_no current (stopped status reason) = record {
    round_no = round_no;
    input = current;
    status = stop_decision status;
    decision = stop_decision status;
    session = none;
    required_inputs = none;
    reason = some reason;
  }

  -- Each branch of the body pushes its round and returns.
  unfoldable pub return_round :
      List (PlanningRound Input) → PlanningRound Input → ContinueResult → PlanningResult Input
  return_round rounds round result = record {
    status = round.status;
    rounds = rounds ++ round ∷ [];
    final_decision = round.decision;
    final_round = some round;
    latest_result = some result;
  }

  module _ (continue_after_submission : Input → ContinueResult) where
    -- The `for` loop with the number of rounds left.
    unfoldable pub planning_loop : ℕ → ℕ → List (PlanningRound Input) → Input → PlanningResult Input
    planning_loop zero index rounds current = record {
      status = completed;
      rounds = rounds;
      final_decision = completed;
      final_round = last? rounds;
      latest_result = none;
    }
    planning_loop (suc left) index rounds current =
        let result = continue_after_submission current in
        return_round rounds (round_of (index + 1) current result) result

    -- `max_rounds` is `none` where it is no safe integer, or negative.
    unfoldable pub run_dynamic_planning_loop : Option ℕ → Input → PlanningOutcome Input
    run_dynamic_planning_loop none initial = thrown "DYNAMIC_PLANNING_MAX_ROUNDS_INVALID"
    run_dynamic_planning_loop (some max_rounds) initial =
        if ltb max_rounds 1
        then thrown "DYNAMIC_PLANNING_MAX_ROUNDS_INVALID"
        else returned (planning_loop max_rounds 0 [] initial)

-- The decision that a result of the callback stands for.
abbrev pub decision_of : ContinueResult → LoopDecision
decision_of (published session) = awaiting_submission
decision_of (ContinueResult.awaiting_input required) = LoopDecision.awaiting_input
decision_of (stopped status reason) = stop_decision status

module _ {Input : Type 0} where
  return_round-decision :
      (initial : Input) (r : ContinueResult)
      → return_round [] (round_of 1 initial r) r ≡ record {
        status = decision_of r;
        rounds = round_of 1 initial r ∷ [];
        final_decision = decision_of r;
        final_round = some (round_of 1 initial r);
        latest_result = some r;
      }
  unfolding return_round round_of
  return_round-decision initial (published session) = refl
  return_round-decision initial (ContinueResult.awaiting_input required) = refl
  return_round-decision initial (stopped status reason) = refl

decision_of-unfinished : (r : ContinueResult) → decision_of r ≢ completed
decision_of-unfinished (published session) e = absurd (ground (arith, e))
decision_of-unfinished (ContinueResult.awaiting_input required) e = absurd (ground (arith, e))
decision_of-unfinished (stopped StopStatus.blocked reason) e = absurd (ground (arith, e))
decision_of-unfinished (stopped StopStatus.failed reason) e = absurd (ground (arith, e))

-- Whatever number of rounds is allowed, the loop calls the callback once: it returns one round, with
-- number 1 and the initial submission, whose decision is that of the callback's result, and the loop
-- never reports `completed`. Only a limit that is no integer from 1 on is refused.
pub run_dynamic_planning_loop-one_round :
    {Input : Type 0} (continue_after_submission : Input → ContinueResult) (max_rounds : ℕ)
    (initial : Input)
    → let result = continue_after_submission initial in
      (run_dynamic_planning_loop continue_after_submission (some (suc max_rounds)) initial
        ≡ returned (record {
          status = decision_of result;
          rounds = round_of 1 initial result ∷ [];
          final_decision = decision_of result;
          final_round = some (round_of 1 initial result);
          latest_result = some result;
        }))
      × (decision_of result ≢ completed)
      × (run_dynamic_planning_loop continue_after_submission (some 0) initial
          ≡ thrown "DYNAMIC_PLANNING_MAX_ROUNDS_INVALID")
unfolding run_dynamic_planning_loop planning_loop
run_dynamic_planning_loop-one_round continue_after_submission max_rounds initial =
    let result = continue_after_submission initial in
    let allowed : ltb (suc max_rounds) 1 ≡ false = ground arith in
    (
      rw allowed (ap returned (return_round-decision initial result)),
      decision_of-unfinished result,
      refl,
    )
