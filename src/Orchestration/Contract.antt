-- ===== src/Orchestration/Contract.antt =====
-- src/orchestration/worker-contract.ts: the checks of a worker's result.
pub mod Laws
use knowbalance.Prelude.{
  ℕ, String, Bool, true, false, not, ◌||◌, Option, none, some, List, [], ◌∷◌, ◌++◌, Eq, ◌==◌, ◌!=◌,
  nat_Eq, string_Eq, if◌then◌else◌, is_empty,
}
use knowbalance.Prelude.Text.{concat, show_nat, is_blank}
use knowbalance.Prelude.Number.{Number}
use knowbalance.Orchestration.States.{
  State, Worker, state_Eq, worker_Eq, state_name, worker_name, step_from, StepDefinition,
}
use knowbalance.Orchestration.Types.{
  Status, status_Eq, status_name, Slot, absent, malformed, given, WorkerError, fatal, recoverable,
  WorkerExecutionEnvelope, WorkerInvocation, WorkerResult,
}

unfoldable pub expected_marker : Worker → String
expected_marker w = concat ("[executed:" ∷ worker_name w ∷ "]" ∷ [])

abbrev pub fatal_error : String → List String → WorkerError
fatal_error code parts = record { code = code; message = concat parts; severity = fatal }

abbrev pub recoverable_error : String → List String → WorkerError
recoverable_error code parts = record {
  code = code;
  message = concat parts;
  severity = recoverable;
}

-- `if (broken) errors.push(error)`
abbrev pub push_if : Bool → WorkerError → List WorkerError
push_if true e = e ∷ []
push_if false e = []

-- `String(result.next)`; `complete` is no state.
abbrev pub next_name : Option State → String
next_name none = "complete"
next_name (some s) = state_name s

abbrev pub next_is : Option State → State → Bool
next_is none s = false
next_is (some t) s = t == s

-- The value of `WorkerResult.next` that is spelled like a status.
abbrev pub status_state : Status → State
status_state Status.completed = State.completed
status_state Status.blocked = State.blocked
status_state Status.failed = State.failed

-- A required container.
abbrev pub is_given : {A : Type 0} → Slot A → Bool
is_given absent = false
is_given malformed = false
is_given (given a) = true

-- An optional container: broken only when it is there with the wrong shape.
abbrev pub is_malformed : {A : Type 0} → Slot A → Bool
is_malformed absent = false
is_malformed malformed = true
is_malformed (given a) = false

abbrev pub no_errors : Slot (List WorkerError) → Bool
no_errors absent = true
no_errors malformed = true
no_errors (given es) = is_empty es

abbrev pub id_missing : Option String → Bool
id_missing none = true
id_missing (some s) = is_blank s

unfoldable pub expected_completed_next : State → State
expected_completed_next stage = elim (step_from stage) [ none ↦ State.failed | some step ↦ step.to ]

pub data Validation (N : Number) (Unknown : Type 0) : Type 0 where
  valid : WorkerResult N Unknown → Validation N Unknown
  invalid : List WorkerError → Validation N Unknown

module _ {N : Number} {Unknown : Type 0} (invocation : WorkerInvocation N Unknown)
    (result : WorkerResult N Unknown) where
  validate_envelope : Option WorkerExecutionEnvelope → List WorkerError
  validate_envelope none =
      fatal_error "EXECUTION_ENVELOPE_INVALID" ("execution must be a non-null object" ∷ []) ∷ []
  validate_envelope (some execution) =
      push_if (execution.worker != invocation.worker) (
        fatal_error "EXECUTION_WORKER_MISMATCH" (
          "expected execution.worker "
          ∷ worker_name invocation.worker
          ∷ ", received "
          ∷ worker_name execution.worker
          ∷ []))
      ++ (push_if (execution.status != result.status) (
            fatal_error "EXECUTION_STATUS_MISMATCH" (
              "expected execution.status "
              ∷ status_name result.status
              ∷ ", received "
              ∷ status_name execution.status
              ∷ []))
          ++ (push_if (id_missing execution.execution_id) (
                fatal_error "EXECUTION_ID_INVALID"
                  ("execution.execution_id must be a non-empty string" ∷ []))
              ++ push_if (execution.marker != expected_marker invocation.worker) (
                  recoverable_error "EXECUTION_MARKER_MISMATCH" (
                    "expected execution.marker "
                    ∷ expected_marker invocation.worker
                    ∷ ", received "
                    ∷ execution.marker
                    ∷ []))))

  validate_containers : List WorkerError
  validate_containers =
      push_if (not (is_given result.artifacts)) (
        fatal_error "ARTIFACTS_INVALID"
          ("artifacts must be a non-null object and not an array" ∷ []))
      ++ (push_if (not (is_given result.output_refs))
            (fatal_error "OUTPUT_REFS_INVALID" ("output_refs must be an array" ∷ []))
          ++ (push_if (not (is_given result.evidence_refs))
                (fatal_error "EVIDENCE_REFS_INVALID" ("evidence_refs must be an array" ∷ []))
              ++ (push_if (not (is_given result.errors))
                    (fatal_error "ERRORS_INVALID" ("errors must be an array" ∷ []))
                  ++ (push_if (is_malformed result.persistence_events) (
                        fatal_error "PERSISTENCE_EVENTS_INVALID"
                          ("persistence_events must be an array when provided" ∷ []))
                      ++ (push_if (is_malformed result.mastery_updates) (
                            fatal_error "MASTERY_UPDATES_INVALID"
                              ("mastery_updates must be an array when provided" ∷ []))
                          ++ (push_if (is_malformed result.learned_facts_about_user) (
                                fatal_error "LEARNED_FACTS_INVALID"
                                  ("learned_facts_about_user must be an array when provided" ∷ []))
                              ++ (push_if (is_malformed result.clarification_requests) (
                                    fatal_error "CLARIFICATION_REQUESTS_INVALID" (
                                      "clarification_requests must be an array when provided" ∷ []))
                                  ++ push_if (is_malformed result.next_step_recommendation) (
                                      fatal_error "NEXT_STEP_RECOMMENDATION_INVALID" (
                                        "next_step_recommendation must be an object when provided"
                                        ∷ [])))))))))

  validate_next : List WorkerError
  unfolding expected_completed_next
  validate_next =
      if result.status == Status.completed
      then push_if (not (next_is result.next (expected_completed_next invocation.stage))) (
          fatal_error "NEXT_STATE_MISMATCH" (
            "expected next "
            ∷ state_name (expected_completed_next invocation.stage)
            ∷ ", received "
            ∷ next_name result.next
            ∷ []))
      else push_if (not (next_is result.next (status_state result.status))) (
          fatal_error "NEXT_STATE_MISMATCH" (
            status_name result.status
            ∷ " worker must point next to "
            ∷ status_name result.status
            ∷ ", received "
            ∷ next_name result.next
            ∷ []))
        ++ push_if (no_errors result.errors) (
            fatal_error "ERRORS_REQUIRED"
              (status_name result.status ∷ " worker result must include at least one error" ∷ []))

  validate_identity : List WorkerError
  validate_identity =
      push_if (result.schema_version != "1.0") (
        fatal_error "SCHEMA_VERSION_INVALID"
          ("expected schema_version 1.0, received " ∷ result.schema_version ∷ []))
      ++ (push_if (result.run_id != invocation.run_id) (
            fatal_error "RUN_ID_MISMATCH"
              ("expected run_id " ∷ invocation.run_id ∷ ", received " ∷ result.run_id ∷ []))
          ++ (push_if (result.step_index != invocation.step_index) (
                fatal_error "STEP_INDEX_MISMATCH" (
                  "expected step_index "
                  ∷ show_nat invocation.step_index
                  ∷ ", received "
                  ∷ show_nat result.step_index
                  ∷ []))
              ++ (push_if (result.worker != invocation.worker) (
                    fatal_error "WORKER_MISMATCH" (
                      "expected worker "
                      ∷ worker_name invocation.worker
                      ∷ ", received "
                      ∷ worker_name result.worker
                      ∷ []))
                  ++ (push_if (result.stage != invocation.stage) (
                        fatal_error "STAGE_MISMATCH" (
                          "expected stage "
                          ∷ state_name invocation.stage
                          ∷ ", received "
                          ∷ state_name result.stage
                          ∷ []))
                      ++ push_if (result.marker != expected_marker result.worker) (
                          recoverable_error "MARKER_MISMATCH" (
                            "expected marker "
                            ∷ expected_marker result.worker
                            ∷ ", received "
                            ∷ result.marker
                            ∷ []))))))

  -- The errors in the order in which they are pushed.
  pub contract_errors : List WorkerError
  unfolding validate_identity validate_envelope validate_containers validate_next
  contract_errors =
      validate_identity
      ++ (validate_envelope result.execution ++ (validate_containers ++ validate_next))

  unfoldable pub validate_worker_result : Validation N Unknown
  validate_worker_result =
      if is_empty contract_errors then valid result else invalid contract_errors
