-- ===== src/Orchestration/Contract/Laws.antt =====
-- What `validateWorkerResult` accepts.
use knowbalance.Prelude.{
  Bool, true, false, ◌≡◌, ◌≢◌, ◌↔◌, ◌⊎◌, inl, inr, refl, Option, none, some, List, [], ◌∷◌, ◌++◌,
  arith, nat_Eq, string_Eq, ne-false_iff, Bool-cases,
}
use knowbalance.Prelude.Number.{Number}
use knowbalance.Orchestration.States.{State, state_Eq, worker_Eq}
use knowbalance.Orchestration.Types.{
  Status, status_Eq, WorkerError, WorkerExecutionEnvelope, WorkerInvocation, WorkerResult,
}
use knowbalance.Orchestration.Contract.{
  expected_marker, push_if, next_is, status_state, is_given, is_malformed, id_missing, no_errors,
  expected_completed_next, valid, invalid, validate_envelope, validate_containers, validate_next,
  validate_identity, contract_errors, validate_worker_result,
}

pub push-nil_iff :
    (b : Bool) (e : WorkerError) (rest : List WorkerError)
    → (push_if b e ++ rest ≡ []) ↔ ((b ≡ false) × (rest ≡ []))
push-nil_iff b e rest = ground arith

pub push_last_iff : (b : Bool) (e : WorkerError) → (push_if b e ≡ []) ↔ (b ≡ false)
push_last_iff b e = ground arith

append-nil_iff : (xs ys : List WorkerError) → (xs ++ ys ≡ []) ↔ ((xs ≡ []) × (ys ≡ []))
append-nil_iff [] ys = (λ h. (refl, h), λ h. h.1)
append-nil_iff (x ∷ xs) ys = ground arith

next_is_iff : (next : Option State) (s : State) → (next_is next s ≡ true) ↔ (next ≡ some s)
next_is_iff none s = ground arith
next_is_iff (some t) s = ground (arith, state_Eq.beq_iff t s)

-- What the contract asks of a result, field by field.
module _ {N : Number} {Unknown : Type 0} (invocation : WorkerInvocation N Unknown)
    (result : WorkerResult N Unknown) where
  pub record HasIdentity : Type 0 where
    pub schema_version : result.schema_version ≡ "1.0"
    pub run_id : result.run_id ≡ invocation.run_id
    pub step_index : result.step_index ≡ invocation.step_index
    pub worker : result.worker ≡ invocation.worker
    pub stage : result.stage ≡ invocation.stage
    pub marker : result.marker ≡ expected_marker result.worker

  pub record HasEnvelope (execution : WorkerExecutionEnvelope) : Type 0 where
    pub present : result.execution ≡ some execution
    pub worker : execution.worker ≡ invocation.worker
    pub status : execution.status ≡ result.status
    pub identified : id_missing execution.execution_id ≡ false
    pub marker : execution.marker ≡ expected_marker invocation.worker

  pub record HasContainers : Type 0 where
    pub artifacts : is_given result.artifacts ≡ true
    pub output_refs : is_given result.output_refs ≡ true
    pub evidence_refs : is_given result.evidence_refs ≡ true
    pub errors : is_given result.errors ≡ true
    pub persistence_events : is_malformed result.persistence_events ≡ false
    pub mastery_updates : is_malformed result.mastery_updates ≡ false
    pub learned_facts_about_user : is_malformed result.learned_facts_about_user ≡ false
    pub clarification_requests : is_malformed result.clarification_requests ≡ false
    pub next_step_recommendation : is_malformed result.next_step_recommendation ≡ false

  -- A completed worker points to the next stage; another one points to its status, with an error.
  pub record HasNext : Type 0 where
    pub completed :
        result.status ≡ Status.completed
        → result.next ≡ some (expected_completed_next invocation.stage)
    pub stopped : result.status ≢ Status.completed → result.next ≡ some (status_state result.status)
    pub explained : result.status ≢ Status.completed → no_errors result.errors ≡ false

  identity_sound : validate_identity invocation result ≡ [] → HasIdentity
  unfolding validate_identity
  identity_sound h0 =
      let (schema, h1) = (push-nil_iff _ _ _).0 h0 in
      let (run, h2) = (push-nil_iff _ _ _).0 h1 in
      let (index, h3) = (push-nil_iff _ _ _).0 h2 in
      let (who, h4) = (push-nil_iff _ _ _).0 h3 in
      let (where_, h5) = (push-nil_iff _ _ _).0 h4 in
      record {
        schema_version = (ne-false_iff _ _).0 schema;
        run_id = (ne-false_iff _ _).0 run;
        step_index = (ne-false_iff _ _).0 index;
        worker = (ne-false_iff _ _).0 who;
        stage = (ne-false_iff _ _).0 where_;
        marker = (ne-false_iff _ _).0 ((push_last_iff _ _).0 h5);
      }

  identity_complete : HasIdentity → validate_identity invocation result ≡ []
  unfolding validate_identity
  identity_complete h = (push-nil_iff _ _ _).1 (
    (ne-false_iff _ _).1 h.schema_version,
    (push-nil_iff _ _ _).1 (
      (ne-false_iff _ _).1 h.run_id,
      (push-nil_iff _ _ _).1 (
        (ne-false_iff _ _).1 h.step_index,
        (push-nil_iff _ _ _).1 (
          (ne-false_iff _ _).1 h.worker,
          (push-nil_iff _ _ _).1
              ((ne-false_iff _ _).1 h.stage, (push_last_iff _ _).1 ((ne-false_iff _ _).1 h.marker)),
        ),
      ),
    ),
  )

  containers_iff : (validate_containers invocation result ≡ []) ↔ HasContainers
  unfolding validate_containers
  containers_iff = (λ h. ground arith, λ h. ground arith)

  envelope_sound :
      (execution : Option WorkerExecutionEnvelope)
      → result.execution ≡ execution
      → validate_envelope invocation result execution ≡ []
      → (e : WorkerExecutionEnvelope) × HasEnvelope e
  unfolding validate_envelope
  envelope_sound none p h = absurd (ground arith)
  envelope_sound (some e) p h0 =
      let (who, h1) = (push-nil_iff _ _ _).0 h0 in
      let (state, h2) = (push-nil_iff _ _ _).0 h1 in
      let (named, h3) = (push-nil_iff _ _ _).0 h2 in
      (
        e,
        record {
          present = p;
          worker = (ne-false_iff _ _).0 who;
          status = (ne-false_iff _ _).0 state;
          identified = named;
          marker = (ne-false_iff _ _).0 ((push_last_iff _ _).0 h3);
        },
      )

  envelope_complete :
      (e : WorkerExecutionEnvelope)
      → HasEnvelope e
      → validate_envelope invocation result (some e) ≡ []
  unfolding validate_envelope
  envelope_complete e h = (push-nil_iff _ _ _).1 (
    (ne-false_iff _ _).1 h.worker,
    (push-nil_iff _ _ _).1 (
      (ne-false_iff _ _).1 h.status,
      (push-nil_iff _ _ _).1 (h.identified, (push_last_iff _ _).1 ((ne-false_iff _ _).1 h.marker)),
    ),
  )

  next_sound : validate_next invocation result ≡ [] → HasNext
  unfolding validate_next
  next_sound h =
      let to = next_is_iff result.next in
      let status = status_Eq.beq_iff result.status Status.completed in
      record {
        completed = λ done. ground (arith, to (expected_completed_next invocation.stage));
        stopped = λ other. ground (arith, status, to (status_state result.status));
        explained = λ other. ground (arith, status);
      }

  next_complete : HasNext → validate_next invocation result ≡ []
  unfolding validate_next
  next_complete h = elim (Bool-cases (status_Eq.beq result.status Status.completed)) [
    | inl done ↦
        let e = h.completed ((status_Eq.beq_iff _ _).0 done) in
        rw done ((push_last_iff _ _).1 (ground (arith, (next_is_iff result.next _).1 e)))
    | inr open_ ↦
        let other : result.status ≢ Status.completed =
          λ p. ground (arith, status_Eq.beq_iff result.status Status.completed) in
        rw open_ (
          (push-nil_iff _ _ _).1 (
            ground (arith, (next_is_iff result.next _).1 (h.stopped other)),
            (push_last_iff _ _).1 (h.explained other),
          ))
  ]

  -- The whole contract.
  pub record Conforms : Type 0 where
    pub identity : HasIdentity
    pub envelope : (e : WorkerExecutionEnvelope) × HasEnvelope e
    pub containers : HasContainers
    pub next : HasNext

  errors_sound : contract_errors invocation result ≡ [] → Conforms
  unfolding contract_errors
  errors_sound h0 =
      let (identity, h1) = (append-nil_iff _ _).0 h0 in
      let (envelope, h2) = (append-nil_iff _ _).0 h1 in
      let (containers, next) = (append-nil_iff _ _).0 h2 in
      record {
        identity = identity_sound identity;
        envelope = envelope_sound result.execution refl envelope;
        containers = containers_iff.0 containers;
        next = next_sound next;
      }

  errors_complete : Conforms → contract_errors invocation result ≡ []
  unfolding contract_errors
  errors_complete c =
      let (e, fits) = c.envelope in
      let envelope : validate_envelope invocation result result.execution ≡ [] =
        rw fits.present (envelope_complete e fits) in
      (append-nil_iff _ _).1 (
        identity_complete c.identity,
        (append-nil_iff _ _).1 (
          envelope,
          (append-nil_iff _ _).1 (containers_iff.1 c.containers, next_complete c.next),
        ),
      )

-- A result passes `validateWorkerResult` unchanged exactly when it meets the contract: its identity
-- is that of the invocation, its execution envelope agrees with it, its containers have the right
-- shape, and its `next` fits the stage and the status.
pub validate_worker_result-Conforms :
    {N : Number} {Unknown : Type 0} (invocation : WorkerInvocation N Unknown)
    (result : WorkerResult N Unknown)
    → (validate_worker_result invocation result ≡ valid result) ↔ Conforms invocation result
unfolding validate_worker_result
validate_worker_result-Conforms invocation result = (
  λ h. errors_sound invocation result (ground arith),
  λ c. rw (errors_complete invocation result c),
)

-- A result passes `validateWorkerResult` unchanged, or it is refused with at least one error, so the
-- runner's `errors[0]` is there.
pub validate_worker_result-cases :
    {N : Number} {Unknown : Type 0} (invocation : WorkerInvocation N Unknown)
    (result : WorkerResult N Unknown)
    → (validate_worker_result invocation result ≡ valid result)
      ⊎ ((first : WorkerError) × (rest : List WorkerError) × (validate_worker_result invocation
              result
            ≡ invalid (first ∷ rest)))
unfolding validate_worker_result
validate_worker_result-cases invocation result = go (contract_errors invocation result) refl
  where
    go :
        (es : List WorkerError)
        → contract_errors invocation result ≡ es
        → (validate_worker_result invocation result ≡ valid result)
          ⊎ ((first : WorkerError) × (rest : List WorkerError) × (validate_worker_result invocation
                  result
                ≡ invalid (first ∷ rest)))
    go [] p = inl (rw p)
    go (first ∷ rest) p = inr (first, rest, rw p)
