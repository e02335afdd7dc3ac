-- ===== src/Content/Mastery.antt =====
-- src/role-c-content/mastery/beta-mastery.ts and contracts/learning-evidence-event.ts: the mastery
-- states and the in-memory store. A revision is a natural number, so the tests on a negative or
-- fractional revision have nothing to refuse; the test of a safe integer is kept.
pub mod Update
pub mod Drift
pub mod Laws
use knowbalance.Prelude.{
  ℕ, zero, suc, ◌+◌, ◌≡◌, refl, String, Bool, true, false, not, ◌&&◌, Option, none, some, List, [],
  ◌∷◌, map, all, leb, nat_eq, string_Eq, nat_Eq, Eq, index_Eq, ◌==◌, if◌then◌else◌, is_distinct,
}
use knowbalance.Prelude.Text.{concat}
use knowbalance.Prelude.Dict.{lookup, insert}
use knowbalance.Prelude.Number.{Number}
use knowbalance.Content.Policy.{Action}

pub data Modality : Type 0 where
  mcq true_false trace short_answer code : Modality

abbrev pub modality_index : Modality → ℕ
modality_index mcq = 0
modality_index true_false = 1
modality_index trace = 2
modality_index short_answer = 3
modality_index code = 4

abbrev pub modality_at : ℕ → Modality
modality_at zero = mcq
modality_at (suc zero) = true_false
modality_at (suc (suc zero)) = trace
modality_at (suc (suc (suc zero))) = short_answer
modality_at _ = code

pub modality_at-index : (m : Modality) → modality_at (modality_index m) ≡ m
modality_at-index mcq = refl
modality_at-index _ = refl

instance abbrev pub modality_Eq : Eq Modality
modality_Eq = index_Eq modality_index modality_at modality_at-index

-- The fields of `LearningEvidenceEvent` that the mastery update reads.
pub record EvidenceEvent (N : Number) : Type 0 where
  pub event_id : String
  pub learner_id_hash : String
  pub profile_version : String
  pub objective_id : String
  pub modality : Modality
  pub evidence_score : N.Num
  pub idempotency_key : String
  pub item_id : String

-- `processed_artifact_ids` is `none` in a state that was written before the ledger was introduced.
pub record ObjectiveMasteryState (N : Number) : Type 0 where
  pub schema_version : String
  pub learner_id_hash : String
  pub profile_version : String
  pub objective_id : String
  pub alpha : N.Num
  pub beta : N.Num
  pub mastery : N.Num
  pub evidence_batches : ℕ
  pub observed_modalities : List Modality
  pub processed_artifact_ids : Option (List String)
  pub last_action : Action
  pub revision : ℕ

pub record MasteryStateWrite (N : Number) : Type 0 where
  pub state : ObjectiveMasteryState N
  pub expected_revision : ℕ

-- What an operation returns, or the message of the error that it throws.
pub data Attempt (A : Type 0) : Type 0 where
  ok : A → Attempt A
  thrown : (message : String) → Attempt A

unfoldable pub key_of : (learner profile objective : String) → String
key_of learner profile objective = concat (learner ∷ "\0" ∷ profile ∷ "\0" ∷ objective ∷ [])

-- The `Map` of `InMemoryMasteryStateStore`.
abbrev pub Store : Number → Type 0
Store N = List (String × ObjectiveMasteryState N)

-- `Number.isSafeInteger` on a natural number
abbrev pub is_safe : ℕ → Bool
is_safe n = leb n 9007199254740991

module _ {N : Number} where
  abbrev pub state_key : ObjectiveMasteryState N → String
  state_key state = key_of state.learner_id_hash state.profile_version state.objective_id

  abbrev pub write_key : MasteryStateWrite N → String
  write_key write = state_key write.state

  abbrev pub revision_of : Option (ObjectiveMasteryState N) → ℕ
  revision_of none = 0
  revision_of (some state) = state.revision

  -- `assertRevisionStep` passes.
  unfoldable pub is_revision_step : MasteryStateWrite N → Bool
  is_revision_step write =
      is_safe write.expected_revision
      && (is_safe write.state.revision && write.state.revision == write.expected_revision + 1)

  -- `assertUniqueWrites` passes.
  unfoldable pub has_unique_writes : List (MasteryStateWrite N) → Bool
  has_unique_writes writes = is_distinct (map write_key writes)

  unfoldable pub is_expected : Store N → MasteryStateWrite N → Bool
  is_expected states write =
      revision_of (lookup (write_key write) states) == write.expected_revision

  unfoldable pub write_all : Store N → List (MasteryStateWrite N) → Store N
  write_all states [] = states
  write_all states (write ∷ writes) = write_all (insert (write_key write) write.state states) writes

  unfoldable pub load :
      Store N → (learner profile objective : String) → Option (ObjectiveMasteryState N)
  load states learner profile objective = lookup (key_of learner profile objective) states

  -- `saveBatch`: the store after it; where it throws, the store is as it was.
  unfoldable pub save_batch : Store N → List (MasteryStateWrite N) → Attempt (Store N)
  save_batch states writes =
      if not (has_unique_writes writes)
      then thrown "MASTERY_DUPLICATE_BATCH_WRITE"
      else if not (all is_revision_step writes)
      then thrown "MASTERY_REVISION_STEP_INVALID"
      else if not (all (is_expected states) writes)
      then thrown "MASTERY_REVISION_CONFLICT"
      else ok (write_all states writes)

  unfoldable pub save : Store N → ObjectiveMasteryState N → ℕ → Attempt (Store N)
  save states state expected_revision =
      save_batch states (record { state = state; expected_revision = expected_revision } ∷ [])
