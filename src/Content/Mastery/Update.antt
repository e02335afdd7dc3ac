-- ===== src/Content/Mastery/Update.antt =====
-- src/role-c-content/mastery/beta-mastery.ts: the update of mastery states from evidence events.
-- Parameters: the schema validation, which gives the paths of its issues where it fails, and the
-- order of `localeCompare`.
pub mod Replay
use knowbalance.Prelude.{
  ℕ, ◌+◌, ◌≡◌, refl, String, Bool, true, false, not, ◌&&◌, ◌||◌, Option, none, some, List, [], ◌∷◌,
  ◌++◌, map, foldl, filter, sort, length, nat_eq, string_Eq, nat_Eq, ◌==◌, ◌!=◌, includes, unique,
  is_distinct, if◌then◌else◌, or_default, or_else, is_empty,
}
use knowbalance.Prelude.Text.{concat, join}
use knowbalance.Prelude.Dict.{lookup, insert}
use knowbalance.Prelude.Number.{Number, num_max, num_min}
use knowbalance.Content.Policy.{
  Action, reinforce, ActionInput, NextActionDecision, decide_next_action,
}
use knowbalance.Content.Mastery.{
  Modality, modality_Eq, EvidenceEvent, ObjectiveMasteryState, MasteryStateWrite, Attempt, ok,
  thrown, key_of, Store, state_key, save_batch,
}

-- A bucket of `groupEvidenceBatches`: its first event and the later ones.
pub record Batch (N : Number) : Type 0 where
  pub first : EvidenceEvent N
  pub later : List (EvidenceEvent N)

pub record MasteryUpdateResult (N : Number) : Type 0 where
  pub states : List (ObjectiveMasteryState N)
  pub decisions : List (String × NextActionDecision N)

pub record MasteryUpdatePlan (N : Number) : Type 0 where
  pub result : MasteryUpdateResult N
  pub writes : List (MasteryStateWrite N)

-- The maps that the loop over the batches fills.
pub record Staged (N : Number) : Type 0 where
  pub final_states : List (String × ObjectiveMasteryState N)
  pub initial_revisions : List (String × ℕ)
  pub decisions : List (String × NextActionDecision N)

-- `value` is no number exactly when it is not equal to itself; `Math.max` and `Math.min` keep it.
unfoldable pub clamp01 : (N : Number) → N.Num → N.Num
clamp01 N value =
    if N.le value value then num_max N (N.integer 0) (num_min N (N.integer 1) value) else value

unfoldable pub round : (N : Number) → N.Num → N.Num
round N value = N.div (N.round (N.mul value (N.integer 1000000))) (N.integer 1000000)

abbrev pub is_sufficient : List Modality → Bool
is_sufficient modalities = includes modalities Modality.code || includes modalities Modality.trace

abbrev pub first_revision : List (String × ℕ) → String → ℕ → List (String × ℕ)
first_revision revisions key revision = elim (lookup key revisions) [
  | none ↦ insert key revision revisions
  | some r ↦ revisions
]

module _ {N : Number} where
  unfoldable pub evidence_key : EvidenceEvent N → String
  evidence_key event = concat (
      event.learner_id_hash ∷ "\0" ∷ event.profile_version ∷ "\0" ∷ event.objective_id ∷ "\0"
      ∷ event.idempotency_key ∷ [])

  abbrev pub add_to_bucket : Option (Batch N) → EvidenceEvent N → Batch N
  add_to_bucket none event = record { first = event; later = [] }
  add_to_bucket (some batch) event = record batch { later = batch.later ++ event ∷ [] }

  unfoldable pub group_evidence_batches : List (EvidenceEvent N) → List (Batch N)
  unfolding evidence_key
  group_evidence_batches events =
      map (λ entry. entry.1)
        (foldl
          (λ groups event.
            insert (evidence_key event) (add_to_bucket (lookup (evidence_key event) groups) event)
              groups)
          [] events)

  abbrev pub batch_events : Batch N → List (EvidenceEvent N)
  batch_events batch = batch.first ∷ batch.later

  abbrev pub initial_state : EvidenceEvent N → ObjectiveMasteryState N
  initial_state event = record {
    schema_version = "1.0";
    learner_id_hash = event.learner_id_hash;
    profile_version = event.profile_version;
    objective_id = event.objective_id;
    alpha = N.integer 1;
    beta = N.integer 1;
    mastery = N.hundredths 50;
    evidence_batches = 0;
    observed_modalities = [];
    processed_artifact_ids = some [];
    last_action = reinforce;
    revision = 0;
  }

  abbrev pub event_key : EvidenceEvent N → String
  event_key event = key_of event.learner_id_hash event.profile_version event.objective_id

  abbrev pub processed : ObjectiveMasteryState N → List String
  processed state = or_default state.processed_artifact_ids []

  -- `base`: the staged state, else the stored one, else the initial one.
  abbrev pub base_from :
      EvidenceEvent N → Option (ObjectiveMasteryState N) → ObjectiveMasteryState N
  base_from first none = initial_state first
  base_from first (some existing) = record existing {
    processed_artifact_ids = some (processed existing);
  }

  abbrev pub action_input : N.Num → List Modality → Action → ActionInput N
  action_input mastery modalities previous = record {
    mastery = mastery;
    sufficient_modalities = is_sufficient modalities;
    profile_conflict_count = none;
    previous_action = some previous;
  }

  -- The state after a batch that is not in the ledger, and the decision it makes.
  unfoldable pub next_state :
      ObjectiveMasteryState N
      → Batch N
      → (initial_revision : ℕ) → ObjectiveMasteryState N × NextActionDecision N
  next_state base batch initial_revision =
      let events = batch_events batch in
      let evidence = clamp01 N (
        N.div (foldl (λ sum event. N.add sum event.evidence_score) (N.integer 0) events)
          (N.integer (length events))) in
      let modalities = unique (base.observed_modalities ++ map (λ event. event.modality) events) in
      let alpha = N.add base.alpha evidence in
      let beta = N.add base.beta (N.sub (N.integer 1) evidence) in
      let mastery = N.div alpha (N.add alpha beta) in
      let decided = decide_next_action N (action_input mastery modalities base.last_action) in
      (
        record base {
          alpha = round N alpha;
          beta = round N beta;
          mastery = round N mastery;
          evidence_batches = base.evidence_batches + 1;
          observed_modalities = modalities;
          processed_artifact_ids = some (processed base ++ batch.first.idempotency_key ∷ []);
          last_action = decided.action;
          revision = initial_revision + 1;
        },
        decided,
      )

  -- One turn of the loop on the state `base`.
  unfoldable pub stage_batch : Staged N → Batch N → ObjectiveMasteryState N → Staged N
  stage_batch staged batch base =
      let key = event_key batch.first in
      let revisions = first_revision staged.initial_revisions key base.revision in
      let next = next_state base batch (or_default (lookup key revisions) 0) in
      if includes (processed base) batch.first.idempotency_key
      then record {
        final_states = insert key base staged.final_states;
        initial_revisions = revisions;
        decisions =
            insert base.objective_id
              (decide_next_action N
                (action_input base.mastery base.observed_modalities base.last_action))
              staged.decisions;
      }
      else record {
        final_states = insert key next.0 staged.final_states;
        initial_revisions = revisions;
        decisions = insert next.0.objective_id next.1 staged.decisions;
      }

  unfoldable pub apply_batch : Store N → Staged N → Batch N → Attempt (Staged N)
  apply_batch store staged batch =
      let key = event_key batch.first in
      if not (is_distinct (map (λ event. event.item_id) (batch_events batch)))
      then thrown (concat ("DUPLICATE_EVIDENCE_ITEM_IN_BATCH:" ∷ batch.first.idempotency_key ∷ []))
      else ok (
          stage_batch staged batch
            (base_from batch.first (or_else (lookup key staged.final_states) (lookup key store))))

  unfoldable pub apply_batches : Store N → Staged N → List (Batch N) → Attempt (Staged N)
  apply_batches store staged [] = ok staged
  apply_batches store staged (batch ∷ batches) = elim (apply_batch store staged batch) [
    | ok next ↦ apply_batches store next batches
    | thrown message ↦ thrown message
  ]

  abbrev pub no_states : Staged N
  no_states = record { final_states = []; initial_revisions = []; decisions = [] }

  module _ (schema_issues : EvidenceEvent N → Option (List String))
      (locale_le : String → String → Bool) where
    -- The first loop: the message that it throws, if it does.
    unfoldable pub check_events : List String → List (EvidenceEvent N) → Option String
    check_events seen [] = none
    check_events seen (event ∷ events) = elim (schema_issues event) [
      | some paths ↦ some (concat ("INVALID_LEARNING_EVIDENCE:" ∷ join "," paths ∷ []))
      | none ↦
          let rest = check_events (seen ++ event.event_id ∷ []) events in
          if includes seen event.event_id
          then some (concat ("DUPLICATE_LEARNING_EVIDENCE:" ∷ event.event_id ∷ []))
          else rest
    ]

    abbrev pub changed : Staged N → ObjectiveMasteryState N → Bool
    changed staged state = not (elim (lookup (state_key state) staged.initial_revisions) [
      | none ↦ false
      | some revision ↦ state.revision == revision
    ])

    unfoldable pub plan_of : Staged N → MasteryUpdatePlan N
    plan_of staged =
        let states =
          sort (λ left right. locale_le left.objective_id right.objective_id)
            (map (λ entry. entry.1) staged.final_states) in
        record {
          result = record { states = states; decisions = staged.decisions };
          writes =
              map
                (λ state. record {
                  state = state;
                  expected_revision =
                      or_default (lookup (state_key state) staged.initial_revisions) 0;
                })
                (filter (changed staged) states);
        }

    unfoldable pub prepare_mastery_update :
        List (EvidenceEvent N) → Store N → Attempt (MasteryUpdatePlan N)
    prepare_mastery_update events store = elim (check_events [] events) [
      | some message ↦ thrown message
      | none ↦ elim (apply_batches store no_states (group_evidence_batches events)) [
        | ok staged ↦ ok (plan_of staged)
        | thrown message ↦ thrown message
      ]
    ]

    -- The result and the store after the commit.
    unfoldable pub commit_mastery_update_plan :
        MasteryUpdatePlan N → Store N → Attempt (MasteryUpdateResult N × Store N)
    commit_mastery_update_plan plan store =
        if is_empty plan.writes
        then ok (plan.result, store)
        else elim (save_batch store plan.writes) [
          | ok saved ↦ ok (plan.result, saved)
          | thrown message ↦ thrown message
        ]

    unfoldable pub update_mastery_from_evidence :
        List (EvidenceEvent N) → Store N → Attempt (MasteryUpdateResult N × Store N)
    update_mastery_from_evidence events store = elim (prepare_mastery_update events store) [
      | ok plan ↦ commit_mastery_update_plan plan store
      | thrown message ↦ thrown message
    ]
