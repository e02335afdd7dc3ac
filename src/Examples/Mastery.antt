-- ===== src/Examples/Mastery.antt =====
-- Runs of the mastery store, the evidence batches, the next-action policy and the drift detection.
use knowbalance.Prelude.{
  ◌≤◌, ◌≡◌, ◌↔◌, ◌⊎◌, refl, String, true, false, ◌&&◌, none, some, List, [], ◌∷◌, includes,
  is_distinct, any, length, string_Eq, ◌==◌, or_else, or_default,
}
use knowbalance.Prelude.Dict.{lookup, insert}
use knowbalance.Prelude.Text.{concat}
use knowbalance.Prelude.Number.{millionths, millionths-IsOrder}
use knowbalance.Content.Policy.{
  Action, advance, remediate, ActionInput, decide_next_action, is_advance, is_remediate,
}
use knowbalance.Content.Policy.Laws.{repeated, decide_next_action-stable, decide_next_action-bands}
use knowbalance.Content.Mastery.{
  mcq, trace, EvidenceEvent, ObjectiveMasteryState, MasteryStateWrite, ok, thrown, Store, key_of,
  revision_of, save_batch, write_all, has_unique_writes, is_revision_step, is_expected,
}
use knowbalance.Content.Mastery.Laws.{
  written, written_revision, save_batch-compare_and_swap, save_batch-once,
}
use knowbalance.Content.Mastery.Update.{
  Batch, Staged, no_states, initial_state, event_key, base_from, stage_batch, apply_batch, round,
}
use knowbalance.Content.Mastery.Update.Replay.{apply_batch-idempotent}
use knowbalance.Content.Mastery.Drift.{
  known, weak, ProfileDriftSuggestion, DriftInput, is_conflict, detect_profile_drift,
}
use knowbalance.Content.Mastery.Drift.Laws.{detect_profile_drift-conflicts}

abbrev policy_input : ActionInput millionths
policy_input = record {
  mastery = 750000;
  sufficient_modalities = true;
  profile_conflict_count = none;
  previous_action = some advance;
}

decide_next_action-stable_example :
    (decide_next_action millionths (repeated policy_input)).action
    ≡ (decide_next_action millionths policy_input).action
decide_next_action-stable_example =
    decide_next_action-stable millionths millionths-IsOrder policy_input refl

decide_next_action-bands_example :
    let action = (decide_next_action millionths policy_input).action in
    ((action ≡ advance) ↔ (
      (true ≡ true)
      × ((millionths.lt 750000 820000 ≡ false)
          ⊎ ((is_advance (some advance) ≡ true) × (millionths.lt 750000 740000 ≡ false)))))
    × ((action ≡ remediate) ↔ (
        (millionths.lt 750000 580000 ≡ true)
        ⊎ ((is_remediate (some advance) ≡ true) × (millionths.lt 750000 660000 ≡ true))))
decide_next_action-bands_example =
    decide_next_action-bands millionths millionths-IsOrder policy_input refl refl

abbrev event : EvidenceEvent millionths
event = record {
  event_id = "e1";
  learner_id_hash = "l";
  profile_version = "p1";
  objective_id = "obj-K007";
  modality = trace;
  evidence_score = 900000;
  idempotency_key = "batch-1";
  item_id = "i1";
}

abbrev state : ObjectiveMasteryState millionths
state = record (initial_state event) { revision = 1 }

abbrev write : MasteryStateWrite millionths
write = record { state = state; expected_revision = 0 }

abbrev other_state : ObjectiveMasteryState millionths
other_state = record state { objective_id = "obj-K009"; revision = 3 }

abbrev store : Store millionths
store = (key_of "l" "p1" "obj-K009", other_state) ∷ []

abbrev after : Store millionths
after = (key_of "l" "p1" "obj-K009", other_state) ∷ (key_of "l" "p1" "obj-K007", state) ∷ []

save_batch-runs : save_batch store (write ∷ []) ≡ ok after
unfolding save_batch write_all insert has_unique_writes is_revision_step is_expected lookup key_of
    concat
save_batch-runs = refl

save_batch-compare_and_swap_example :
    (lookup "k" after ≡ or_else (written "k" (write ∷ [])) (lookup "k" store))
    × (revision_of (lookup "k" after)
        ≡ written_revision (written "k" (write ∷ [])) (revision_of (lookup "k" store)))
save_batch-compare_and_swap_example =
    save_batch-compare_and_swap store (write ∷ []) save_batch-runs "k"

save_batch-once_example : save_batch after (write ∷ []) ≡ thrown "MASTERY_REVISION_CONFLICT"
save_batch-once_example = save_batch-once store write [] save_batch-runs

abbrev batch : Batch millionths
batch = record {
  first = event;
  later = record event { event_id = "e2"; item_id = "i2"; modality = mcq } ∷ [];
}

abbrev staged : Staged millionths
staged =
    stage_batch no_states batch (base_from event (or_else none (lookup (event_key event) store)))

apply_batch-runs : apply_batch store no_states batch ≡ ok staged
unfolding apply_batch lookup
apply_batch-runs = refl

apply_batch-idempotent_example :
    (again : Staged millionths) × (apply_batch store staged batch ≡ ok again)
    × (lookup "k" again.final_states ≡ lookup "k" staged.final_states)
apply_batch-idempotent_example = apply_batch-idempotent store no_states batch "k" apply_batch-runs

abbrev drift_input : DriftInput millionths
drift_input = record {
  learner_id_hash = "l";
  profile_version = "p1";
  observations =
      record { objective_id = "o1"; expected = known; mastery = 200000 }
      ∷ record { objective_id = "o2"; expected = weak; mastery = 950000 }
      ∷ record { objective_id = "o1"; expected = known; mastery = 100000 }
      ∷ record { objective_id = "o3"; expected = known; mastery = 800000 }
      ∷ [];
  minimum_conflicts = none;
}

abbrev stable_id : String → String → String → List String → String
stable_id prefix learner profile objectives = prefix

abbrev suggestion : ProfileDriftSuggestion millionths
suggestion = record {
  schema_version = "1.0";
  suggestion_id = "PDS";
  learner_id_hash = "l";
  profile_version = "p1";
  conflicting_objective_ids = "o1" ∷ "o2" ∷ [];
  reason_codes = "repeated_profile_evidence_conflict" ∷ "profile_refresh_recommended" ∷ [];
  confidence = 860000;
  action = Action.reprofile;
}

detect_profile_drift-runs : detect_profile_drift millionths stable_id drift_input ≡ some suggestion
unfolding detect_profile_drift round
detect_profile_drift-runs = refl

detect_profile_drift-conflicts_example :
    ((id : String)
      → includes suggestion.conflicting_objective_ids id
        ≡ any (λ o. o.objective_id == id && is_conflict millionths o) drift_input.observations)
    × (is_distinct suggestion.conflicting_objective_ids ≡ true)
    × (or_default drift_input.minimum_conflicts 2 ≤ length suggestion.conflicting_objective_ids)
detect_profile_drift-conflicts_example =
    detect_profile_drift-conflicts millionths stable_id drift_input detect_profile_drift-runs
