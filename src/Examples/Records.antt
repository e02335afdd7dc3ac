-- ===== src/Examples/Records.antt =====
-- Runs of the learner memory, the planning loop and the checkpoint store.
use knowbalance.Prelude.{
  ◌≡◌, ◌≢◌, refl, String, false, ◌&&◌, none, some, List, [], ◌∷◌, ◌++◌, includes, string_Eq, ◌==◌,
  if◌then◌else◌, or_else, All,
}
use knowbalance.Prelude.Dict.{lookup, insert, HasDistinctKeys, holds}
use knowbalance.Prelude.Number.{millionths, millionths-IsOrder, IsUnit}
use knowbalance.Orchestration.States.{Worker}
use knowbalance.Orchestration.Types.{
  PersistenceEvent, mastery_update, session_completed, by_worker, learning_orchestrator,
  LearnerMemorySnapshot,
}
use knowbalance.Orchestration.Memory.{
  append_persistence_events, is_mastered, is_weak, load_learner_memory, save_learner_memory,
  empty_memory,
}
use knowbalance.Orchestration.Memory.Laws.{
  last_mastery, append_persistence_events_lem, append_persistence_events-IsOrder,
  append_persistence_events-replay,
}
use knowbalance.Orchestration.Memory.Files.{load-save}
use knowbalance.Examples.Codec.{percents, percents-IsOrder, disk, disk-IsFaithful}
use knowbalance.Orchestration.Planning.{
  ContinueResult, awaiting_input, next_path_node, run_dynamic_planning_loop, returned, thrown,
  decision_of, round_of, LoopDecision, run_dynamic_planning_loop-one_round,
}
use knowbalance.Content.Checkpoint.{
  branches_ready, concept_ready, PipelineCheckpoint, saved, load_checkpoint, save_checkpoint,
  delete_checkpoint,
}
use knowbalance.Content.Checkpoint.Laws.{AllComplete, save_checkpoint-load}

abbrev events : List (PersistenceEvent millionths)
events =
    mastery_update (by_worker Worker.tiered_evaluator) "K007" 250000 "quiz"
    ∷ session_completed learning_orchestrator "session-1" "done"
    ∷ mastery_update (by_worker Worker.tiered_evaluator) "K007" 1860000 "lab"
    ∷ []

abbrev memory : LearnerMemorySnapshot millionths
memory = record (empty_memory "learner-1") {
  mastery_by_source_id = ("K007", 500000) ∷ ("K009", 300000) ∷ [];
}

append_persistence_events_lem_example :
    let next = append_persistence_events memory events "now" in
    let found = lookup "K007" next.mastery_by_source_id in
    (found ≡ or_else (last_mastery "K007" events) (lookup "K007" memory.mastery_by_source_id))
    × HasDistinctKeys next.mastery_by_source_id
    × (includes next.mastered_source_ids "K007" ≡ holds (is_mastered millionths) found)
    × (includes next.weak_source_ids "K007" ≡ holds (is_weak millionths) found)
append_persistence_events_lem_example =
    append_persistence_events_lem memory events "now" "K007" refl

append_persistence_events-IsOrder_example :
    let next = append_persistence_events memory events "now" in
    ((includes next.mastered_source_ids "K009" && includes next.weak_source_ids "K009") ≡ false)
    × All (λ entry. IsUnit millionths entry.1) next.mastery_by_source_id
append_persistence_events-IsOrder_example =
    append_persistence_events-IsOrder memory events "now" "K009" millionths-IsOrder refl
      ((refl, refl), ((refl, refl), tt))

append_persistence_events-replay_example :
    let again =
      append_persistence_events
        (append_persistence_events memory events "t")
        (events ++ events)
        "u" in
    let once = append_persistence_events memory (events ++ events) "u" in
    (lookup "K007" again.mastery_by_source_id ≡ lookup "K007" once.mastery_by_source_id)
    × (again.completed_sessions ≡ once.completed_sessions)
append_persistence_events-replay_example =
    append_persistence_events-replay memory events events "t" "u" "K007"

abbrev stored_memory : LearnerMemorySnapshot percents
stored_memory = record (empty_memory "learner-1") { mastery_by_source_id = ("K007", 50) ∷ [] }

abbrev new_events : List (PersistenceEvent percents)
new_events = mastery_update (by_worker Worker.tiered_evaluator) "K007" 86 "lab" ∷ []

load-save_example :
    let next = append_persistence_events stored_memory new_events "now" in
    load_learner_memory disk "root" (save_learner_memory disk "root" [] next).0 "learner_2" ≡ (
      if stored_memory.learner_id == "learner_2"
      then next
      else load_learner_memory disk "root" [] "learner_2")
unfolding empty_memory
load-save_example =
    load-save disk "root" [] stored_memory new_events "now" "learner_2" percents-IsOrder
      disk-IsFaithful refl ((refl, refl), tt) refl refl

abbrev continue_after_submission : String → ContinueResult
continue_after_submission submission = awaiting_input (next_path_node ∷ [])

run_dynamic_planning_loop-one_round_example :
    let result = continue_after_submission "first" in
    (run_dynamic_planning_loop continue_after_submission (some 3) "first"
      ≡ returned (record {
        status = decision_of result;
        rounds = round_of 1 "first" result ∷ [];
        final_decision = decision_of result;
        final_round = some (round_of 1 "first" result);
        latest_result = some result;
      }))
    × (decision_of result ≢ LoopDecision.completed)
    × (run_dynamic_planning_loop continue_after_submission (some 0) "first"
        ≡ thrown "DYNAMIC_PLANNING_MAX_ROUNDS_INVALID")
run_dynamic_planning_loop-one_round_example =
    run_dynamic_planning_loop-one_round continue_after_submission 2 "first"

abbrev first : String
first = "h1"

abbrev second : String
second = "h2"

abbrev checkpoint : PipelineCheckpoint String String String
checkpoint = record {
  input_hash = "h1";
  stage = branches_ready;
  concept = "lesson";
  code_lab = some "lab";
  assessment = some "form";
}

abbrev before : List (String × PipelineCheckpoint String String String)
before =
    ("h2", record checkpoint { input_hash = "h2"; stage = concept_ready; code_lab = none }) ∷ []

abbrev after : List (String × PipelineCheckpoint String String String)
after =
    ("h2", record checkpoint { input_hash = "h2"; stage = concept_ready; code_lab = none })
    ∷ ("h1", checkpoint)
    ∷ []

save_checkpoint-runs : save_checkpoint before checkpoint ≡ saved after
unfolding save_checkpoint insert
save_checkpoint-runs = refl

save_checkpoint-load_example :
    (load_checkpoint after first
      ≡ (if checkpoint.input_hash == first then some checkpoint else load_checkpoint before first))
    × (load_checkpoint (delete_checkpoint after second) first
        ≡ (if second == first then none else load_checkpoint after first))
    × AllComplete after
    × AllComplete (delete_checkpoint after second)
save_checkpoint-load_example =
    save_checkpoint-load before checkpoint second first (refl, tt) save_checkpoint-runs
