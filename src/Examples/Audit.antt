-- ===== src/Examples/Audit.antt =====
-- Runs of the arbitration and of the learning progress.
use knowbalance.Prelude.{
  ◌+◌, ◌≤◌, ◌<◌, ◌≡◌, ◌↔◌, ◌⊎◌, refl, String, Bool, true, false, none, some, List, [], ◌∷◌, length,
  any, is_empty, string_Eq, ◌==◌,
}
use knowbalance.Prelude.Number.{millionths}
use knowbalance.Content.Policy.{advance}
use knowbalance.Teaching.Arbitration.{
  AuditStatus, pass, revise, ArbitrationInput, arbitrate, max_revision_rounds,
}
use knowbalance.Teaching.Arbitration.Laws.{
  revise_until, arbitrate-decision_iff, revise_until-bounded,
}
use knowbalance.Teaching.Progress.{
  basic, level_index, LearnerProfile, ConceptEvidence, ProgressObservation, ConceptLists,
  ReceiveProgressResult, apply_evidence, new_level, is_action_advance, is_action_remediate,
  progress_result, apply_progress_observation, received, assert_observation,
}
use knowbalance.Teaching.Progress.Laws.{
  apply_evidence-mastered, apply_evidence-weak, new_level-steps, IsConsistent,
  apply_progress_observation-IsConsistent,
}

abbrev audits : ArbitrationInput
audits = record {
  artifact_id = "a1";
  fact_audit_status = pass;
  teaching_audit_status = revise;
  revision_round = 1;
}

arbitrate-decision_iff_example :
    let result = arbitrate audits in
    ((result.decision ≡ pass) ↔ ((pass ≡ pass) × (revise ≡ pass)))
    × ((result.decision ≡ revise) ↔ (
        (((pass ≡ revise) × (revise ≡ pass))
          ⊎ ((pass ≡ pass) × (revise ≡ revise))
          ⊎ ((pass ≡ revise) × (revise ≡ revise)))
        × (1 < max_revision_rounds)))
    × ((result.decision ≡ revise) ↔ (result.can_revise ≡ true))
    × ((is_empty result.fact_audit_notes ≡ true) ↔ (pass ≡ pass))
    × ((is_empty result.teaching_audit_notes ≡ true) ↔ (revise ≡ pass))
arbitrate-decision_iff_example = arbitrate-decision_iff audits

abbrev rounds : List (AuditStatus × AuditStatus)
rounds = (revise, pass) ∷ (revise, revise) ∷ (pass, revise) ∷ (pass, pass) ∷ []

revise_until-bounded_example : length (revise_until 0 rounds) ≤ 3
revise_until-bounded_example = revise_until-bounded rounds

abbrev same_concept : ConceptEvidence millionths → String → Bool
same_concept evidence concept = evidence.concept == concept

abbrev lists : ConceptLists
lists = record {
  known_concepts = "print" ∷ [];
  weak_concepts = "loop" ∷ [];
  known_added = [];
  known_promoted_from_weak = [];
  weak_added = [];
  weak_cleared = [];
}

abbrev strong : ConceptEvidence millionths
strong = record {
  source_id = "K007";
  concept = "loop";
  evidence_score = 900000;
  evidence_batches = 1000000;
}

abbrev poor : ConceptEvidence millionths
poor = record strong { concept = "print"; evidence_score = 100000 }

apply_evidence-mastered_example :
    let after = apply_evidence millionths same_concept lists strong in
    (any (same_concept strong) after.known_concepts ≡ true)
    × (any (same_concept strong) after.weak_concepts ≡ false)
apply_evidence-mastered_example =
    apply_evidence-mastered millionths same_concept lists strong refl refl

apply_evidence-weak_example :
    let after = apply_evidence millionths same_concept lists poor in
    (any (same_concept poor) after.weak_concepts ≡ true)
    × (any (same_concept poor) after.known_concepts ≡ false)
apply_evidence-weak_example =
    apply_evidence-weak millionths same_concept lists poor refl refl refl refl

abbrev observation : ProgressObservation millionths
observation = record {
  observation_id = "obs-1";
  action = advance;
  overall_accuracy = some 900000;
  mastery = record { objective_id = "obj-K007"; mastery = 900000; evidence_batches = 1000000 } ∷ [];
  concept_evidence = strong ∷ [];
}

new_level-steps_example :
    let new = new_level millionths observation basic in
    (new ≡ basic)
    ⊎ ((is_action_advance advance ≡ true) × (level_index new ≡ level_index basic + 1))
    ⊎ ((is_action_remediate advance ≡ true) × (level_index basic ≡ level_index new + 1))
new_level-steps_example = new_level-steps millionths observation basic

abbrev profile : LearnerProfile
profile = record {
  learner_id = "learner-1";
  level = basic;
  known_concepts = [];
  weak_concepts = "loop" ∷ [];
  goal = "for";
}

abbrev normalize : String → String
normalize text = text

abbrev result : ReceiveProgressResult
result = progress_result millionths normalize none observation profile "p1"

apply_progress_observation-runs :
    apply_progress_observation millionths normalize none observation profile "p1" ≡ received result
unfolding apply_progress_observation assert_observation
apply_progress_observation-runs = refl

profile-IsConsistent :
    IsConsistent millionths normalize profile.known_concepts profile.weak_concepts
profile-IsConsistent c = refl

apply_progress_observation-IsConsistent_example :
    IsConsistent millionths normalize result.profile.known_concepts result.profile.weak_concepts
    × (result.snapshot.known_concepts ≡ result.profile.known_concepts)
    × (result.snapshot.weak_concepts ≡ result.profile.weak_concepts)
    × (result.snapshot.level ≡ result.profile.level)
apply_progress_observation-IsConsistent_example =
    apply_progress_observation-IsConsistent millionths normalize observation profile "p1"
      profile-IsConsistent apply_progress_observation-runs
