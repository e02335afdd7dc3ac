-- ===== src/Teaching/Progress.antt =====
-- src/role-b-profile/teaching-audit/progress-receiver.ts, with the types of types.ts and of
-- role-b-profile/types.ts that it uses. Parameters: `normalize`, which is `trim().toLowerCase()`, and
-- the optional callback `conceptMatches`.
pub mod Laws
use Prim.Native.Char.{code}
use knowbalance.Prelude.{
  ℕ, zero, suc, ◌+◌, ◌-◌, ◌≡◌, refl, String, Bool, true, false, not, ◌&&◌, ◌||◌, Option, none, some,
  List, [], ◌∷◌, ◌++◌, map, filter, any, all, ltb, nat_eq, string_Eq, ◌==◌, ◌!=◌, Eq, index_Eq,
  if◌then◌else◌, is_empty, or_default, length,
}
use knowbalance.Prelude.Text.{concat, is_blank}
use knowbalance.Prelude.Number.{Number}
use knowbalance.Content.Policy.{Action, advance, remediate}

-- `KnowledgeDifficulty`
pub data Level : Type 0 where
  beginner basic intermediate integrated : Level

abbrev pub level_index : Level → ℕ
level_index beginner = 0
level_index basic = 1
level_index intermediate = 2
level_index integrated = 3

-- `LEVEL_ORDER[i]`
abbrev pub level_at : ℕ → Level
level_at zero = beginner
level_at (suc zero) = basic
level_at (suc (suc zero)) = intermediate
level_at _ = integrated

pub level_at-index : (l : Level) → level_at (level_index l) ≡ l
level_at-index beginner = refl
level_at-index _ = refl

instance abbrev pub level_Eq : Eq Level
level_Eq = index_Eq level_index level_at level_at-index

pub record LearnerProfile : Type 0 where
  pub learner_id : String
  pub level : Level
  pub known_concepts : List String
  pub weak_concepts : List String
  pub goal : String

pub record MasteryEntry (N : Number) : Type 0 where
  pub objective_id : String
  pub mastery : N.Num
  pub evidence_batches : N.Num

pub record ConceptEvidence (N : Number) : Type 0 where
  pub source_id : String
  pub concept : String
  pub evidence_score : N.Num
  pub evidence_batches : N.Num

pub record ProgressObservation (N : Number) : Type 0 where
  pub observation_id : String
  pub action : Action
  pub overall_accuracy : Option N.Num
  pub mastery : List (MasteryEntry N)
  pub concept_evidence : List (ConceptEvidence N)

pub record ProfileSnapshot : Type 0 where
  pub schema_version : String
  pub profile_id : String
  pub profile_version : String
  pub learner_id : String
  pub level : Level
  pub known_concepts : List String
  pub weak_concepts : List String
  pub goal : String
  pub preferred_contexts : List String
  pub accommodations : List String
  pub provenance_ref : String

-- The concept lists while the evidence is read: the profile's two and the four of the changes.
pub record ConceptLists : Type 0 where
  pub known_concepts : List String
  pub weak_concepts : List String
  pub known_added : List String
  pub known_promoted_from_weak : List String
  pub weak_added : List String
  pub weak_cleared : List String

pub record ProfileChanges : Type 0 where
  pub level_changed : Bool
  pub old_level : Level
  pub new_level : Level
  pub lists : ConceptLists

pub record ReceiveProgressResult : Type 0 where
  pub profile : LearnerProfile
  pub snapshot : ProfileSnapshot
  pub changes : ProfileChanges

pub data ProgressOutcome : Type 0 where
  received : ReceiveProgressResult → ProgressOutcome
  thrown : (message : String) → ProgressOutcome

-- The parts of `DynamicFeedbackResult` that are read.
pub record DynamicFeedback (N : Number) : Type 0 where
  pub feedback_id : String
  pub action : Action
  pub accuracy : N.Num
  pub mastery_snapshot : List (MasteryEntry N)

abbrev pub is_action_advance : Action → Bool
is_action_advance Action.advance = true
is_action_advance _ = false

abbrev pub is_action_remediate : Action → Bool
is_action_remediate Action.remediate = true
is_action_remediate _ = false

-- The text after a prefix, where it starts with it.
abbrev pub strip_prefix : String → String → Option String
strip_prefix String.[] text = some text
strip_prefix (String.◌∷◌ c cs) String.[] = none
strip_prefix (String.◌∷◌ c cs) (String.◌∷◌ d ds) =
    let rest = strip_prefix cs ds in if nat_eq (code c) (code d) then rest else none

module _ (N : Number) where
  abbrev pub mastery_threshold : N.Num
  mastery_threshold = N.hundredths 70

  abbrev pub weak_threshold : N.Num
  weak_threshold = N.hundredths 30

  abbrev pub level_up_mastery : N.Num
  level_up_mastery = N.hundredths 80

  -- `value` is no number from 0 to 1.
  abbrev pub is_out_of_unit : N.Num → Bool
  is_out_of_unit value =
      not (N.is_finite value) || (N.lt value (N.integer 0) || N.lt (N.integer 1) value)

  abbrev pub is_bad_mastery : MasteryEntry N → Bool
  is_bad_mastery entry =
      is_out_of_unit entry.mastery
      || (not (N.is_integer entry.evidence_batches) || N.lt entry.evidence_batches (N.integer 0))

  abbrev pub is_bad_evidence : ConceptEvidence N → Bool
  is_bad_evidence entry =
      is_blank entry.source_id
      || (is_blank entry.concept
          || (is_out_of_unit entry.evidence_score
              || (not (N.is_integer entry.evidence_batches)
                  || N.lt entry.evidence_batches (N.integer 1))))

  abbrev pub is_bad_accuracy : Option N.Num → Bool
  is_bad_accuracy none = false
  is_bad_accuracy (some accuracy) = is_out_of_unit accuracy

  -- The message that `assertObservation` throws, if it does.
  unfoldable pub assert_observation :
      ProgressObservation N → (profile_version : String) → Option String
  assert_observation observation profile_version =
      if is_blank observation.observation_id || is_blank profile_version
      then some "ROLE_B_PROGRESS_OBSERVATION_IDENTITY_EMPTY"
      else if is_bad_accuracy observation.overall_accuracy
      then some "ROLE_B_PROGRESS_OBSERVATION_ACCURACY_INVALID"
      else if any is_bad_mastery observation.mastery
      then some "ROLE_B_PROGRESS_OBSERVATION_MASTERY_INVALID"
      else if any is_bad_evidence observation.concept_evidence
      then some "ROLE_B_PROGRESS_OBSERVATION_CONCEPT_INVALID"
      else none

  module _ (matches : ConceptEvidence N → String → Bool) where
    -- The lists after evidence that the concept is mastered.
    abbrev pub apply_mastered : ConceptLists → ConceptEvidence N → ConceptLists
    apply_mastered lists evidence =
        let was_known = any (matches evidence) lists.known_concepts in
        let cleared = filter (matches evidence) lists.weak_concepts in
        let new = if was_known then [] else evidence.concept ∷ [] in
        record {
          known_concepts = lists.known_concepts ++ new;
          weak_concepts = filter (λ concept. not (matches evidence concept)) lists.weak_concepts;
          known_added = lists.known_added ++ (if is_empty cleared then new else []);
          known_promoted_from_weak =
              lists.known_promoted_from_weak ++ (if is_empty cleared then [] else new);
          weak_added = lists.weak_added;
          weak_cleared = lists.weak_cleared ++ cleared;
        }

    -- The lists after evidence that the concept is weak.
    abbrev pub apply_weak : ConceptLists → ConceptEvidence N → ConceptLists
    apply_weak lists evidence =
        let was_weak = any (matches evidence) lists.weak_concepts in
        let new = if was_weak then [] else evidence.concept ∷ [] in
        record {
          known_concepts = filter (λ concept. not (matches evidence concept)) lists.known_concepts;
          weak_concepts = lists.weak_concepts ++ new;
          known_added = lists.known_added;
          known_promoted_from_weak = lists.known_promoted_from_weak;
          weak_added = lists.weak_added ++ new;
          weak_cleared = lists.weak_cleared;
        }

    unfoldable pub apply_evidence : ConceptLists → ConceptEvidence N → ConceptLists
    apply_evidence lists evidence =
        if N.le mastery_threshold evidence.evidence_score
        then apply_mastered lists evidence
        else if N.le evidence.evidence_score weak_threshold
            && N.le (N.integer 1) evidence.evidence_batches
        then apply_weak lists evidence
        else lists

    unfoldable pub apply_all : ConceptLists → List (ConceptEvidence N) → ConceptLists
    apply_all lists [] = lists
    apply_all lists (evidence ∷ rest) = apply_all (apply_evidence lists evidence) rest

  abbrev pub holds_accuracy : (N.Num → Bool) → Option N.Num → Bool
  holds_accuracy test none = false
  holds_accuracy test (some accuracy) = test accuracy

  unfoldable pub new_level : ProgressObservation N → Level → Level
  new_level observation old =
      let index = level_index old in
      let all_mastered =
        not (is_empty observation.mastery)
        && all (λ entry. N.le mastery_threshold entry.mastery) observation.mastery in
      let raised =
        if is_action_advance observation.action
          && (all_mastered
              && holds_accuracy (λ a. N.le level_up_mastery a) observation.overall_accuracy)
        then (if ltb index 3 then level_at (index + 1) else old)
        else old in
      if is_action_remediate observation.action
        && holds_accuracy (λ a. N.lt a weak_threshold) observation.overall_accuracy
      then (if ltb 0 index then level_at (index - 1) else raised)
      else raised

  module _ (normalize : String → String)
      (concept_matches : Option (String → ConceptEvidence N → Bool)) where
    unfoldable pub concept_test : ConceptEvidence N → String → Bool
    concept_test evidence concept = elim concept_matches [
      | some test ↦ test concept evidence
      | none ↦ normalize concept == normalize evidence.concept
    ]

    abbrev pub start_lists : LearnerProfile → ConceptLists
    start_lists profile = record {
      known_concepts = profile.known_concepts;
      weak_concepts = profile.weak_concepts;
      known_added = [];
      known_promoted_from_weak = [];
      weak_added = [];
      weak_cleared = [];
    }

    -- What is returned once the observation is found to be valid.
    unfoldable pub progress_result :
        ProgressObservation N → LearnerProfile → (profile_version : String) → ReceiveProgressResult
    progress_result observation current profile_version =
        let lists = apply_all concept_test (start_lists current) observation.concept_evidence in
        let level = new_level observation current.level in
        let profile = record current {
          level = level;
          known_concepts = lists.known_concepts;
          weak_concepts = lists.weak_concepts;
        } in
        record {
          profile = profile;
          snapshot = record {
            schema_version = "1.0";
            profile_id = concat ("PROFILE-" ∷ current.learner_id ∷ "-" ∷ profile_version ∷ []);
            profile_version = profile_version;
            learner_id = current.learner_id;
            level = level;
            known_concepts = lists.known_concepts;
            weak_concepts = lists.weak_concepts;
            goal = current.goal;
            preferred_contexts = [];
            accommodations = [];
            provenance_ref = concat ("role-b:receive-progress:" ∷ observation.observation_id ∷ []);
          };
          changes = record {
            level_changed = current.level != level;
            old_level = current.level;
            new_level = level;
            lists = lists;
          };
        }

    unfoldable pub apply_progress_observation :
        ProgressObservation N → LearnerProfile → (profile_version : String) → ProgressOutcome
    apply_progress_observation observation current profile_version =
        elim (assert_observation observation profile_version) [
          | some message ↦ thrown message
          | none ↦ received (progress_result observation current profile_version)
        ]

    abbrev pub evidence_of : MasteryEntry N → ConceptEvidence N
    evidence_of entry =
        let source_id = or_default (strip_prefix "obj-" entry.objective_id) entry.objective_id in
        record {
          source_id = source_id;
          concept = source_id;
          evidence_score = entry.mastery;
          evidence_batches = entry.evidence_batches;
        }

    unfoldable pub receive_learning_progress :
        DynamicFeedback N → LearnerProfile → (profile_version : String) → ProgressOutcome
    receive_learning_progress feedback current profile_version =
        apply_progress_observation
          (record {
            observation_id = feedback.feedback_id;
            action = feedback.action;
            overall_accuracy = some feedback.accuracy;
            mastery = feedback.mastery_snapshot;
            concept_evidence =
                map evidence_of
                  (filter (λ entry. N.lt (N.integer 0) entry.mastery) feedback.mastery_snapshot);
          })
          current profile_version
