-- ===== src/Content/Mastery/Drift.antt =====
-- src/role-c-content/mastery/beta-mastery.ts: `detectProfileDrift`. `stableId`, which hashes its
-- argument, is a parameter.
pub mod Laws
use knowbalance.Prelude.{
  ℕ, ◌*◌, String, Bool, ◌&&◌, ◌||◌, Option, none, some, List, [], ◌∷◌, map, filter, length, ltb,
  string_Eq, unique, if◌then◌else◌, or_default,
}
use knowbalance.Prelude.Number.{Number, num_min}
use knowbalance.Content.Policy.{Action, reprofile}
use knowbalance.Content.Mastery.Update.{round}

pub data Expected : Type 0 where
  known weak : Expected

pub record ProfileExpectationObservation (N : Number) : Type 0 where
  pub objective_id : String
  pub expected : Expected
  pub mastery : N.Num

pub record ProfileDriftSuggestion (N : Number) : Type 0 where
  pub schema_version : String
  pub suggestion_id : String
  pub learner_id_hash : String
  pub profile_version : String
  pub conflicting_objective_ids : List String
  pub reason_codes : List String
  pub confidence : N.Num
  pub action : Action

pub record DriftInput (N : Number) : Type 0 where
  pub learner_id_hash : String
  pub profile_version : String
  pub observations : List (ProfileExpectationObservation N)
  pub minimum_conflicts : Option ℕ

module _ (N : Number) where
  abbrev pub contradicts : Expected → N.Num → Bool
  contradicts known mastery = N.lt mastery (N.hundredths 45)
  contradicts weak mastery = N.lt (N.hundredths 85) mastery

  abbrev pub is_conflict : ProfileExpectationObservation N → Bool
  is_conflict observation = contradicts observation.expected observation.mastery

  module _ (stable_id : (prefix learner profile : String) (objectives : List String) → String) where
    unfoldable pub detect_profile_drift : DriftInput N → Option (ProfileDriftSuggestion N)
    detect_profile_drift input =
        let objective_ids =
          unique (map (λ o. o.objective_id) (filter is_conflict input.observations)) in
        if ltb (length objective_ids) (or_default input.minimum_conflicts 2)
        then none
        else some (record {
          schema_version = "1.0";
          suggestion_id = stable_id "PDS" input.learner_id_hash input.profile_version objective_ids;
          learner_id_hash = input.learner_id_hash;
          profile_version = input.profile_version;
          conflicting_objective_ids = objective_ids;
          reason_codes = "repeated_profile_evidence_conflict" ∷ "profile_refresh_recommended" ∷ [];
          confidence = round N (
              num_min N (N.hundredths 95) (
                N.add (N.hundredths 70)
                  (N.mul (N.integer (length objective_ids)) (N.hundredths 8))));
          action = reprofile;
        })
