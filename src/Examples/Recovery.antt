-- ===== src/Examples/Recovery.antt =====
-- A run of the recovery path planning.
use knowbalance.Prelude.{String, Bool, Option, some, List, [], ◌∷◌, ℕ, string_Eq, ◌==◌}
use knowbalance.Prelude.Text.{text_le}
use knowbalance.Teaching.Progress.{Level, beginner, basic, LearnerProfile}
use knowbalance.Teaching.Recovery.{
  KnowledgeItem, AuditResult, CurrentPath, difficulty_alignment, plan_recovery_path,
}
use knowbalance.Teaching.Recovery.Laws.{IsSound, plan_recovery_path-IsSound}

abbrev learner : LearnerProfile
learner = record {
  learner_id = "learner-1";
  level = basic;
  known_concepts = "print" ∷ [];
  weak_concepts = "K007" ∷ [];
  goal = "loops";
}

abbrev knowledge : List KnowledgeItem
knowledge =
    record {
      source_id = "K006";
      title = "if";
      difficulty = beginner;
      keywords = [];
      prerequisites = [];
    }
    ∷ record {
      source_id = "K007";
      title = "for";
      difficulty = basic;
      keywords = [];
      prerequisites = "K006" ∷ [];
    }
    ∷ []

abbrev audit_result : AuditResult
audit_result = record {
  failed_dimensions = difficulty_alignment ∷ [];
  missing_prerequisite_source_ids = [];
  recommended_level = some basic;
}

abbrev current_path : Option CurrentPath
current_path = some (record { target_source_ids = "K009" ∷ []; goal = "loops" })

abbrev canonical_ids : String → List String
canonical_ids text = text ∷ []

abbrev same_text : String → String
same_text text = text

abbrev equal_text : String → String → Bool
equal_text text part = text == part

abbrev level_text : Level → String
level_text level = "basic"

abbrev two : String → ℕ
two text = 2

plan_recovery_path-IsSound_example : IsSound knowledge (
    plan_recovery_path "0" canonical_ids same_text equal_text text_le two level_text learner
      knowledge audit_result current_path)
plan_recovery_path-IsSound_example =
    plan_recovery_path-IsSound "0" canonical_ids same_text equal_text text_le two learner knowledge
      level_text audit_result current_path
