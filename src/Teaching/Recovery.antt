-- ===== src/Teaching/Recovery.antt =====
-- src/role-b-profile/teaching-audit/path-planner.ts. Parameters: the source ids of
-- `canonicalizeConcept` in the knowledge base, `normalizeSemanticText`, the test `includes` of a
-- text, `localeCompare` and the clock.
pub mod Laws
use knowbalance.Prelude.{
  ℕ, zero, suc, ◌+◌, String, Bool, true, false, not, ◌&&◌, ◌||◌, Option, none, some, List, [], ◌∷◌,
  ◌++◌, map, filter, find, any, take, sort, length, ltb, leb, nat_eq, string_Eq, nat_Eq, ◌==◌,
  includes, unique, if◌then◌else◌, is_empty, or_default, is_some,
}
use knowbalance.Prelude.Text.{concat, join, show_nat}
use knowbalance.Teaching.Progress.{Level, level_index, LearnerProfile}

pub record KnowledgeItem : Type 0 where
  pub source_id : String
  pub title : String
  pub difficulty : Level
  pub keywords : List String
  pub prerequisites : List String

-- The failed dimensions of an audit, and the other parts of its result that are read.
pub data AuditDimension : Type 0 where
  difficulty_alignment prerequisite_coverage weak_concept_coverage goal_alignment : AuditDimension

pub record AuditResult : Type 0 where
  pub failed_dimensions : List AuditDimension
  pub missing_prerequisite_source_ids : List String
  pub recommended_level : Option Level

pub record CurrentPath : Type 0 where
  pub target_source_ids : List String
  pub goal : String

pub data Behavior : Type 0 where
  recognize apply create : Behavior

pub record RecoveryObjective : Type 0 where
  pub objective_id : String
  pub source_id : String
  pub required_fact_ids : List String
  pub observable_behavior : Behavior
  pub importance : String

pub record Blueprint : Type 0 where
  pub tier_1_count : ℕ
  pub tier_2_count : ℕ
  pub tier_3_count : ℕ
  pub required_modalities : List String

pub record RecoveryNode : Type 0 where
  pub schema_version : String
  pub node_id : String
  pub target_source_ids : List String
  pub prerequisite_source_ids : List String
  pub goal : String
  pub objectives : List RecoveryObjective
  pub assessment_blueprint : Blueprint

pub record RecoveryPath : Type 0 where
  pub path_node : RecoveryNode
  pub rationale : String
  pub requires_new_rag : Bool

pub record Scored : Type 0 where
  pub item : KnowledgeItem
  pub semantic_score : ℕ
  pub difficulty_score : ℕ

abbrev pub is_prerequisite : AuditDimension → Bool
is_prerequisite prerequisite_coverage = true
is_prerequisite _ = false

abbrev pub is_difficulty : AuditDimension → Bool
is_difficulty difficulty_alignment = true
is_difficulty _ = false

abbrev pub behavior_at : ℕ → Behavior
behavior_at zero = recognize
behavior_at (suc zero) = apply
behavior_at (suc (suc n)) = create

abbrev pub ids_of : List KnowledgeItem → List String
ids_of items = map (λ item. item.source_id) items

abbrev pub titles_of : List KnowledgeItem → List String
titles_of items = map (λ item. item.title) items

unfoldable pub objectives_from : ℕ → List KnowledgeItem → List RecoveryObjective
objectives_from index [] = []
objectives_from index (item ∷ items) =
    record {
      objective_id = concat ("RO" ∷ show_nat (index + 1) ∷ []);
      source_id = item.source_id;
      required_fact_ids = [];
      observable_behavior = behavior_at index;
      importance = "core";
    }
    ∷ objectives_from (suc index) items

abbrev pub blueprint_for : ℕ → Blueprint
blueprint_for count =
    if leb 3 count
    then record {
      tier_1_count = 2;
      tier_2_count = 2;
      tier_3_count = 1;
      required_modalities = "mcq" ∷ "trace" ∷ "code" ∷ [];
    }
    else if nat_eq count 2
    then record {
      tier_1_count = 1;
      tier_2_count = 1;
      tier_3_count = 0;
      required_modalities = "mcq" ∷ "trace" ∷ [];
    }
    else record {
      tier_1_count = 1;
      tier_2_count = 0;
      tier_3_count = 0;
      required_modalities = "mcq" ∷ [];
    }

-- `xs.flatMap(f)`
abbrev pub flat_map : {A : Type 0} {B : Type 0} → (A → List B) → List A → List B
flat_map f [] = []
flat_map f (x ∷ xs) = f x ++ flat_map f xs

abbrev pub add_found : Option KnowledgeItem → List KnowledgeItem → List KnowledgeItem
add_found none items = items
add_found (some item) items = item ∷ items

-- The items that are found under the ids, in the order of the ids.
unfoldable pub items_by_id : List KnowledgeItem → List String → List KnowledgeItem
items_by_id kb [] = []
items_by_id kb (id ∷ ids) =
    add_found (find (λ (item : KnowledgeItem). item.source_id == id) kb) (items_by_id kb ids)

abbrev pub current_targets : Option CurrentPath → List String
current_targets none = []
current_targets (some path) = path.target_source_ids

abbrev pub current_goal : LearnerProfile → Option CurrentPath → String
current_goal profile none = profile.goal
current_goal profile (some path) = path.goal

module _ (date_now : String) where
  unfoldable pub build_path_result : List KnowledgeItem → String → String → Bool → RecoveryPath
  build_path_result items goal rationale requires_new_rag =
      let targets = ids_of items in
      record {
        path_node = record {
          schema_version = "1.0";
          node_id =
              if is_empty targets
              then concat ("RECOVERY-UNSUPPORTED-" ∷ date_now ∷ [])
              else concat ("RECOVERY-" ∷ join "-" targets ∷ "-" ∷ date_now ∷ []);
          target_source_ids = targets;
          prerequisite_source_ids = unique (
              filter (λ id. not (includes targets id))
                (flat_map (λ item. item.prerequisites) items));
          goal = goal;
          objectives = objectives_from 0 items;
          assessment_blueprint = blueprint_for (length items);
        };
        rationale = rationale;
        requires_new_rag = requires_new_rag;
      }

  unfoldable pub build_unsupported_path_result : String → String → RecoveryPath
  build_unsupported_path_result goal rationale =
      build_path_result [] goal (concat (rationale ∷ "无法自动规划恢复路径，请扩充知识库或调整学习目标。" ∷ [])) false

  abbrev pub prerequisite_result :
      List KnowledgeItem → LearnerProfile → Option CurrentPath → RecoveryPath
  prerequisite_result [] profile current =
      build_path_result [] (current_goal profile current) "缺失的前置知识点在知识库中不存在，无法自动规划路径。请人工检查知识库完整性。"
        (is_some current)
  prerequisite_result (item ∷ items) profile current =
      build_path_result (item ∷ items) profile.goal
        (concat (
          "前置知识缺失，先学习 "
          ∷ join "、" (map (λ i. concat (i.source_id ∷ " " ∷ i.title ∷ [])) (item ∷ items))
          ∷ "。原目标知识点需在掌握前置知识后学习。"
          ∷ []))
        (is_some current)

  module _ (canonicalize : String → List String) (normalize : String → String)
      (contains : String → String → Bool) (locale_le : String → String → Bool)
      (text_length : String → ℕ) where
    -- Whether `sourceIdsRelevantToGoal` has the id of an item of the knowledge base.
    unfoldable pub is_goal_relevant : String → List KnowledgeItem → String → Bool
    is_goal_relevant goal kb id =
        includes (canonicalize goal) id
        || (not (nat_eq (text_length (normalize goal)) 0)
            && any
                (λ (item : KnowledgeItem).
                  item.source_id == id
                  && any (λ term. leb 2 (text_length term) && contains (normalize goal) term)
                      (map normalize (item.title ∷ item.keywords)))
                kb)

    unfoldable pub score_item :
        LearnerProfile → List KnowledgeItem → String → KnowledgeItem → Scored
    score_item profile kb goal item =
        let weak = flat_map canonicalize profile.weak_concepts in
        let level = level_index profile.level in
        record {
          item = item;
          semantic_score =
              (if includes weak item.source_id then 4 else 0)
              + (if is_goal_relevant goal kb item.source_id then 2 else 0);
          difficulty_score =
              if nat_eq (level_index item.difficulty) level
                || nat_eq (level_index item.difficulty) (level + 1)
              then 1
              else 0;
        }

    -- The comparison of two relevant items: `a` does not come after `b`.
    unfoldable pub ranks_before : Scored → Scored → Bool
    ranks_before a b =
        ltb b.semantic_score a.semantic_score
        || (nat_eq a.semantic_score b.semantic_score
            && (ltb b.difficulty_score a.difficulty_score
                || (nat_eq a.difficulty_score b.difficulty_score
                    && locale_le a.item.source_id b.item.source_id)))

    unfoldable pub select_best_targets :
        List KnowledgeItem → LearnerProfile → List KnowledgeItem → String → ℕ → List KnowledgeItem
    select_best_targets candidates profile kb goal max_count =
        map (λ (entry : Scored). entry.item)
          (take max_count (
            sort ranks_before (
              filter (λ (entry : Scored). ltb 0 entry.semantic_score)
                (map (score_item profile kb goal) candidates))))

    -- The path of the selected items, or the unsupported path where none is selected.
    abbrev pub selected_path :
        List KnowledgeItem → String → String → (String → String) → RecoveryPath
    selected_path [] goal unsupported rationale = build_unsupported_path_result goal unsupported
    selected_path (item ∷ items) goal unsupported rationale =
        build_path_result (item ∷ items) goal (rationale (join "、" (titles_of (item ∷ items)))) true

    -- The candidates up to a difficulty that are no current targets.
    abbrev pub candidates_up_to : ℕ → List String → List KnowledgeItem → List KnowledgeItem
    candidates_up_to level excluded kb =
        filter
          (λ item.
            not (includes excluded item.source_id) && leb (level_index item.difficulty) level)
          kb

    unfoldable pub plan_lower_difficulty_path :
        (level_name : Level → String)
        → LearnerProfile
        → List KnowledgeItem
        → Level
        → String
        → List String
        → RecoveryPath
    plan_lower_difficulty_path level_name profile kb level goal excluded =
        selected_path
          (select_best_targets (candidates_up_to (level_index level) excluded kb) profile kb goal 3)
          goal (concat ("当前知识库中没有与学习目标或薄弱点相关、且不高于 " ∷ level_name level ∷ " 级别的可用知识点。" ∷ []))
          (λ titles.
            concat ("难度不匹配，推荐降至 " ∷ level_name level ∷ " 级别重新学习。新路径包含 " ∷ titles ∷ "。" ∷ []))

    unfoldable pub plan_adjusted_content_path :
        LearnerProfile → List KnowledgeItem → String → List String → RecoveryPath
    plan_adjusted_content_path profile kb goal excluded =
        selected_path
          (select_best_targets (candidates_up_to (level_index profile.level + 1) excluded kb)
            profile kb goal 3)
          goal "当前知识库中没有与学习目标或薄弱点相关的替代知识点。"
          (λ titles. concat ("薄弱点/目标对齐问题：原教学内容已替换为 " ∷ titles ∷ "，覆盖学习者薄弱点并匹配学习目标。" ∷ []))

    -- The path for the recommended level, or the other one where none is recommended.
    abbrev pub lower_or :
        (level_name : Level → String)
        → LearnerProfile
        → List KnowledgeItem
        → String
        → List String
        → RecoveryPath
        → Option Level
        → RecoveryPath
    lower_or level_name profile kb goal excluded other none = other
    lower_or level_name profile kb goal excluded other (some level) =
        plan_lower_difficulty_path level_name profile kb level goal excluded

    unfoldable pub plan_recovery_path :
        (level_name : Level → String)
        → LearnerProfile
        → List KnowledgeItem
        → AuditResult
        → Option CurrentPath
        → RecoveryPath
    plan_recovery_path level_name profile kb audit current =
        let excluded = current_targets current in
        let goal = current_goal profile current in
        let adjusted = plan_adjusted_content_path profile kb goal excluded in
        if any is_prerequisite audit.failed_dimensions
          && not (is_empty audit.missing_prerequisite_source_ids)
        then prerequisite_result (items_by_id kb audit.missing_prerequisite_source_ids) profile
            current
        else if any is_difficulty audit.failed_dimensions
        then lower_or level_name profile kb goal excluded adjusted audit.recommended_level
        else adjusted
