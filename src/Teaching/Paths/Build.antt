-- ===== src/Teaching/Paths/Build.antt =====
-- src/role-b-profile/teaching-audit/formal-path.ts: the construction of a path. Parameters: the
-- source ids of `canonicalizeConcept` in the knowledge base, `toLowerCase`, `localeCompare` and the
-- readings of the clock.

pub mod Fuel
pub mod Closure
pub mod Laws
use knowbalance.Prelude.{
  ℕ, zero, suc, ◌+◌, String, Bool, true, false, not, ◌&&◌, ◌||◌, Option, none, some, List, [], ◌∷◌,
  ◌++◌, map, foldl, filter, find, any, sort, length, ltb, leb, nat_eq, string_Eq, nat_Eq, ◌==◌,
  ◌!=◌, includes, add_new, if◌then◌else◌, is_empty,
}
use knowbalance.Prelude.Text.{
  concat, show_nat, contains_text, text_length, remove_chars, all_chars, is_space,
}
use knowbalance.Prelude.Dict.{insert}
use knowbalance.Content.Mastery.{Modality}
use knowbalance.Teaching.Progress.{LearnerProfile, level_index}
use knowbalance.Teaching.Recovery.{KnowledgeItem}
use knowbalance.Teaching.Paths.{
  ObservableBehavior, Importance, core, LearnerProfileSnapshot, FormalPathNodeStatus, pending,
  FormalPathNode, FormalLearningPath,
}

abbrev pub composite_project_ids : List String
composite_project_ids = "K018" ∷ []

abbrev pub composite_project_keywords : List String
composite_project_keywords = "综合项目" ∷ "成绩统计" ∷ "成绩统计器" ∷ "综合" ∷ []

-- The characters that `normalizeSemantic` removes.
abbrev pub is_separator : ℕ → Bool
is_separator c =
    is_space c
    || includes
        (0xff0c ∷ 0x2c ∷ 0x3001 ∷ 0x3002 ∷ 0xff01 ∷ 0xff1f ∷ 0xff1b ∷ 0xff1a ∷ 0x22 ∷ 0x27 ∷ 0x60
          ∷ 0xff08 ∷ 0xff09 ∷ 0x28 ∷ 0x29 ∷ 0x5b ∷ 0x5d ∷ 0x7b ∷ 0x7d ∷ 0x2d ∷ 0x5f ∷ 0x2f ∷ [])
        c

abbrev pub is_ascii_word : ℕ → Bool
is_ascii_word c = leb 0x61 c && leb c 0x7a || leb 0x30 c && leb c 0x39

unfoldable pub find_item : List KnowledgeItem → String → Option KnowledgeItem
find_item kb id = find (λ (item : KnowledgeItem). item.source_id == id) kb

-- `ids.map(find).filter(item != null)`
unfoldable pub items_of_ids : List KnowledgeItem → List String → List KnowledgeItem
items_of_ids kb [] = []
items_of_ids kb (id ∷ ids) = elim (find_item kb id) [
  | none ↦ items_of_ids kb ids
  | some item ↦ item ∷ items_of_ids kb ids
]

unfoldable pub without_composite : Bool → List KnowledgeItem → List KnowledgeItem
without_composite is_composite items =
    if is_composite
    then items
    else filter (λ (item : KnowledgeItem). not (includes composite_project_ids item.source_id))
        items

-- The node of one item.
unfoldable pub create_formal_node :
    (date_now : ℕ → ℕ)
    → KnowledgeItem
    → (goal : String) → (stage_order : ℕ) → FormalPathNodeStatus
    → FormalPathNode
create_formal_node date_now item goal stage_order status = record {
  node = record {
    schema_version = "1.0";
    node_id = concat (
        "FN-"
        ∷ item.source_id
        ∷ "-S"
        ∷ show_nat stage_order
        ∷ "-"
        ∷ show_nat (date_now stage_order)
        ∷ []);
    target_source_ids = item.source_id ∷ [];
    prerequisite_source_ids = filter (λ pid. pid != item.source_id) item.prerequisites;
    goal = goal;
    objectives =
        record {
          objective_id = concat ("OBJ-" ∷ item.source_id ∷ []);
          source_id = item.source_id;
          required_fact_ids = [];
          observable_behavior =
              if leb stage_order 3 then ObservableBehavior.recognize else ObservableBehavior.apply;
          importance = core;
        }
        ∷ [];
    assessment_blueprint = record {
      tier_1_count = 2;
      tier_2_count = 2;
      tier_3_count = 1;
      required_modalities = Modality.mcq ∷ Modality.trace ∷ Modality.code ∷ [];
    };
  };
  status = status;
  stage_order = stage_order;
}

-- The nodes of a list of items, whose stages count on from a number.
unfoldable pub create_nodes :
    (date_now : ℕ → ℕ) → String → ℕ → List KnowledgeItem → List FormalPathNode
create_nodes date_now goal stage [] = []
create_nodes date_now goal stage (item ∷ items) =
    create_formal_node date_now item goal stage pending
    ∷ create_nodes date_now goal (suc stage) items

-- The state of the loop that collects the prerequisites.
pub record Collected : Type 0 where
  pub visited : List String
  pub all_prereqs : List (String × KnowledgeItem)
  pub pending : List KnowledgeItem

module _ (kb : List KnowledgeItem) (is_known : String → Bool) where
  -- A prerequisite that is not yet visited, with its item.
  unfoldable pub add_prerequisite : String → Option KnowledgeItem → Collected → Collected
  add_prerequisite id none c = record c { visited = c.visited ++ id ∷ [] }
  add_prerequisite id (some item) c =
      if is_known id then record c { visited = c.visited ++ id ∷ [] } else record {
        visited = c.visited ++ id ∷ [];
        all_prereqs = insert id item c.all_prereqs;
        pending = c.pending ++ item ∷ [];
      }

  unfoldable pub visit : Collected → String → Collected
  visit c id = if includes c.visited id then c else add_prerequisite id (find_item kb id) c

  -- The `while` loop; `none` where the fuel ends before it does.
  unfoldable pub collect_prerequisites : ℕ → Collected → Option (List (String × KnowledgeItem))
  collect_prerequisites zero c = none
  collect_prerequisites (suc fuel) c = elim c.pending [
    | [] ↦ some c.all_prereqs
    | item ∷ rest ↦
        collect_prerequisites fuel (foldl visit (record c { pending = rest }) item.prerequisites)
  ]

abbrev pub source_ids_of : List KnowledgeItem → List String
source_ids_of items = map (λ (item : KnowledgeItem). item.source_id) items

abbrev pub start_collect : List KnowledgeItem → Collected
start_collect goal_items = record {
  visited = foldl add_new [] (source_ids_of goal_items);
  all_prereqs = [];
  pending = goal_items;
}

-- The comparison of both sorts, as a test that the first item does not come later.
unfoldable pub ranks_first :
    (locale_le : String → String → Bool) → KnowledgeItem → KnowledgeItem → Bool
ranks_first locale_le a b =
    ltb (level_index a.difficulty) (level_index b.difficulty)
    || nat_eq (level_index a.difficulty) (level_index b.difficulty)
      && locale_le a.source_id b.source_id

module _ (canonicalize : String → List String) (lower : String → String)
    (locale_le : String → String → Bool) (date_now : ℕ → ℕ) where
  abbrev pub normalize_semantic : String → String
  normalize_semantic value = remove_chars is_separator (lower value)

  -- Whether a normalized title or keyword is long enough to be searched in the goal.
  unfoldable pub is_searchable : String → Bool
  is_searchable term =
      leb 2 (text_length term) && not (all_chars is_ascii_word term && ltb (text_length term) 4)

  unfoldable pub is_relevant : (normalized_goal : String) → KnowledgeItem → Bool
  is_relevant normalized_goal item =
      any (contains_text normalized_goal)
        (filter is_searchable (map normalize_semantic (item.title ∷ item.keywords)))

  unfoldable pub source_ids_relevant_to_goal : String → List KnowledgeItem → List String
  source_ids_relevant_to_goal goal kb =
      let normalized = normalize_semantic goal in
      if nat_eq (text_length normalized) 0
      then []
      else foldl add_new [] (source_ids_of (filter (is_relevant normalized) kb))

  unfoldable pub knows : LearnerProfile → String → Bool
  knows profile id = any (λ concept. includes (canonicalize concept) id) profile.known_concepts

  unfoldable pub resolve_goal_items :
      LearnerProfile
      → List KnowledgeItem
      → (original_goal normalized_goal : String) → (goal_source_ids : List String)
      → List KnowledgeItem
  resolve_goal_items profile kb original_goal normalized_goal (id ∷ ids) =
      let is_composite =
        any (λ keyword. contains_text normalized_goal (normalize_semantic keyword))
          composite_project_keywords in
      without_composite is_composite (items_of_ids kb (id ∷ ids))
  resolve_goal_items profile kb original_goal normalized_goal [] =
      let is_composite =
        any (λ keyword. contains_text normalized_goal (normalize_semantic keyword))
          composite_project_keywords in
      without_composite is_composite (
        items_of_ids kb (
          foldl (λ ids concept. foldl add_new ids (canonicalize concept))
            (source_ids_relevant_to_goal original_goal kb) profile.weak_concepts))

  -- The nodes of the prerequisites that were collected, then those of the goal.
  unfoldable pub nodes_in_order :
      LearnerProfile
      → List KnowledgeItem
      → String
      → List (String × KnowledgeItem)
      → List FormalPathNode
  nodes_in_order profile goal_items original_goal all_prereqs =
      let prerequisites =
        filter (λ (item : KnowledgeItem). not (knows profile item.source_id))
          (sort (ranks_first locale_le) (map (λ entry. entry.1) all_prereqs)) in
      create_nodes date_now original_goal 1
        (prerequisites ++ sort (ranks_first locale_le) goal_items)

  unfoldable pub build_ordered_nodes :
      LearnerProfile
      → List KnowledgeItem
      → (goal_items : List KnowledgeItem) → String
      → Option (List FormalPathNode)
  build_ordered_nodes profile kb [] original_goal = some []
  build_ordered_nodes profile kb (item ∷ items) original_goal =
      let fuel = suc (length (item ∷ items) + length kb) in
      elim (collect_prerequisites kb (knows profile) fuel (start_collect (item ∷ items))) [
        | none ↦ none
        | some all_prereqs ↦ some (nodes_in_order profile (item ∷ items) original_goal all_prereqs)
      ]

  unfoldable pub path_of :
      LearnerProfile
      → LearnerProfileSnapshot
      → String
      → String
      → List FormalPathNode
      → FormalLearningPath
  path_of profile snapshot now original_goal nodes = record {
    path_id = concat ("PATH-" ∷ profile.learner_id ∷ "-" ∷ show_nat (date_now 0) ∷ []);
    learner_id = profile.learner_id;
    original_goal = original_goal;
    nodes = nodes;
    current_node_index = none;
    profile_snapshot = snapshot;
    created_at = now;
    updated_at = now;
  }

  -- `learnerProfile.goal || "掌握编程基础"`
  abbrev pub goal_or_default : String → String
  goal_or_default goal = if goal == "" then "掌握编程基础" else goal

  -- `none` only where the fuel of the collection ends early.
  unfoldable pub build_formal_path :
      LearnerProfile
      → List KnowledgeItem
      → LearnerProfileSnapshot
      → (goal_source_ids : List String) → (now : String) → Option FormalLearningPath
  build_formal_path profile kb snapshot goal_source_ids now =
      let original_goal = goal_or_default profile.goal in
      let goal_items =
        resolve_goal_items profile kb original_goal (normalize_semantic original_goal)
          goal_source_ids in
      elim (build_ordered_nodes profile kb goal_items original_goal) [
        | none ↦ none
        | some nodes ↦ some (path_of profile snapshot now original_goal nodes)
      ]
