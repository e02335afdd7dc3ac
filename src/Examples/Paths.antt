-- ===== src/Examples/Paths.antt =====
-- Runs of formal learning paths.
use knowbalance.Teaching.Paths.Build.{create_formal_node}
use knowbalance.Teaching.Paths.{mark}
use knowbalance.Prelude.Dict.{insert}
use knowbalance.Prelude.Sorting.{sort}
use knowbalance.Teaching.Paths.Build.{create_nodes}
use knowbalance.Teaching.Paths.Build.{nodes_in_order}
use knowbalance.Teaching.Paths.Build.{path_of}
use knowbalance.Teaching.Paths.{node_at}
use knowbalance.Teaching.Paths.Build.{add_prerequisite}
use knowbalance.Teaching.Paths.Build.{visit}
use knowbalance.Teaching.Paths.Build.{collect_prerequisites}
use knowbalance.Teaching.Paths.Build.{find_item}
use knowbalance.Teaching.Paths.Build.{items_of_ids}
use knowbalance.Teaching.Paths.Build.{without_composite}
use knowbalance.Teaching.Paths.Build.{resolve_goal_items}
use knowbalance.Teaching.Paths.Build.{build_ordered_nodes}
use knowbalance.Prelude.{ℕ, ◌≡◌, refl, String, true, Option, none, some, List, [], ◌∷◌, is_some}
use knowbalance.Prelude.Text.{text_le}
use knowbalance.Content.Policy.{advance}
use knowbalance.Teaching.Progress.{LearnerProfile, beginner, basic}
use knowbalance.Teaching.Recovery.{KnowledgeItem}
use knowbalance.Teaching.Paths.{
  LearnerProfileSnapshot, FormalLearningPath, start_path, advance_to_next_node,
}
use knowbalance.Teaching.Paths.Laws.{IsAdvanced, advance_to_next_node-IsAdvanced}
use knowbalance.Teaching.Paths.Build.{build_formal_path, knows}
use knowbalance.Teaching.Paths.Build.Fuel.{build_formal_path-ends}
use knowbalance.Teaching.Paths.Build.Closure.{is_excused}
use knowbalance.Teaching.Paths.Build.Laws.{
  covers_prerequisites, is_numbered, build_formal_path-covers,
}

abbrev profile : LearnerProfile
profile = record {
  learner_id = "L1";
  level = beginner;
  known_concepts = [];
  weak_concepts = "loop" ∷ [];
  goal = "loop";
}

abbrev snapshot : LearnerProfileSnapshot
snapshot = record {
  schema_version = "1.0";
  profile_id = "P1";
  profile_version = "v1";
  learner_id = "L1";
  level = beginner;
  known_concepts = [];
  weak_concepts = "loop" ∷ [];
  goal = "loop";
  preferred_contexts = [];
  accommodations = [];
  provenance_ref = none;
}

abbrev variable : KnowledgeItem
variable = record {
  source_id = "K001";
  title = "variable";
  difficulty = beginner;
  keywords = [];
  prerequisites = "K007" ∷ [];
}

abbrev loop : KnowledgeItem
loop = record {
  source_id = "K007";
  title = "loop";
  difficulty = basic;
  keywords = [];
  prerequisites = "K001" ∷ "K999" ∷ [];
}

abbrev kb : List KnowledgeItem
kb = loop ∷ variable ∷ []

abbrev canonicalize : String → List String
canonicalize concept = []

abbrev same : String → String
same t = t

abbrev clock : ℕ → ℕ
clock n = 7

abbrev built : Option FormalLearningPath
built = build_formal_path canonicalize same text_le clock profile kb snapshot ("K007" ∷ []) "t"

abbrev path_in : Option FormalLearningPath → FormalLearningPath
path_in (some path) = path
path_in none = record {
  path_id = "";
  learner_id = "";
  original_goal = "";
  nodes = [];
  current_node_index = none;
  profile_snapshot = snapshot;
  created_at = "";
  updated_at = "";
}

build_formal_path-ends_example : is_some built ≡ true
build_formal_path-ends_example =
    build_formal_path-ends canonicalize same text_le clock profile kb snapshot ("K007" ∷ []) "t"

-- The two items need each other: the variable comes first, as a prerequisite.
build_formal_path-covers_example :
    (covers_prerequisites
        (is_excused kb (knows canonicalize same text_le clock profile))
        (path_in built).nodes
      ≡ true)
    × (is_numbered 1 (path_in built).nodes ≡ true)
unfolding build_formal_path build_ordered_nodes resolve_goal_items without_composite items_of_ids
    find_item collect_prerequisites visit add_prerequisite knows
build_formal_path-covers_example =
    build_formal_path-covers canonicalize same text_le clock profile kb snapshot ("K007" ∷ []) "t"
      (path_in built) refl

abbrev started : FormalLearningPath
started = (start_path "t" (path_in built)).path

advance_to_next_node-IsAdvanced_example :
    IsAdvanced started (advance_to_next_node "t" started snapshot advance)
unfolding start_path node_at build_formal_path build_ordered_nodes resolve_goal_items
    without_composite items_of_ids find_item collect_prerequisites visit add_prerequisite knows
    path_of nodes_in_order create_nodes sort insert mark create_formal_node
advance_to_next_node-IsAdvanced_example =
    advance_to_next_node-IsAdvanced "t" started snapshot advance refl
