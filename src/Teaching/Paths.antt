-- ===== src/Teaching/Paths.antt =====
-- src/role-b-profile/teaching-audit/formal-path.ts, with the types of
-- role-c-content/contracts/profile-adapter.ts that it uses. Indices are natural numbers, where
-- `none` is the -1 of a path that has not started. The clock is a parameter.

pub mod Build
pub mod Laws
use knowbalance.Prelude.{
  ℕ, zero, suc, ◌+◌, ◌-◌, String, Bool, true, false, Option, none, some, List, [], ◌∷◌, ltb, leb,
  if◌then◌else◌, length, is_empty,
}
use knowbalance.Content.Policy.{Action, remediate, reinforce, advance, reprofile}
use knowbalance.Content.Mastery.{Modality}
use knowbalance.Teaching.Progress.{Level}

pub data ObservableBehavior : Type 0 where
  recognize explain trace apply debug create : ObservableBehavior

pub record AssessmentBlueprint : Type 0 where
  pub tier_1_count : ℕ
  pub tier_2_count : ℕ
  pub tier_3_count : ℕ
  pub required_modalities : List Modality

pub record LearnerProfileSnapshot : Type 0 where
  pub schema_version : String
  pub profile_id : String
  pub profile_version : String
  pub learner_id : String
  pub level : Level
  pub known_concepts : List String
  pub weak_concepts : List String
  pub goal : String
  pub preferred_contexts : List String
  pub accommodations : List String
  pub provenance_ref : Option String

pub data Importance : Type 0 where
  core supporting : Importance

pub record LearningObjective : Type 0 where
  pub objective_id : String
  pub source_id : String
  pub required_fact_ids : List String
  pub observable_behavior : ObservableBehavior
  pub importance : Importance

pub record LearningPathNode : Type 0 where
  pub schema_version : String
  pub node_id : String
  pub target_source_ids : List String
  pub prerequisite_source_ids : List String
  pub goal : String
  pub objectives : List LearningObjective
  pub assessment_blueprint : AssessmentBlueprint

pub data FormalPathNodeStatus : Type 0 where
  pending in_progress completed blocked : FormalPathNodeStatus

-- The inherited fields are those of `node`.
pub record FormalPathNode : Type 0 where
  pub node : LearningPathNode
  pub status : FormalPathNodeStatus
  pub stage_order : ℕ

pub record FormalLearningPath : Type 0 where
  pub path_id : String
  pub learner_id : String
  pub original_goal : String
  pub nodes : List FormalPathNode
  pub current_node_index : Option ℕ
  pub profile_snapshot : LearnerProfileSnapshot
  pub created_at : String
  pub updated_at : String

pub record AdvancePathResult : Type 0 where
  pub next_path_node : Option LearningPathNode
  pub next_profile_snapshot : LearnerProfileSnapshot
  pub path : FormalLearningPath
  pub path_completed : Bool

pub record FormalPathStatus : Type 0 where
  pub path_id : String
  pub original_goal : String
  pub total_nodes : ℕ
  pub current_node_index : Option ℕ
  pub current_node : Option FormalPathNode
  pub remaining_nodes : ℕ
  pub path_completed : Bool

-- `nodes[i]`, and the node that a path stands on.
unfoldable pub node_at : List FormalPathNode → ℕ → Option FormalPathNode
node_at [] i = none
node_at (n ∷ ns) zero = some n
node_at (n ∷ ns) (suc i) = node_at ns i

abbrev pub current_of : List FormalPathNode → Option ℕ → Option FormalPathNode
current_of nodes none = none
current_of nodes (some i) = node_at nodes i

-- `nodes[i].status = status`
unfoldable pub mark : List FormalPathNode → ℕ → FormalPathNodeStatus → List FormalPathNode
mark [] i status = []
mark (n ∷ ns) zero status = record n { status = status } ∷ ns
mark (n ∷ ns) (suc i) status = n ∷ mark ns i status

abbrev pub mark_current :
    List FormalPathNode → Option ℕ → FormalPathNodeStatus → List FormalPathNode
mark_current nodes none status = nodes
mark_current nodes (some i) status = mark nodes i status

-- `current_node_index + 1`
abbrev pub following : Option ℕ → ℕ
following none = 0
following (some i) = suc i

-- The path goes to the next node, or past its last one.
unfoldable pub move_on : FormalLearningPath → LearnerProfileSnapshot → AdvancePathResult
move_on path snapshot =
    let next = following path.current_node_index in
    elim (node_at path.nodes next) [
      | none ↦ record {
        next_path_node = none;
        next_profile_snapshot = snapshot;
        path = record path { current_node_index = some next; profile_snapshot = snapshot };
        path_completed = true;
      }
      | some n ↦ record {
        next_path_node = some n.node;
        next_profile_snapshot = snapshot;
        path = record path {
          nodes = mark path.nodes next in_progress;
          current_node_index = some next;
          profile_snapshot = snapshot;
        };
        path_completed = false;
      }
    ]

-- The path stays on a node.
abbrev pub stay : FormalLearningPath → LearnerProfileSnapshot → FormalPathNode → AdvancePathResult
stay path snapshot n = record {
  next_path_node = some n.node;
  next_profile_snapshot = snapshot;
  path = record path { profile_snapshot = snapshot };
  path_completed = false;
}

unfoldable pub advance_from :
    FormalLearningPath → LearnerProfileSnapshot → Action → Option FormalPathNode → AdvancePathResult
advance_from path snapshot action none = move_on path snapshot
advance_from path snapshot advance (some n) =
    move_on
      (record path {
        nodes = mark_current path.nodes path.current_node_index FormalPathNodeStatus.completed;
      })
      snapshot
advance_from path snapshot remediate (some n) = stay path snapshot n
advance_from path snapshot reinforce (some n) = stay path snapshot n
advance_from path snapshot reprofile (some n) =
    stay
      (record path {
        nodes = mark_current path.nodes path.current_node_index FormalPathNodeStatus.blocked;
      })
      snapshot n

unfoldable pub advance_to_next_node :
    (now : String) → FormalLearningPath → LearnerProfileSnapshot → Action → AdvancePathResult
advance_to_next_node now path snapshot action =
    advance_from (record path { updated_at = now }) snapshot action
      (current_of path.nodes path.current_node_index)

unfoldable pub start_path : (now : String) → FormalLearningPath → AdvancePathResult
start_path now path = elim (node_at path.nodes 0) [
  | none ↦ record {
    next_path_node = none;
    next_profile_snapshot = path.profile_snapshot;
    path = path;
    path_completed = true;
  }
  | some n ↦ record {
    next_path_node = some n.node;
    next_profile_snapshot = path.profile_snapshot;
    path = record path {
      nodes = mark path.nodes 0 in_progress;
      current_node_index = some 0;
      updated_at = now;
    };
    path_completed = false;
  }
]

unfoldable pub get_path_status : FormalLearningPath → FormalPathStatus
get_path_status path = record {
  path_id = path.path_id;
  original_goal = path.original_goal;
  total_nodes = length path.nodes;
  current_node_index = path.current_node_index;
  current_node = current_of path.nodes path.current_node_index;
  remaining_nodes = length path.nodes - following path.current_node_index;
  path_completed = elim path.current_node_index [
    | none ↦ false
    | some i ↦ leb (length path.nodes) i
  ];
}
