-- ===== src/Teaching/Paths/Laws.antt =====
-- What advancing keeps: the nodes before the current one are completed, those after it pending.
use knowbalance.Prelude.{
  ℕ, zero, suc, ◌≡◌, refl, sym, String, Bool, true, false, not, ◌&&◌, Option, none, some, List, [],
  ◌∷◌, map, all, is_some, Option-cases, arith, inl, inr,
}
use knowbalance.Content.Policy.{Action, remediate, reinforce, advance, reprofile}
use knowbalance.Teaching.Paths.{
  LearnerProfileSnapshot, LearningPathNode, FormalPathNodeStatus, in_progress, FormalPathNode,
  FormalLearningPath, AdvancePathResult, node_at, current_of, mark, mark_current, following,
  move_on, advance_from, advance_to_next_node,
}

abbrev pub is_pending : FormalPathNodeStatus → Bool
is_pending FormalPathNodeStatus.pending = true
is_pending _ = false

abbrev pub is_completed : FormalPathNodeStatus → Bool
is_completed FormalPathNodeStatus.completed = true
is_completed _ = false

-- A node that a learner works on, or one that was stopped for a new diagnosis.
abbrev pub is_open : FormalPathNodeStatus → Bool
is_open FormalPathNodeStatus.in_progress = true
is_open FormalPathNodeStatus.blocked = true
is_open _ = false

-- The statuses of nodes of which one is the current node.
abbrev pub is_staged : Option ℕ → List FormalPathNode → Bool
is_staged none nodes = all (λ (n : FormalPathNode). is_pending n.status) nodes
is_staged (some i) [] = true
is_staged (some zero) (n ∷ nodes) =
    is_open n.status && all (λ (m : FormalPathNode). is_pending m.status) nodes
is_staged (some (suc i)) (n ∷ nodes) = is_completed n.status && is_staged (some i) nodes

abbrev pub next_of : Option FormalPathNode → Option LearningPathNode
next_of none = none
next_of (some n) = some n.node

abbrev nodes_of : List FormalPathNode → List LearningPathNode
nodes_of nodes = map (λ (n : FormalPathNode). n.node) nodes

-- A result that agrees with its path, whose nodes are those of an earlier path.
pub record IsAdvanced (path : FormalLearningPath) (r : AdvancePathResult) : Type 0 where
  pub staged : is_staged r.path.current_node_index r.path.nodes ≡ true
  pub next : r.next_path_node ≡ next_of (current_of r.path.nodes r.path.current_node_index)
  pub finished : r.path_completed ≡ not (is_some r.next_path_node)
  pub kept : map (λ (n : FormalPathNode). n.node) r.path.nodes ≡ nodes_of path.nodes
  pub goal : r.path.original_goal ≡ path.original_goal

-- The current node is completed, so that the next one can be opened.
is_staged-mark_completed :
    (nodes : List FormalPathNode) (i : ℕ) (n : FormalPathNode)
    → is_staged (some i) nodes ≡ true
    → node_at nodes i ≡ some n
    → (let after = mark (mark nodes i FormalPathNodeStatus.completed) (suc i) in_progress in
        is_staged (some (suc i)) after ≡ true)
unfolding mark node_at
is_staged-mark_completed [] i n h e = refl
is_staged-mark_completed (m ∷ []) zero n h e = refl
is_staged-mark_completed (m ∷ k ∷ nodes) zero n h e = ground arith
is_staged-mark_completed (m ∷ nodes) (suc i) n h e =
    ground (arith, is_staged-mark_completed nodes i n)

is_staged-mark_past :
    (nodes : List FormalPathNode) (i : ℕ)
    → is_staged (some i) nodes ≡ true
    → node_at nodes i ≡ none
    → is_staged (some (suc i)) (mark nodes (suc i) in_progress) ≡ true
unfolding mark node_at
is_staged-mark_past [] i h e = refl
is_staged-mark_past (m ∷ nodes) zero h e = absurd (ground (arith, e))
is_staged-mark_past (m ∷ nodes) (suc i) h e = ground (arith, is_staged-mark_past nodes i)

is_staged-mark_first :
    (nodes : List FormalPathNode)
    → is_staged none nodes ≡ true
    → is_staged (some 0) (mark nodes 0 in_progress) ≡ true
unfolding mark
is_staged-mark_first [] h = refl
is_staged-mark_first (n ∷ nodes) h = ground arith

is_staged-mark_blocked :
    (nodes : List FormalPathNode) (i : ℕ)
    → is_staged (some i) nodes ≡ true
    → is_staged (some i) (mark nodes i FormalPathNodeStatus.blocked) ≡ true
unfolding mark
is_staged-mark_blocked [] i h = refl
is_staged-mark_blocked (m ∷ nodes) zero h = ground arith
is_staged-mark_blocked (m ∷ nodes) (suc i) h = ground (arith, is_staged-mark_blocked nodes i)

nodes_of-mark :
    (nodes : List FormalPathNode) (i : ℕ) (s : FormalPathNodeStatus)
    → nodes_of (mark nodes i s) ≡ nodes_of nodes
unfolding mark
nodes_of-mark [] i s = refl
nodes_of-mark (m ∷ nodes) zero s = refl
nodes_of-mark (m ∷ nodes) (suc i) s = rw (nodes_of-mark nodes i s) refl

next_of-mark :
    (nodes : List FormalPathNode) (i j : ℕ) (s : FormalPathNodeStatus)
    → next_of (node_at (mark nodes j s) i) ≡ next_of (node_at nodes i)
unfolding mark node_at
next_of-mark [] i j s = refl
next_of-mark (m ∷ nodes) zero zero s = refl
next_of-mark (m ∷ nodes) (suc i) zero s = refl
next_of-mark (m ∷ nodes) zero (suc j) s = refl
next_of-mark (m ∷ nodes) (suc i) (suc j) s = next_of-mark nodes i j s

mark_past :
    (nodes : List FormalPathNode) (i : ℕ) (s : FormalPathNodeStatus)
    → node_at nodes i ≡ none
    → mark nodes i s ≡ nodes
unfolding mark node_at
mark_past [] i s e = refl
mark_past (m ∷ nodes) zero s e = absurd (ground (arith, e))
mark_past (m ∷ nodes) (suc i) s e = rw (mark_past nodes i s e) refl

move_on-IsAdvanced :
    (path : FormalLearningPath) (snapshot : LearnerProfileSnapshot)
    → (let next = following path.current_node_index in
        is_staged (some next) (mark path.nodes next in_progress) ≡ true)
    → IsAdvanced path (move_on path snapshot)
unfolding move_on
move_on-IsAdvanced path snapshot h =
    let next = following path.current_node_index in
    elim (Option-cases (node_at path.nodes next)) [
      | inl e ↦
          rw (e, move_on)
            (record {
              staged = rw (mark_past path.nodes next in_progress e) at h;
              next = rw e refl;
              finished = refl;
              kept = refl;
              goal = refl;
            })
      | inr (n, e) ↦
          rw (e, move_on)
            (record {
              staged = h;
              next = rw (next_of-mark path.nodes next next in_progress) (rw e refl);
              finished = refl;
              kept = nodes_of-mark path.nodes next in_progress;
              goal = refl;
            })
    ]

IsAdvanced-after :
    (path earlier : FormalLearningPath) (r : AdvancePathResult)
    → nodes_of earlier.nodes ≡ nodes_of path.nodes
    → earlier.original_goal ≡ path.original_goal
    → IsAdvanced earlier r
    → IsAdvanced path r
IsAdvanced-after path earlier r e g h = record {
  staged = h.staged;
  next = h.next;
  finished = h.finished;
  kept = rw (sym e) h.kept;
  goal = rw (sym g) h.goal;
}

advance_from-IsAdvanced :
    (path : FormalLearningPath) (snapshot : LearnerProfileSnapshot) (action : Action)
    (index : Option ℕ) (current : Option FormalPathNode)
    → path.current_node_index ≡ index
    → current_of path.nodes index ≡ current
    → is_staged index path.nodes ≡ true
    → IsAdvanced path (advance_from path snapshot action current)
unfolding advance_from
advance_from-IsAdvanced path snapshot action none none e c h =
    move_on-IsAdvanced path snapshot (rw e (is_staged-mark_first path.nodes h))
advance_from-IsAdvanced path snapshot action (some i) none e c h =
    move_on-IsAdvanced path snapshot (rw e (is_staged-mark_past path.nodes i h c))
advance_from-IsAdvanced path snapshot action none (some n) e c h = absurd (ground (arith, c))
advance_from-IsAdvanced path snapshot advance (some i) (some n) e c h =
    let marked = record path {
      nodes = mark_current path.nodes path.current_node_index FormalPathNodeStatus.completed;
    } in
    IsAdvanced-after path marked (move_on marked snapshot)
      (rw e (nodes_of-mark path.nodes i FormalPathNodeStatus.completed)) refl
      (move_on-IsAdvanced marked snapshot (rw e (is_staged-mark_completed path.nodes i n h c)))
advance_from-IsAdvanced path snapshot remediate (some i) (some n) e c h = record {
  staged = rw e h;
  next = rw e (rw c refl);
  finished = refl;
  kept = refl;
  goal = refl;
}
advance_from-IsAdvanced path snapshot reinforce (some i) (some n) e c h = record {
  staged = rw e h;
  next = rw e (rw c refl);
  finished = refl;
  kept = refl;
  goal = refl;
}
advance_from-IsAdvanced path snapshot reprofile (some i) (some n) e c h = record {
  staged = rw e (is_staged-mark_blocked path.nodes i h);
  next = rw e (rw (next_of-mark path.nodes i i FormalPathNodeStatus.blocked) (rw c refl));
  finished = refl;
  kept = rw e (nodes_of-mark path.nodes i FormalPathNodeStatus.blocked);
  goal = refl;
}

-- A path whose nodes before the current one are completed, and whose later ones are pending, stays
-- so whatever is decided; the result names the current node of the new path, or is completed where
-- there is none, and neither the goal nor the nodes, up to their statuses, change.
pub advance_to_next_node-IsAdvanced :
    (now : String) (path : FormalLearningPath) (snapshot : LearnerProfileSnapshot) (action : Action)
    → is_staged path.current_node_index path.nodes ≡ true
    → IsAdvanced path (advance_to_next_node now path snapshot action)
unfolding advance_to_next_node
advance_to_next_node-IsAdvanced now path snapshot action h =
    let stamped = record path { updated_at = now } in
    IsAdvanced-after path stamped _ refl refl
      (advance_from-IsAdvanced stamped snapshot action path.current_node_index _ refl refl h)
