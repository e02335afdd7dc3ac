-- ===== src/Teaching/Paths/Build/Laws.antt =====
-- The nodes of a path that was built.
use knowbalance.Prelude.{
  ℕ, suc, ◌≡◌, refl, sym, String, Bool, true, not, ◌&&◌, ◌||◌, some, List, [], ◌∷◌, ◌++◌, filter,
  all, any, All, All-append, All-append_left, All-filter, All-sort, sort, string_Eq, ◌!=◌, nat_eq,
  includes, includes-map-sort, Option-cases, arith, inl, inr, length, ◌+◌,
}
use knowbalance.Prelude.Dict.{keys}
use knowbalance.Teaching.Recovery.{KnowledgeItem}
use knowbalance.Teaching.Progress.{LearnerProfile}
use knowbalance.Teaching.Paths.{FormalPathNode, FormalLearningPath, LearnerProfileSnapshot}
use knowbalance.Teaching.Paths.Build.{
  collect_prerequisites, start_collect, source_ids_of, create_nodes, create_formal_node,
  nodes_in_order, build_ordered_nodes, build_formal_path, knows, ranks_first, resolve_goal_items,
  normalize_semantic, goal_or_default, path_of,
}
use knowbalance.Teaching.Paths.Build.Closure.{
  is_excused, is_covered, IsClosed, start_collect-IsClosed, values_of,
}

abbrev pub has_target : List FormalPathNode → String → Bool
has_target nodes id = any (λ (n : FormalPathNode). includes n.node.target_source_ids id) nodes

-- The stages count on from a number.
abbrev pub is_numbered : ℕ → List FormalPathNode → Bool
is_numbered stage [] = true
is_numbered stage (n ∷ nodes) = nat_eq n.stage_order stage && is_numbered (suc stage) nodes

-- Every prerequisite of every node has a node, but those that the knowledge base lacks or that
-- the learner knows.
abbrev pub covers_prerequisites : (is_excused : String → Bool) → List FormalPathNode → Bool
covers_prerequisites excused nodes =
    all
      (λ (n : FormalPathNode).
        all (λ id. excused id || has_target nodes id) n.node.prerequisite_source_ids)
      nodes

module _ (date_now : ℕ → ℕ) (goal : String) where
  has_target-create_nodes :
      (stage : ℕ) (items : List KnowledgeItem) (id : String)
      → has_target (create_nodes date_now goal stage items) id ≡ includes (source_ids_of items) id
  unfolding create_nodes create_formal_node
  has_target-create_nodes stage [] id = refl
  has_target-create_nodes stage (item ∷ items) id =
      ground (arith, has_target-create_nodes (suc stage) items id)

  is_numbered-create_nodes :
      (stage : ℕ) (items : List KnowledgeItem)
      → is_numbered stage (create_nodes date_now goal stage items) ≡ true
  unfolding create_nodes create_formal_node
  is_numbered-create_nodes stage [] = refl
  is_numbered-create_nodes stage (item ∷ items) =
      ground (arith, is_numbered-create_nodes (suc stage) items)

  all-filter_other :
      (own : String) (p : String → Bool) (ids : List String)
      → all p ids ≡ true
      → all p (filter (λ pid. pid != own) ids) ≡ true
  all-filter_other own p [] h = refl
  all-filter_other own p (id ∷ ids) h = ground (arith, all-filter_other own p ids)

  all-create_nodes :
      (p : String → Bool) (stage : ℕ) (items : List KnowledgeItem)
      → All (λ (item : KnowledgeItem). all p item.prerequisites ≡ true) items
      → all
          (λ (n : FormalPathNode). all p n.node.prerequisite_source_ids)
          (create_nodes date_now goal stage items)
        ≡ true
  unfolding create_nodes create_formal_node
  all-create_nodes p stage [] h = refl
  all-create_nodes p stage (item ∷ items) (q, h) = ground (
    arith,
    all-filter_other item.source_id p item.prerequisites q,
    all-create_nodes p (suc stage) items h,
  )

source_ids-append :
    (xs ys : List KnowledgeItem) (id : String)
    → includes (source_ids_of (xs ++ ys)) id
      ≡ (includes (source_ids_of xs) id || includes (source_ids_of ys) id)
source_ids-append [] ys id = refl
source_ids-append (x ∷ xs) ys id = ground (arith, source_ids-append xs ys id)

source_ids-filter :
    (known : String → Bool) (xs : List KnowledgeItem) (id : String)
    → includes (source_ids_of (filter (λ (item : KnowledgeItem). not (known item.source_id)) xs)) id
      ≡ (not (known id) && includes (source_ids_of xs) id)
source_ids-filter known [] id = ground arith
source_ids-filter known (x ∷ xs) id =
    ground (arith, source_ids-filter known xs id, string_Eq.beq_iff x.source_id id)

all-weaker :
    (p q : String → Bool) (ids : List String)
    → ((id : String) → p id ≡ true → q id ≡ true)
    → all p ids ≡ true
    → all q ids ≡ true
all-weaker p q [] f h = refl
all-weaker p q (id ∷ ids) f h = ground (arith, f id, all-weaker p q ids f)

All-weaker :
    (p q : String → Bool) (items : List KnowledgeItem)
    → ((id : String) → p id ≡ true → q id ≡ true)
    → All (λ (item : KnowledgeItem). all p item.prerequisites ≡ true) items
    → All (λ (item : KnowledgeItem). all q item.prerequisites ≡ true) items
All-weaker p q [] f h = tt
All-weaker p q (item ∷ items) f (k, h) =
    (all-weaker p q item.prerequisites f k, All-weaker p q items f h)

All-append_right : {A : Type 0} (P : A → Type 0) (xs ys : List A) → All P (xs ++ ys) → All P ys
All-append_right P [] ys h = h
All-append_right P (x ∷ xs) ys (p, h) = All-append_right P xs ys h

module _ (canonicalize : String → List String) (lower : String → String)
    (locale_le : String → String → Bool) (date_now : ℕ → ℕ) (profile : LearnerProfile)
    (kb : List KnowledgeItem) where
  abbrev known : String → Bool
  known = knows canonicalize lower locale_le date_now profile

  nodes_in_order-covers :
      (goal_items : List KnowledgeItem) (goal : String) (entries : List (String × KnowledgeItem))
      → IsClosed kb known goal_items entries
      → (let nodes =
            nodes_in_order canonicalize lower locale_le date_now profile goal_items goal entries in
          (covers_prerequisites (is_excused kb known) nodes ≡ true) × (is_numbered 1 nodes ≡ true))
  unfolding nodes_in_order is_excused
  nodes_in_order-covers goal_items goal entries h =
      let le = ranks_first locale_le in
      let needed = λ (item : KnowledgeItem).
        all (is_covered kb known goal_items (keys entries)) item.prerequisites ≡ true in
      let before =
        filter (λ (item : KnowledgeItem). not (known item.source_id))
          (sort le (values_of entries)) in
      let items = before ++ sort le goal_items in
      let goals_needed = All-append_left needed goal_items (values_of entries) h.closed in
      let values_needed = All-append_right needed goal_items (values_of entries) h.closed in
      let all_needed : All needed items =
        All-append needed before (sort le goal_items)
          (All-filter needed (λ (item : KnowledgeItem). not (known item.source_id))
            (sort le (values_of entries)) (All-sort le needed (values_of entries) values_needed))
          (All-sort le needed goal_items goals_needed) in
      let nodes = create_nodes date_now goal 1 items in
      (
        all-create_nodes date_now goal (λ id. is_excused kb known id || has_target nodes id) 1 items
            (All-weaker (is_covered kb known goal_items (keys entries))
              (λ id. is_excused kb known id || has_target nodes id) items
              (λ id k. ground (
                arith,
                k,
                has_target-create_nodes date_now goal 1 items id,
                source_ids-append before (sort le goal_items) id,
                source_ids-filter known (sort le (values_of entries)) id,
                includes-map-sort le (λ (i : KnowledgeItem). i.source_id) (values_of entries) id,
                includes-map-sort le (λ (i : KnowledgeItem). i.source_id) goal_items id,
                h.names,
              ))
              all_needed),
        is_numbered-create_nodes date_now goal 1 items,
      )

  build_ordered_nodes-covers :
      (goal_items : List KnowledgeItem) (goal : String) (nodes : List FormalPathNode)
      → build_ordered_nodes canonicalize lower locale_le date_now profile kb goal_items goal
        ≡ some nodes
      → (covers_prerequisites (is_excused kb known) nodes ≡ true) × (is_numbered 1 nodes ≡ true)
  unfolding build_ordered_nodes
  build_ordered_nodes-covers [] goal nodes e =
      let same : [] ≡ nodes = ground (arith, e) in rw (sym same) (refl, refl)
  build_ordered_nodes-covers (item ∷ items) goal nodes e =
      let fuel = suc (length (item ∷ items) + length kb) in
      elim (Option-cases (collect_prerequisites kb known fuel (start_collect (item ∷ items)))) [
        | inl out ↦ absurd (ground (arith, rw (out, build_ordered_nodes) at e))
        | inr (entries, r) ↦
            let same : nodes_in_order canonicalize lower locale_le date_now profile (item ∷ items)
                  goal entries
                ≡ nodes =
              ground (arith, rw (r, build_ordered_nodes) at e) in
            rw (sym same) (
              nodes_in_order-covers (item ∷ items) goal entries
                (start_collect-IsClosed kb known (item ∷ items) fuel entries r))
      ]

  -- Of a path that is built the stages are numbered from 1, and every prerequisite of a node is
  -- the target of a node, unless the knowledge base lacks it or the learner knows it.
  pub build_formal_path-covers :
      (snapshot : LearnerProfileSnapshot) (goal_source_ids : List String) (now : String)
      (path : FormalLearningPath)
      → build_formal_path canonicalize lower locale_le date_now profile kb snapshot goal_source_ids
          now
        ≡ some path
      → (covers_prerequisites (is_excused kb known) path.nodes ≡ true)
        × (is_numbered 1 path.nodes ≡ true)
  unfolding build_formal_path path_of
  build_formal_path-covers snapshot goal_source_ids now path e =
      let goal = goal_or_default canonicalize lower locale_le date_now profile.goal in
      let items =
        resolve_goal_items canonicalize lower locale_le date_now profile kb goal
          (normalize_semantic canonicalize lower locale_le date_now goal) goal_source_ids in
      elim (Option-cases
        (build_ordered_nodes canonicalize lower locale_le date_now profile kb items goal)) [
          | inl out ↦ absurd (ground (arith, rw (out, build_formal_path) at e))
          | inr (nodes, r) ↦
              let same : path_of canonicalize lower locale_le date_now profile snapshot now goal
                    nodes
                  ≡ path =
                ground (arith, rw (r, build_formal_path) at e) in
              rw (sym same) (build_ordered_nodes-covers items goal nodes r)
        ]
