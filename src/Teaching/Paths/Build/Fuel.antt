-- ===== src/Teaching/Paths/Build/Fuel.antt =====
-- The loop that collects the prerequisites ends: it visits an item of the knowledge base once.
use knowbalance.Prelude.{
  ℕ, zero, suc, ◌+◌, ◌≤◌, ◌≡◌, refl, String, Bool, true, false, not, Option, none, some, List, [],
  ◌∷◌, ◌++◌, foldl, filter, length, length-append, string_Eq, includes, includes-append, Bool-cases,
  List-cases, is_some, arith, inl, inr,
}
use knowbalance.Teaching.Recovery.{KnowledgeItem}
use knowbalance.Teaching.Progress.{LearnerProfile}
use knowbalance.Teaching.Paths.{LearnerProfileSnapshot}
use knowbalance.Teaching.Paths.Build.{
  Collected, find_item, add_prerequisite, visit, collect_prerequisites, start_collect,
  build_ordered_nodes, build_formal_path, knows, goal_or_default, resolve_goal_items,
  normalize_semantic, path_of,
}

-- The items of the knowledge base that are not visited yet.
unvisited : List KnowledgeItem → List String → ℕ
unvisited kb visited =
    length (filter (λ (item : KnowledgeItem). not (includes visited item.source_id)) kb)

unvisited-le : (kb : List KnowledgeItem) (visited : List String) → unvisited kb visited ≤ length kb
unfolding unvisited
unvisited-le [] visited = omega arith
unvisited-le (item ∷ kb) visited = ground (arith, unvisited-le kb visited)

unvisited-append :
    (kb : List KnowledgeItem) (visited : List String) (id : String)
    → unvisited kb (visited ++ id ∷ []) ≤ unvisited kb visited
unfolding unvisited
unvisited-append [] visited id = omega arith
unvisited-append (item ∷ kb) visited id =
    ground (arith, unvisited-append kb visited id, includes-append visited (id ∷ []) item.source_id)

-- It gets smaller when an item that is found was not visited.
unvisited-found :
    (kb : List KnowledgeItem) (visited : List String) (id : String)
    → is_some (find_item kb id) ≡ true
    → includes visited id ≡ false
    → suc (unvisited kb (visited ++ id ∷ [])) ≤ unvisited kb visited
unfolding unvisited find_item
unvisited-found [] visited id h k = absurd (ground (arith, h))
unvisited-found (item ∷ kb) visited id h k = ground (
  arith,
  unvisited-found kb visited id,
  unvisited-append kb visited id,
  includes-append visited (id ∷ []) item.source_id,
  string_Eq.beq_iff item.source_id id,
  string_Eq.beq_iff id item.source_id,
)

module _ (kb : List KnowledgeItem) (is_known : String → Bool) where
  -- What the loop has left to do.
  remaining : Collected → ℕ
  remaining c = length c.pending + unvisited kb c.visited

  add_prerequisite-remaining :
      (id : String) (o : Option KnowledgeItem) (c : Collected)
      → find_item kb id ≡ o
      → includes c.visited id ≡ false
      → remaining (add_prerequisite kb is_known id o c) ≤ remaining c
  unfolding add_prerequisite remaining
  add_prerequisite-remaining id none c e k = omega (arith, unvisited-append kb c.visited id)
  add_prerequisite-remaining id (some item) c e k = elim (Bool-cases (is_known id)) [
    | inl known ↦ rw known (omega (arith, unvisited-append kb c.visited id))
    | inr unknown ↦
        let found : is_some (find_item kb id) ≡ true = rw e refl in
        rw unknown (
          omega
            (arith, unvisited-found kb c.visited id found k, length-append c.pending (item ∷ [])))
  ]

  visit-remaining : (c : Collected) (id : String) → remaining (visit kb is_known c id) ≤ remaining c
  unfolding visit
  visit-remaining c id = elim (Bool-cases (includes c.visited id)) [
    | inl seen ↦ rw seen (omega arith)
    | inr new ↦ rw new (add_prerequisite-remaining id (find_item kb id) c refl new)
  ]

  foldl-visit-remaining :
      (ids : List String) (c : Collected)
      → remaining (foldl (visit kb is_known) c ids) ≤ remaining c
  foldl-visit-remaining [] c = omega arith
  foldl-visit-remaining (id ∷ ids) c =
      omega (arith, visit-remaining c id, foldl-visit-remaining ids (visit kb is_known c id))

  collect_prerequisites-pending :
      (fuel : ℕ) (c : Collected)
      → suc (remaining c) ≤ fuel
      → is_some (collect_prerequisites kb is_known fuel c) ≡ true
  unfolding collect_prerequisites remaining
  collect_prerequisites-pending zero c h = absurd (omega arith)
  collect_prerequisites-pending (suc fuel) c h = elim (List-cases c.pending) [
    | inl e ↦ rw e refl
    | inr (item, rest, e) ↦
        let next = record c { pending = rest } in
        let shorter : length c.pending ≡ suc (length rest) = rw e refl in
        rw e (
          collect_prerequisites-pending fuel (foldl (visit kb is_known) next item.prerequisites)
            (omega (arith, h, shorter, foldl-visit-remaining item.prerequisites next)))
  ]

  pub collect_prerequisites-ends :
      (goal_items : List KnowledgeItem)
      → is_some (
          collect_prerequisites kb is_known
            (suc (length goal_items + length kb))
            (start_collect goal_items))
        ≡ true
  unfolding remaining
  collect_prerequisites-ends goal_items =
      collect_prerequisites-pending (suc (length goal_items + length kb)) (start_collect goal_items)
        (omega (arith, unvisited-le kb (start_collect goal_items).visited))

is_some_elim :
    {A B : Type 0} (f : A → B) (o : Option A)
    → is_some o ≡ true
    → is_some (elim o [ none ↦ none | some a ↦ some (f a) ]) ≡ true
is_some_elim f none h = h
is_some_elim f (some a) h = refl

module _ (canonicalize : String → List String) (lower : String → String)
    (locale_le : String → String → Bool) (date_now : ℕ → ℕ) where
  build_ordered_nodes-ends :
      (profile : LearnerProfile) (kb goal_items : List KnowledgeItem) (original_goal : String)
      → is_some (
          build_ordered_nodes canonicalize lower locale_le date_now profile kb goal_items
            original_goal)
        ≡ true
  unfolding build_ordered_nodes
  build_ordered_nodes-ends profile kb [] original_goal = refl
  build_ordered_nodes-ends profile kb (item ∷ items) original_goal = ground (
    arith,
    collect_prerequisites-ends kb (knows canonicalize lower locale_le date_now profile)
        (item ∷ items),
  )

  -- A path is built from every profile, knowledge base and list of goals: the prerequisites of
  -- prerequisites are followed to their end, circular ones too.
  pub build_formal_path-ends :
      (profile : LearnerProfile) (kb : List KnowledgeItem) (snapshot : LearnerProfileSnapshot)
      (goal_source_ids : List String) (now : String)
      → is_some (
          build_formal_path canonicalize lower locale_le date_now profile kb snapshot
            goal_source_ids now)
        ≡ true
  unfolding build_formal_path
  build_formal_path-ends profile kb snapshot goal_source_ids now =
      let original_goal = goal_or_default canonicalize lower locale_le date_now profile.goal in
      let goal_items =
        resolve_goal_items canonicalize lower locale_le date_now profile kb original_goal
          (normalize_semantic canonicalize lower locale_le date_now original_goal)
          goal_source_ids in
      is_some_elim
        (path_of canonicalize lower locale_le date_now profile snapshot now original_goal)
        (build_ordered_nodes canonicalize lower locale_le date_now profile kb goal_items
          original_goal)
        (build_ordered_nodes-ends profile kb goal_items original_goal)
