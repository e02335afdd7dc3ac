-- ===== src/Teaching/Recovery/Laws.antt =====
-- What every recovery path has, whatever the audit asks for.
use knowbalance.Prelude.{
  ℕ, suc, ◌≡◌, refl, sym, String, Bool, true, false, not, ◌&&◌, Option, none, some, List, [], ◌∷◌,
  map, filter, find, any, arith, string_Eq, ◌==◌, includes, is_distinct, includes-unique,
  unique_distinct, includes_self, All, All-filter, All-take, All-sort, Bool-cases, inl, inr,
  is_empty, ap,
}
use knowbalance.Teaching.Progress.{Level, LearnerProfile}
use knowbalance.Teaching.Recovery.{
  KnowledgeItem, AuditResult, CurrentPath, RecoveryPath, Scored, ids_of, flat_map, objectives_from,
  items_by_id, add_found, build_path_result, build_unsupported_path_result, prerequisite_result,
  score_item, select_best_targets, selected_path, candidates_up_to, plan_lower_difficulty_path,
  plan_adjusted_content_path, lower_or, plan_recovery_path, current_goal, current_targets,
  is_prerequisite, is_difficulty,
}

-- The objectives are for the targets, in order; the targets are items of the knowledge base; and the
-- prerequisites stand once each, and none of them is a target.
pub record IsSound (kb : List KnowledgeItem) (path : RecoveryPath) : Type 0 where
  pub objectives :
      map (λ o. o.source_id) path.path_node.objectives ≡ path.path_node.target_source_ids
  pub prerequisites :
      (id : String)
      → (includes path.path_node.prerequisite_source_ids id
          && includes path.path_node.target_source_ids id)
        ≡ false
  pub distinct : is_distinct path.path_node.prerequisite_source_ids ≡ true
  pub targets : All (λ id. includes (ids_of kb) id ≡ true) path.path_node.target_source_ids

abbrev IsKnown : List KnowledgeItem → KnowledgeItem → Type 0
IsKnown kb item = includes (ids_of kb) item.source_id ≡ true

objectives-ids :
    (index : ℕ) (items : List KnowledgeItem)
    → map (λ o. o.source_id) (objectives_from index items) ≡ ids_of items
unfolding objectives_from
objectives-ids index [] = refl
objectives-ids index (item ∷ items) =
    ap (λ ids. item.source_id ∷ ids) (objectives-ids (suc index) items)

filter-misses :
    (targets ids : List String) (id : String)
    → (includes (filter (λ i. not (includes targets i)) ids) id && includes targets id) ≡ false
filter-misses targets [] id = refl
filter-misses targets (i ∷ ids) id =
    ground (arith, filter-misses targets ids id, string_Eq.beq_iff i id)

All-ids :
    (kb items : List KnowledgeItem)
    → All (IsKnown kb) items
    → All (λ id. includes (ids_of kb) id ≡ true) (ids_of items)
All-ids kb [] h = tt
All-ids kb (item ∷ items) (p, h) = (p, All-ids kb items h)

module _ (date_now : String) where
  build_path_result-IsSound :
      (kb items : List KnowledgeItem) (goal rationale : String) (fresh : Bool)
      → All (IsKnown kb) items
      → IsSound kb (build_path_result date_now items goal rationale fresh)
  unfolding build_path_result
  build_path_result-IsSound kb items goal rationale fresh known =
      let asked = flat_map (λ (item : KnowledgeItem). item.prerequisites) items in
      let targets = ids_of items in
      record {
        objectives = objectives-ids 0 items;
        prerequisites = λ id.
            rw (includes-unique (filter (λ i. not (includes targets i)) asked) id)
              (filter-misses targets asked id);
        distinct = unique_distinct (filter (λ i. not (includes targets i)) asked);
        targets = All-ids kb items known;
      }

  prerequisite_result-IsSound :
      (kb items : List KnowledgeItem) (profile : LearnerProfile) (current : Option CurrentPath)
      → All (IsKnown kb) items
      → IsSound kb (prerequisite_result date_now items profile current)
  prerequisite_result-IsSound kb [] profile current known = build_path_result-IsSound kb [] _ _ _ tt
  prerequisite_result-IsSound kb (item ∷ items) profile current known =
      build_path_result-IsSound kb (item ∷ items) _ _ _ known

-- The members of a list that another list contains are known there.
All-IsKnown :
    (kb items : List KnowledgeItem)
    → ((id : String) → includes (ids_of items) id ≡ true → includes (ids_of kb) id ≡ true)
    → All (IsKnown kb) items
All-IsKnown kb [] f = tt
All-IsKnown kb (item ∷ items) f = (
  f item.source_id (includes_self (ids_of items) item.source_id),
  All-IsKnown kb items (λ id h. f id (ground (arith, h))),
)

find-includes :
    (kb : List KnowledgeItem) (id : String) {item : KnowledgeItem}
    → find (λ (i : KnowledgeItem). i.source_id == id) kb ≡ some item
    → IsKnown kb item
find-includes [] id h = absurd (ground (arith, h))
find-includes (x ∷ kb) id {item = item} h = elim (Bool-cases (x.source_id == id)) [
  | inl e ↦
      let same : x ≡ item = ground (arith, h, e) in
      rw same (includes_self (ids_of kb) item.source_id)
  | inr e ↦ ground (arith, find-includes kb id (rw e at h))
]

add_found-IsKnown :
    (kb items : List KnowledgeItem) (id : String) (found : Option KnowledgeItem)
    → found ≡ find (λ (i : KnowledgeItem). i.source_id == id) kb
    → All (IsKnown kb) items
    → All (IsKnown kb) (add_found found items)
add_found-IsKnown kb items id none e known = known
add_found-IsKnown kb items id (some item) e known = (find-includes kb id (sym e), known)

items_by_id-IsKnown :
    (kb : List KnowledgeItem) (ids : List String) → All (IsKnown kb) (items_by_id kb ids)
unfolding items_by_id
items_by_id-IsKnown kb [] = tt
items_by_id-IsKnown kb (id ∷ ids) = add_found-IsKnown kb _ id _ refl (items_by_id-IsKnown kb ids)

All-items :
    (kb : List KnowledgeItem) (entries : List Scored)
    → All (λ (entry : Scored). IsKnown kb entry.item) entries
    → All (IsKnown kb) (map (λ (entry : Scored). entry.item) entries)
All-items kb [] h = tt
All-items kb (e ∷ entries) (p, h) = (p, All-items kb entries h)

module _ (date_now : String) (canonicalize : String → List String) (normalize : String → String)
    (contains : String → String → Bool) (locale_le : String → String → Bool)
    (text_length : String → ℕ) (profile : LearnerProfile) (kb : List KnowledgeItem) where
  All-scored :
      (goal : String) (items : List KnowledgeItem)
      → All (IsKnown kb) items
      → All
          (λ (entry : Scored). IsKnown kb entry.item)
          (map
            (score_item date_now canonicalize normalize contains locale_le text_length profile kb
              goal)
            items)
  unfolding score_item
  All-scored goal [] h = tt
  All-scored goal (item ∷ items) (p, h) = (p, All-scored goal items h)

  select_best_targets-IsKnown :
      (items : List KnowledgeItem) (goal : String) (count : ℕ)
      → All (IsKnown kb) items
      → All (IsKnown kb) (
          select_best_targets date_now canonicalize normalize contains locale_le text_length items
            profile kb goal count)
  unfolding select_best_targets
  select_best_targets-IsKnown items goal count known = All-items kb _ (
      All-take (λ (entry : Scored). IsKnown kb entry.item) count _
        (All-sort _ (λ (entry : Scored). IsKnown kb entry.item) _
          (All-filter (λ (entry : Scored). IsKnown kb entry.item) _ _
            (All-scored goal items known))))

  selected_path-IsSound :
      (items : List KnowledgeItem) (goal unsupported : String) (rationale : String → String)
      → All (IsKnown kb) items
      → IsSound kb (
          selected_path date_now canonicalize normalize contains locale_le text_length items goal
            unsupported rationale)
  unfolding build_unsupported_path_result
  selected_path-IsSound [] goal unsupported rationale known =
      build_path_result-IsSound date_now kb [] _ _ _ tt
  selected_path-IsSound (item ∷ items) goal unsupported rationale known =
      build_path_result-IsSound date_now kb (item ∷ items) _ _ _ known

  selected-IsSound :
      (items : List KnowledgeItem) (goal unsupported : String) (rationale : String → String)
      → All (IsKnown kb) items
      → IsSound kb (
          selected_path date_now canonicalize normalize contains locale_le text_length
            (select_best_targets date_now canonicalize normalize contains locale_le text_length
              items profile kb goal 3)
            goal
            unsupported
            rationale)
  selected-IsSound items goal unsupported rationale known =
      selected_path-IsSound _ goal unsupported rationale
        (select_best_targets-IsKnown items goal 3 known)

  candidates-IsKnown :
      (level : ℕ) (excluded : List String)
      → All (IsKnown kb) (
          candidates_up_to date_now canonicalize normalize contains locale_le text_length level
            excluded kb)
  candidates-IsKnown level excluded = All-filter (IsKnown kb) _ kb (All-IsKnown kb kb (λ id h. h))

  adjusted-IsSound :
      (goal : String) (excluded : List String)
      → IsSound kb (
          plan_adjusted_content_path date_now canonicalize normalize contains locale_le text_length
            profile kb goal excluded)
  unfolding plan_adjusted_content_path
  adjusted-IsSound goal excluded = selected-IsSound _ goal _ _ (candidates-IsKnown _ excluded)

  lower_or-IsSound :
      (level_name : Level → String) (goal : String) (excluded : List String) (other : RecoveryPath)
      (o : Option Level)
      → IsSound kb other
      → IsSound kb (
          lower_or date_now canonicalize normalize contains locale_le text_length level_name profile
            kb goal excluded other o)
  unfolding plan_lower_difficulty_path
  lower_or-IsSound level_name goal excluded other none sound = sound
  lower_or-IsSound level_name goal excluded other (some level) sound =
      selected-IsSound _ goal _ _ (candidates-IsKnown _ excluded)

  -- Every recovery path, whatever the audit asks for, has its objectives for its targets in order; its
  -- targets are items of the knowledge base; and its prerequisites stand once each, none a target.
  pub plan_recovery_path-IsSound :
      (level_name : Level → String) (audit : AuditResult) (current : Option CurrentPath)
      → IsSound kb (
          plan_recovery_path date_now canonicalize normalize contains locale_le text_length
            level_name profile kb audit current)
  unfolding plan_recovery_path
  plan_recovery_path-IsSound level_name audit current =
      let adjusted = adjusted-IsSound (current_goal profile current) (current_targets current) in
      elim (Bool-cases (
        any is_prerequisite audit.failed_dimensions
        && not (is_empty audit.missing_prerequisite_source_ids))) [
          | inl missing ↦ rw missing (
              prerequisite_result-IsSound date_now kb _ profile current
                (items_by_id-IsKnown kb audit.missing_prerequisite_source_ids))
          | inr other ↦ elim (Bool-cases (any is_difficulty audit.failed_dimensions)) [
            | inl difficulty ↦
                rw (other, difficulty)
                  (lower_or-IsSound level_name _ _ _ audit.recommended_level adjusted)
            | inr aligned ↦ rw (other, aligned) adjusted
          ]
        ]
