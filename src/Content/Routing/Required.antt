-- ===== src/Content/Routing/Required.antt =====
-- The items that a routing decision requires.
use knowbalance.Prelude.{
  ◌≡◌, refl, String, Bool, true, false, ◌&&◌, ◌||◌, Option, none, some, List, [], ◌∷◌, map, filter,
  any, arith, string_Eq, nat_Eq, ◌==◌, includes, is_distinct, includes-unique, unique_distinct,
  Bool-cases, inl, inr, is_empty, ◌++◌,
}
use knowbalance.Prelude.Number.{Number}
use knowbalance.Content.Routing.{
  AssessmentItem, AssessmentRoutingRule, AssessmentPayload, AssessmentArtifact,
  AssessmentAnchorScore, SchemaReport, RoutingDecision, decided, is_ready, required_items,
  choose_route, route_sums, route_payload, route_ready, route_assessment_from_anchors, item_by_id,
  read_scores, missing_scores,
}

module _ {N : Number} where
  -- An item is asked for by the anchors or by a tier that the decision reveals.
  abbrev pub is_asked_for : AssessmentPayload N → RoutingDecision N → String → Bool
  is_asked_for payload d id =
      any
        (λ item.
          item.item_id == id
          && (includes payload.anchor_item_ids item.item_id || includes d.reveal_tiers item.tier))
        payload.items

  abbrev pub IsRequired : AssessmentPayload N → RoutingDecision N → Type 0
  IsRequired payload d =
      ((id : String) → includes d.required_item_ids id ≡ is_asked_for payload d id)
      × (is_distinct d.required_item_ids ≡ true)

  includes-map-filter :
      (p : AssessmentItem N → Bool) (items : List (AssessmentItem N)) (id : String)
      → includes (map (λ item. item.item_id) (filter p items)) id
        ≡ any (λ item. item.item_id == id && p item) items
  includes-map-filter p [] id = refl
  includes-map-filter p (item ∷ items) id = ground (arith, includes-map-filter p items id)

  required_items-IsRequired :
      (payload : AssessmentPayload N) (rule : AssessmentRoutingRule N) (id : String)
      → includes (required_items payload rule) id
        ≡ any
            (λ item.
              item.item_id == id
              && (includes payload.anchor_item_ids item.item_id
                  || includes rule.reveal_tiers item.tier))
            payload.items
  unfolding required_items
  required_items-IsRequired payload rule id =
      let asked = λ (item : AssessmentItem N).
        includes payload.anchor_item_ids item.item_id || includes rule.reveal_tiers item.tier in
      rw (includes-unique (map (λ item. item.item_id) (filter asked payload.items)) id)
        (includes-map-filter asked payload.items id)

  choose_route-IsRequired :
      (show_num : N.Num → String) (payload : AssessmentPayload N) (ratio : N.Num)
      (o : Option (AssessmentRoutingRule N)) {d : RoutingDecision N}
      → choose_route show_num payload ratio o ≡ decided d
      → IsRequired payload d
  unfolding choose_route required_items
  choose_route-IsRequired show_num payload ratio none h = absurd (ground (arith, h))
  choose_route-IsRequired show_num payload ratio (some rule) {d = d} h =
      let ids : d.required_item_ids ≡ required_items payload rule = ground (arith, h) in
      let tiers : d.reveal_tiers ≡ rule.reveal_tiers = ground (arith, h) in
      (
        λ id. rw (ids, tiers) (required_items-IsRequired payload rule id),
        rw ids (unique_distinct (map (λ item. item.item_id) (filter _ payload.items))),
      )

  route_sums-IsRequired :
      (show_num : N.Num → String) (payload : AssessmentPayload N) (maximum achieved : Option N.Num)
      {d : RoutingDecision N}
      → route_sums show_num payload maximum achieved ≡ decided d
      → IsRequired payload d
  unfolding route_sums
  route_sums-IsRequired show_num payload none achieved h = absurd (ground (arith, h))
  route_sums-IsRequired show_num payload (some m) none h = absurd (ground (arith, h))
  route_sums-IsRequired show_num payload (some m) (some a) h =
      elim (Bool-cases (N.le m (N.integer 0))) [
        | inl low ↦ absurd (ground (arith, h, low))
        | inr high ↦ choose_route-IsRequired show_num payload _ _ (rw high at h)
      ]

  route_payload-IsRequired :
      (show_num : N.Num → String) (payload : AssessmentPayload N)
      (scores : List (AssessmentAnchorScore N)) {d : RoutingDecision N}
      → route_payload show_num payload scores ≡ decided d
      → IsRequired payload d
  unfolding route_payload
  route_payload-IsRequired show_num payload scores h =
      let read = read_scores payload.anchor_item_ids (item_by_id payload.items) [] scores in
      elim (Bool-cases (is_empty (read.0 ++ missing_scores payload.anchor_item_ids read.1))) [
        | inl clear ↦ route_sums-IsRequired show_num payload _ _ (rw clear at h)
        | inr issue ↦ absurd (ground (arith, h, issue))
      ]

  route_ready-IsRequired :
      (show_num : N.Num → String) (report : SchemaReport) (is_open : Bool)
      (o : Option (AssessmentPayload N)) (scores : List (AssessmentAnchorScore N))
      {d : RoutingDecision N}
      → route_ready show_num report is_open o scores ≡ decided d
      → (payload : AssessmentPayload N) × (o ≡ some payload)
        × (is_open ≡ true)
        × (report.ok ≡ true)
        × IsRequired payload d
  route_ready-IsRequired show_num report false o scores h = absurd (ground (arith, h))
  route_ready-IsRequired show_num report true none scores h = absurd (ground (arith, h))
  route_ready-IsRequired show_num report true (some payload) scores h =
      elim (Bool-cases report.ok) [
        | inl fine ↦ (
          payload,
          refl,
          refl,
          fine,
          route_payload-IsRequired show_num payload scores (rw fine at h),
        )
        | inr wrong ↦ absurd (ground (arith, h, wrong))
      ]

  -- A decision is made only on an artifact that is ready, valid and has a payload, and it requires, each
  -- once, exactly the items of the payload that are anchors or stand in a tier that it reveals.
  pub route_assessment_from_anchors-IsRequired :
      (show_num : N.Num → String) (schema_report : AssessmentArtifact N → SchemaReport)
      (artifact : AssessmentArtifact N) (scores : List (AssessmentAnchorScore N))
      {d : RoutingDecision N}
      → route_assessment_from_anchors show_num schema_report artifact scores ≡ decided d
      → (payload : AssessmentPayload N) × (artifact.payload ≡ some payload)
        × (is_ready artifact.status ≡ true)
        × ((schema_report artifact).ok ≡ true)
        × IsRequired payload d
  unfolding route_assessment_from_anchors
  route_assessment_from_anchors-IsRequired show_num schema_report artifact scores h =
      route_ready-IsRequired show_num (schema_report artifact) (is_ready artifact.status)
        artifact.payload scores h
