-- ===== src/Content/Routing/Laws.antt =====
-- The routing never reads a missing entry, and what a decision stands on.
use knowbalance.Prelude.{
  ◌≡◌, ◌≢◌, refl, String, Bool, true, false, ◌&&◌, ◌||◌, Option, none, some, List, [], ◌∷◌, ◌++◌,
  arith, string_Eq, nat_Eq, ◌==◌, Option-cases, sort, is_some, is_empty, all, inl, inr, Bool-cases,
}
use knowbalance.Prelude.Dict.{lookup, insert, lookup-insert}
use knowbalance.Prelude.Number.{Number}
use knowbalance.Content.Routing.{
  AssessmentItem, AssessmentRoutingRule, AssessmentPayload, AssessmentArtifact,
  AssessmentAnchorScore, SchemaReport, type_error, score_issues, read_scores, missing_scores,
  sum_of, max_score_of, select_rule, choose_route, round01, route_sums, route_payload, route_ready,
  route_assessment_from_anchors, item_by_id, is_ready,
}

is_empty-append : {A : Type 0} (xs ys : List A) → is_empty (xs ++ ys) ≡ (is_empty xs && is_empty ys)
is_empty-append [] ys = refl
is_empty-append (x ∷ xs) ys = refl

abbrev has {ℓ} : {A : Type ℓ} → List (String × A) → String → Bool
has m id = is_some (lookup id m)

has-insert {ℓ} :
    {A : Type ℓ} (id j : String) (v : A) (m : List (String × A))
    → has (insert id v m) j ≡ (id == j || has m j)
has-insert id j v m = rw (lookup-insert id j v m) (ground arith)

missing_scores-all {ℓ} :
    {A : Type ℓ} (ids : List String) (m : List (String × A))
    → is_empty (missing_scores ids m) ≡ all (has m) ids
unfolding missing_scores
missing_scores-all [] m = refl
missing_scores-all (id ∷ ids) m = ground (arith, missing_scores-all ids m)

-- A sum over entries that are all there is there.
sum_of-is_some :
    (N : Number) (value : String → Option N.Num) (sum : N.Num) (ids : List String)
    → all (λ id. is_some (value id)) ids ≡ true
    → is_some (sum_of N value sum ids) ≡ true
unfolding sum_of
sum_of-is_some N value sum [] h = refl
sum_of-is_some N value sum (id ∷ ids) h = elim (Option-cases (value id)) [
  | inl e ↦ absurd (ground (arith, e))
  | inr (v, e) ↦ ground (arith, e, sum_of-is_some N value (N.add sum v) ids)
]

module _ {N : Number} where
  -- A score without an issue is one of an item that exists.
  score_issues-item :
      (anchors : List String) (items : List (String × AssessmentItem N))
      (seen : List (String × N.Num)) (score : AssessmentAnchorScore N)
      → is_empty (score_issues anchors items seen score) ≡ true
      → is_some (lookup score.item_id items) ≡ true
  unfolding score_issues
  score_issues-item anchors items seen score h = ground arith

  -- Whatever ends in the map of the scores has an item, where no score has an issue.
  read_scores-items :
      (anchors : List String) (items : List (String × AssessmentItem N))
      (seen : List (String × N.Num)) (scores : List (AssessmentAnchorScore N)) (id : String)
      → is_empty (read_scores anchors items seen scores).0 ≡ true
      → has (read_scores anchors items seen scores).1 id ≡ true
      → (has seen id || has items id) ≡ true
  unfolding read_scores
  read_scores-items anchors items seen [] id h k = ground arith
  read_scores-items anchors items seen (score ∷ scores) id h k =
      let next = insert score.item_id score.raw_score seen in
      ground (
        arith,
        is_empty-append (score_issues anchors items seen score)
            (read_scores anchors items next scores).0,
        score_issues-item anchors items seen score,
        has-insert score.item_id id score.raw_score seen,
        string_Eq.beq_iff score.item_id id,
        read_scores-items anchors items next scores id,
      )

  anchors-items :
      (anchors : List String) (items : List (String × AssessmentItem N)) (m : List (String × N.Num))
      → ((id : String) → has m id ≡ true → has items id ≡ true)
      → all (has m) anchors ≡ true
      → all (λ id. is_some (max_score_of (lookup id items))) anchors ≡ true
  anchors-items [] items m f h = refl
  anchors-items (id ∷ ids) items m f h = ground (arith, f id, anchors-items ids items m f)

  choose_route-safe :
      (show_num : N.Num → String) (payload : AssessmentPayload N) (ratio : N.Num)
      (o : Option (AssessmentRoutingRule N))
      → choose_route show_num payload ratio o ≢ type_error
  unfolding choose_route
  choose_route-safe show_num payload ratio none e = absurd (ground (arith, e))
  choose_route-safe show_num payload ratio (some rule) e = absurd (ground (arith, e))

  route_sums-safe :
      (show_num : N.Num → String) (payload : AssessmentPayload N) (maximum achieved : Option N.Num)
      → is_some maximum ≡ true
      → is_some achieved ≡ true
      → route_sums show_num payload maximum achieved ≢ type_error
  unfolding route_sums
  route_sums-safe show_num payload none achieved h k e = absurd (ground (arith, h))
  route_sums-safe show_num payload (some m) none h k e = absurd (ground (arith, k))
  route_sums-safe show_num payload (some m) (some a) h k e =
      let ratio = round01 N (N.div a m) in
      let rules =
        sort (λ left right. N.le left.min_anchor_score_ratio right.min_anchor_score_ratio)
          payload.rules in
      let safe = choose_route-safe show_num payload ratio (select_rule ratio rules) in
      elim (Bool-cases (N.le m (N.integer 0))) [
        | inl low ↦ absurd (ground (arith, e, low))
        | inr high ↦ safe (rw high at e)
      ]

  route_payload-safe :
      (show_num : N.Num → String) (payload : AssessmentPayload N)
      (scores : List (AssessmentAnchorScore N))
      → route_payload show_num payload scores ≢ type_error
  unfolding route_payload lookup
  route_payload-safe show_num payload scores e =
      let items = item_by_id payload.items in
      let anchors = payload.anchor_item_ids in
      let read = read_scores anchors items [] scores in
      elim (Bool-cases (is_empty (read.0 ++ missing_scores anchors read.1))) [
        | inr some_issue ↦ absurd (ground (arith, e, some_issue))
        | inl clear ↦
            let empty = is_empty-append read.0 (missing_scores anchors read.1) in
            let read_clear : is_empty read.0 ≡ true = ground (arith, clear, empty) in
            let scored : all (has read.1) anchors ≡ true =
              ground (arith, clear, empty, missing_scores-all anchors read.1) in
            let there =
              anchors-items anchors items read.1
                (λ id k. read_scores-items anchors items [] scores id read_clear k) scored in
            route_sums-safe show_num payload _ _
              (sum_of-is_some N (λ id. max_score_of (lookup id items)) (N.integer 0) anchors there)
              (sum_of-is_some N (λ id. lookup id read.1) (N.integer 0) anchors scored)
              (rw clear at e)
      ]

  route_ready-safe :
      (show_num : N.Num → String) (report : SchemaReport) (ready : Bool)
      (payload : Option (AssessmentPayload N)) (scores : List (AssessmentAnchorScore N))
      → route_ready show_num report ready payload scores ≢ type_error
  route_ready-safe show_num report false payload scores e = absurd (ground (arith, e))
  route_ready-safe show_num report true none scores e = absurd (ground (arith, e))
  route_ready-safe show_num report true (some payload) scores e =
      ground (arith, route_payload-safe show_num payload scores, e)

  -- The entries that the code reads with `!` are always there: no artifact and no list of scores makes
  -- the routing fail with a TypeError.
  pub route_assessment_from_anchors-safe :
      (show_num : N.Num → String) (schema_report : AssessmentArtifact N → SchemaReport)
      (artifact : AssessmentArtifact N) (scores : List (AssessmentAnchorScore N))
      → route_assessment_from_anchors show_num schema_report artifact scores ≢ type_error
  unfolding route_assessment_from_anchors
  route_assessment_from_anchors-safe show_num schema_report artifact scores =
      route_ready-safe show_num (schema_report artifact) (is_ready artifact.status) artifact.payload
        scores
