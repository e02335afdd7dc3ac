-- ===== src/Content/Routing.antt =====
-- src/role-c-content/grading/assessment-routing.ts and the parts of contracts/artifacts.ts that it
-- reads. Parameters: the report of the schema validation and the text of a number.
pub mod Laws
pub mod Required
use knowbalance.Prelude.{
  ℕ, String, Bool, true, false, not, ◌&&◌, ◌||◌, Option, none, some, List, [], ◌∷◌, ◌++◌, map,
  foldl, filter, sort, nat_eq, string_Eq, nat_Eq, ◌==◌, includes, unique, if◌then◌else◌, is_empty,
  is_some,
}
use knowbalance.Prelude.Text.{concat}
use knowbalance.Prelude.Dict.{lookup, insert}
use knowbalance.Prelude.Number.{Number, num_max, num_min}
use knowbalance.Content.Policy.{Action}
use knowbalance.Content.Mastery.Update.{clamp01, round}

pub record AssessmentItem (N : Number) : Type 0 where
  pub item_id : String
  pub tier : ℕ
  pub max_score : N.Num

pub record AssessmentRoutingRule (N : Number) : Type 0 where
  pub route_id : String
  pub min_anchor_score_ratio : N.Num
  pub max_anchor_score_ratio : N.Num
  pub action : Action
  pub reveal_tiers : List ℕ

pub record AssessmentPayload (N : Number) : Type 0 where
  pub items : List (AssessmentItem N)
  pub anchor_item_ids : List String
  pub rules : List (AssessmentRoutingRule N)

pub data ArtifactStatus : Type 0 where
  ready blocked failed : ArtifactStatus

pub record AssessmentArtifact (N : Number) : Type 0 where
  pub status : ArtifactStatus
  pub payload : Option (AssessmentPayload N)

-- A report of `validateRoleCSchema`: its verdict, and the path and message of each issue.
pub record SchemaReport : Type 0 where
  pub ok : Bool
  pub issues : List (String × String)

pub record AssessmentAnchorScore (N : Number) : Type 0 where
  pub item_id : String
  pub raw_score : N.Num

pub record RoutingDecision (N : Number) : Type 0 where
  pub anchor_score_ratio : N.Num
  pub route_id : String
  pub action : Action
  pub reveal_tiers : List ℕ
  pub required_item_ids : List String

-- A decision, the issues, or a TypeError from a `!` on a missing entry.
pub data Routed (N : Number) : Type 0 where
  decided : RoutingDecision N → Routed N
  refused : (issues : List String) → Routed N
  type_error : Routed N

abbrev pub is_ready : ArtifactStatus → Bool
is_ready ready = true
is_ready _ = false

abbrev pub issue_if : Bool → String → List String
issue_if true message = message ∷ []
issue_if false message = []

unfoldable pub missing_scores {ℓ} : {A : Type ℓ} → List String → List (String × A) → List String
missing_scores [] score_by_id = []
missing_scores (id ∷ ids) score_by_id =
    issue_if (not (is_some (lookup id score_by_id))) (concat ("缺少锚点成绩：" ∷ id ∷ []))
    ++ missing_scores ids score_by_id

-- `ids.reduce((sum, id) => sum + map.get(id)!, sum)`; `none` where an entry is missing.
unfoldable pub sum_of : (N : Number) → (String → Option N.Num) → N.Num → List String → Option N.Num
sum_of N value sum [] = some sum
sum_of N value sum (id ∷ ids) = elim (value id) [
  | none ↦ none
  | some v ↦ sum_of N value (N.add sum v) ids
]

abbrev pub round01 : (N : Number) → N.Num → N.Num
round01 N value = round N (clamp01 N value)

module _ {N : Number} where
  abbrev pub item_by_id : List (AssessmentItem N) → List (String × AssessmentItem N)
  item_by_id items = foldl (λ m item. insert item.item_id item m) [] items

  abbrev pub exceeds : AssessmentAnchorScore N → Option (AssessmentItem N) → Bool
  exceeds score none = false
  exceeds score (some item) = N.lt item.max_score score.raw_score

  -- The issues of one score, after the scores that are in `score_by_id`.
  unfoldable pub score_issues :
      List String
      → List (String × AssessmentItem N)
      → List (String × N.Num)
      → AssessmentAnchorScore N
      → List String
  score_issues anchor_ids items score_by_id score =
      let id = score.item_id in
      issue_if (is_some (lookup id score_by_id)) (concat ("锚点成绩重复：" ∷ id ∷ []))
      ++ (issue_if (not (includes anchor_ids id)) (concat ("非锚点题不得进入路由：" ∷ id ∷ []))
          ++ (issue_if (not (is_some (lookup id items))) (concat ("锚点题不存在：" ∷ id ∷ []))
              ++ issue_if
                  (not (N.is_finite score.raw_score)
                    || (N.lt score.raw_score (N.integer 0) || exceeds score (lookup id items)))
                  (concat ("锚点成绩越界：" ∷ id ∷ []))))

  -- The loop over the scores: its issues and the map of the scores.
  unfoldable pub read_scores :
      List String
      → List (String × AssessmentItem N)
      → List (String × N.Num)
      → List (AssessmentAnchorScore N)
      → List String × List (String × N.Num)
  read_scores anchor_ids items score_by_id [] = ([], score_by_id)
  read_scores anchor_ids items score_by_id (score ∷ scores) =
      let rest =
        read_scores anchor_ids items (insert score.item_id score.raw_score score_by_id) scores in
      (score_issues anchor_ids items score_by_id score ++ rest.0, rest.1)

  abbrev pub max_score_of : Option (AssessmentItem N) → Option N.Num
  max_score_of none = none
  max_score_of (some item) = some item.max_score

  -- `rules.find`, whose test takes the upper bound in only for the last rule.
  unfoldable pub select_rule :
      N.Num → List (AssessmentRoutingRule N) → Option (AssessmentRoutingRule N)
  select_rule ratio [] = none
  select_rule ratio (rule ∷ rules) =
      let rest = select_rule ratio rules in
      if N.le rule.min_anchor_score_ratio ratio
        && (if is_empty rules
            then N.le ratio rule.max_anchor_score_ratio
            else N.lt ratio rule.max_anchor_score_ratio)
      then some rule
      else rest

  unfoldable pub required_items : AssessmentPayload N → AssessmentRoutingRule N → List String
  required_items payload rule = unique (
      map (λ item. item.item_id)
        (filter
          (λ item.
            includes payload.anchor_item_ids item.item_id || includes rule.reveal_tiers item.tier)
          payload.items))

  module _ (show_num : N.Num → String) where
    unfoldable pub choose_route :
        AssessmentPayload N → N.Num → Option (AssessmentRoutingRule N) → Routed N
    choose_route payload ratio none =
        refused (concat ("锚点分数 " ∷ show_num ratio ∷ " 未命中任何路由区间" ∷ []) ∷ [])
    choose_route payload ratio (some rule) = decided (record {
      anchor_score_ratio = ratio;
      route_id = rule.route_id;
      action = rule.action;
      reveal_tiers = rule.reveal_tiers;
      required_item_ids = required_items payload rule;
    })

    -- The part after the scores are found to be valid, by the two sums.
    unfoldable pub route_sums : AssessmentPayload N → Option N.Num → Option N.Num → Routed N
    route_sums payload none achieved = type_error
    route_sums payload (some maximum) none =
        if N.le maximum (N.integer 0) then refused ("锚点题总分必须大于 0" ∷ []) else type_error
    route_sums payload (some maximum) (some achieved) =
        let ratio = round01 N (N.div achieved maximum) in
        let rules =
          sort (λ left right. N.le left.min_anchor_score_ratio right.min_anchor_score_ratio)
            payload.rules in
        if N.le maximum (N.integer 0)
        then refused ("锚点题总分必须大于 0" ∷ [])
        else choose_route payload ratio (select_rule ratio rules)

    unfoldable pub route_payload : AssessmentPayload N → List (AssessmentAnchorScore N) → Routed N
    route_payload payload scores =
        let items = item_by_id payload.items in
        let anchors = payload.anchor_item_ids in
        let read = read_scores anchors items [] scores in
        let issues = read.0 ++ missing_scores anchors read.1 in
        if is_empty issues
        then route_sums payload
            (sum_of N (λ id. max_score_of (lookup id items)) (N.integer 0) anchors)
            (sum_of N (λ id. lookup id read.1) (N.integer 0) anchors)
        else refused (unique issues)

    abbrev pub route_ready :
        SchemaReport
        → Bool
        → Option (AssessmentPayload N)
        → List (AssessmentAnchorScore N)
        → Routed N
    route_ready report false payload scores = refused (
        map (λ issue. concat (issue.0 ∷ ": " ∷ issue.1 ∷ [])) report.issues
        ++ "assessment_public 未就绪" ∷ [])
    route_ready report true none scores = refused (
        map (λ issue. concat (issue.0 ∷ ": " ∷ issue.1 ∷ [])) report.issues
        ++ "assessment_public 未就绪" ∷ [])
    route_ready report true (some payload) scores =
        if report.ok
        then route_payload payload scores
        else refused (map (λ issue. concat (issue.0 ∷ ": " ∷ issue.1 ∷ [])) report.issues)

    module _ (schema_report : AssessmentArtifact N → SchemaReport) where
      unfoldable pub route_assessment_from_anchors :
          AssessmentArtifact N → List (AssessmentAnchorScore N) → Routed N
      route_assessment_from_anchors artifact scores =
          route_ready (schema_report artifact) (is_ready artifact.status) artifact.payload scores
