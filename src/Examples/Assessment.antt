-- ===== src/Examples/Assessment.antt =====
-- Runs of the assessment routing and of the content pipeline.
use knowbalance.Prelude.{◌≡◌, ◌≢◌, ◌↔◌, refl, String, true, some, List, [], ◌∷◌}
use knowbalance.Prelude.Dict.{lookup, insert}
use knowbalance.Prelude.Sorting.{sort}
use knowbalance.Prelude.Number.{millionths}
use knowbalance.Content.Policy.{reinforce, advance}
use knowbalance.Content.Mastery.Update.{round, clamp01}
use knowbalance.Content.Pipeline.{
  PipelineState, planned, generating, validating, revising, ready, moved,
}
use knowbalance.Content.Pipeline.Laws.{drive_pipeline, Rounds, drive_pipeline-published_iff}
use knowbalance.Content.Routing.{
  AssessmentPayload, ArtifactStatus, AssessmentArtifact, AssessmentAnchorScore, SchemaReport,
  RoutingDecision, decided, type_error, is_ready, route_payload, read_scores, score_issues,
  missing_scores, route_sums, sum_of, choose_route, select_rule, required_items,
  route_assessment_from_anchors,
}
use knowbalance.Content.Routing.Laws.{route_assessment_from_anchors-safe}
use knowbalance.Content.Routing.Required.{IsRequired, route_assessment_from_anchors-IsRequired}

abbrev history : List PipelineState
history = generating ∷ validating ∷ revising ∷ validating ∷ ready ∷ []

drive_pipeline-published_iff_example :
    (drive_pipeline history planned ≡ moved ready)
    ↔ ((rest : List PipelineState) × (history ≡ generating ∷ validating ∷ rest) × Rounds rest)
drive_pipeline-published_iff_example = drive_pipeline-published_iff history

abbrev payload : AssessmentPayload millionths
payload = record {
  items =
      record { item_id = "q1"; tier = 1; max_score = 4000000 }
      ∷ record { item_id = "q2"; tier = 2; max_score = 6000000 }
      ∷ record { item_id = "q3"; tier = 3; max_score = 8000000 }
      ∷ [];
  anchor_item_ids = "q1" ∷ [];
  rules =
      record {
        route_id = "high";
        min_anchor_score_ratio = 500000;
        max_anchor_score_ratio = 1000000;
        action = advance;
        reveal_tiers = 2 ∷ [];
      }
      ∷ record {
        route_id = "low";
        min_anchor_score_ratio = 0;
        max_anchor_score_ratio = 500000;
        action = reinforce;
        reveal_tiers = 1 ∷ [];
      }
      ∷ [];
}

abbrev artifact : AssessmentArtifact millionths
artifact = record { status = ArtifactStatus.ready; payload = some payload }

abbrev scores : List (AssessmentAnchorScore millionths)
scores = record { item_id = "q1"; raw_score = 3000000 } ∷ []

abbrev valid_report : AssessmentArtifact millionths → SchemaReport
valid_report _ = record { ok = true; issues = [] }

abbrev show_num : millionths.Num → String
show_num n = "n"

route_assessment_from_anchors-safe_example :
    route_assessment_from_anchors show_num valid_report artifact scores ≢ type_error
route_assessment_from_anchors-safe_example =
    route_assessment_from_anchors-safe show_num valid_report artifact scores

abbrev decision : RoutingDecision millionths
decision = record {
  anchor_score_ratio = 750000;
  route_id = "high";
  action = advance;
  reveal_tiers = 2 ∷ [];
  required_item_ids = "q1" ∷ "q2" ∷ [];
}

route_assessment_from_anchors-runs :
    route_assessment_from_anchors show_num valid_report artifact scores ≡ decided decision
unfolding route_assessment_from_anchors route_payload read_scores score_issues lookup insert
    missing_scores route_sums sum_of choose_route select_rule sort round clamp01 required_items
route_assessment_from_anchors-runs = refl

route_assessment_from_anchors-IsRequired_example :
    (p : AssessmentPayload millionths) × (artifact.payload ≡ some p)
    × (is_ready artifact.status ≡ true)
    × ((valid_report artifact).ok ≡ true)
    × IsRequired p decision
route_assessment_from_anchors-IsRequired_example =
    route_assessment_from_anchors-IsRequired show_num valid_report artifact scores
      route_assessment_from_anchors-runs
