-- ===== src/Content/Pipeline/Laws.antt =====
-- Which histories of the content pipeline publish.
use knowbalance.Prelude.{◌≡◌, ◌≢◌, ◌↔◌, refl, List, [], ◌∷◌, arith}
use knowbalance.Content.Pipeline.{
  PipelineState, planned, generating, validating, revising, ready, blocked, failed, Moved, moved,
  thrown, transition_c_state,
}

-- A caller that moves through a list of states and stops at the first refusal.
unfoldable pub drive_pipeline : List PipelineState → PipelineState → Moved
drive_pipeline [] current = moved current
drive_pipeline (next ∷ rest) current = elim (transition_c_state current next) [
  | moved state ↦ drive_pipeline rest state
  | thrown message ↦ thrown message
]

-- What follows the first validation of a history that publishes: revisions, each validated again.
pub data Rounds : List PipelineState → Type 0 where
  published : Rounds (ready ∷ [])
  revised : {es : List PipelineState} → Rounds es → Rounds (revising ∷ validating ∷ es)

-- A stopped pipeline stays where it is.
drive_pipeline_stopped-blocked : (es : List PipelineState) → drive_pipeline es blocked ≢ moved ready
unfolding drive_pipeline transition_c_state
drive_pipeline_stopped-blocked [] h = absurd (ground (arith, h))
drive_pipeline_stopped-blocked (e ∷ es) h = absurd (ground (arith, h))

drive_pipeline_stopped-failed : (es : List PipelineState) → drive_pipeline es failed ≢ moved ready
unfolding drive_pipeline transition_c_state
drive_pipeline_stopped-failed [] h = absurd (ground (arith, h))
drive_pipeline_stopped-failed (e ∷ es) h = absurd (ground (arith, h))

drive_pipeline-Rounds :
    (es : List PipelineState) → drive_pipeline es validating ≡ moved ready → Rounds es
unfolding drive_pipeline transition_c_state
drive_pipeline-Rounds (ready ∷ []) h = published
drive_pipeline-Rounds (revising ∷ validating ∷ es) h = revised (drive_pipeline-Rounds es h)
drive_pipeline-Rounds (blocked ∷ es) h = absurd (drive_pipeline_stopped-blocked es h)
drive_pipeline-Rounds (failed ∷ es) h = absurd (drive_pipeline_stopped-failed es h)
drive_pipeline-Rounds (revising ∷ blocked ∷ es) h = absurd (drive_pipeline_stopped-blocked es h)
drive_pipeline-Rounds (revising ∷ failed ∷ es) h = absurd (drive_pipeline_stopped-failed es h)
drive_pipeline-Rounds _ h = absurd (ground (arith, h))

drive_pipeline-of_Rounds :
    {es : List PipelineState} → Rounds es → drive_pipeline es validating ≡ moved ready
unfolding drive_pipeline transition_c_state
drive_pipeline-of_Rounds published = refl
drive_pipeline-of_Rounds (revised r) = drive_pipeline-of_Rounds r

drive_pipeline-generating :
    (es : List PipelineState)
    → drive_pipeline es planned ≡ moved ready
    → (rest : List PipelineState) × (es ≡ generating ∷ validating ∷ rest) × Rounds rest
unfolding drive_pipeline transition_c_state
drive_pipeline-generating (generating ∷ validating ∷ es) h = (es, refl, drive_pipeline-Rounds es h)
drive_pipeline-generating (generating ∷ blocked ∷ es) h =
    absurd (drive_pipeline_stopped-blocked es h)
drive_pipeline-generating (generating ∷ failed ∷ es) h = absurd (drive_pipeline_stopped-failed es h)
drive_pipeline-generating (blocked ∷ es) h = absurd (drive_pipeline_stopped-blocked es h)
drive_pipeline-generating (failed ∷ es) h = absurd (drive_pipeline_stopped-failed es h)
drive_pipeline-generating _ h = absurd (ground (arith, h))

-- From PLANNED, a list of moves, made until one is refused, ends in READY exactly when it is one
-- generation and one validation, then any number of revisions that are each validated again, then
-- READY and nothing more.
pub drive_pipeline-published_iff :
    (es : List PipelineState)
    → (drive_pipeline es planned ≡ moved ready)
      ↔ ((rest : List PipelineState) × (es ≡ generating ∷ validating ∷ rest) × Rounds rest)
unfolding drive_pipeline transition_c_state
drive_pipeline-published_iff es =
    (drive_pipeline-generating es, λ (rest, e, r). rw e (drive_pipeline-of_Rounds r))
