-- ===== src/Content/Pipeline.antt =====
-- src/role-c-content/orchestrator/state-machine.ts: the states of the content pipeline.
pub mod Laws
use knowbalance.Prelude.{
  ℕ, zero, suc, ◌≡◌, refl, Bool, true, false, Option, none, some, List, [], ◌∷◌, arith, index_Eq,
  Eq, ◌==◌, includes, if◌then◌else◌, String,
}
use knowbalance.Prelude.Text.{concat}

-- `CPipelineState`
pub data PipelineState : Type 0 where
  planned generating validating revising ready blocked failed : PipelineState

abbrev pub pipeline_state_index : PipelineState → ℕ
pipeline_state_index planned = 0
pipeline_state_index generating = 1
pipeline_state_index validating = 2
pipeline_state_index revising = 3
pipeline_state_index ready = 4
pipeline_state_index blocked = 5
pipeline_state_index failed = 6

abbrev pub pipeline_state_at : ℕ → PipelineState
pipeline_state_at zero = planned
pipeline_state_at (suc zero) = generating
pipeline_state_at (suc (suc zero)) = validating
pipeline_state_at (suc (suc (suc zero))) = revising
pipeline_state_at (suc (suc (suc (suc zero)))) = ready
pipeline_state_at (suc (suc (suc (suc (suc zero))))) = blocked
pipeline_state_at _ = failed

pub pipeline_state_at-index : (a : PipelineState) → pipeline_state_at (pipeline_state_index a) ≡ a
pipeline_state_at-index planned = refl
pipeline_state_at-index _ = refl

instance abbrev pub pipeline_state_Eq : Eq PipelineState
pipeline_state_Eq = index_Eq pipeline_state_index pipeline_state_at pipeline_state_at-index

abbrev pub pipeline_state_name : PipelineState → String
pipeline_state_name planned = "PLANNED"
pipeline_state_name generating = "GENERATING"
pipeline_state_name validating = "VALIDATING"
pipeline_state_name revising = "REVISING"
pipeline_state_name ready = "READY"
pipeline_state_name blocked = "BLOCKED"
pipeline_state_name failed = "FAILED"

abbrev pub allowed_transitions : PipelineState → List PipelineState
allowed_transitions planned = generating ∷ blocked ∷ failed ∷ []
allowed_transitions generating = validating ∷ blocked ∷ failed ∷ []
allowed_transitions validating = ready ∷ revising ∷ blocked ∷ failed ∷ []
allowed_transitions revising = validating ∷ blocked ∷ failed ∷ []
allowed_transitions ready = []
allowed_transitions blocked = []
allowed_transitions failed = []

-- The state returned, or the message thrown.
pub data Moved : Type 0 where
  moved : PipelineState → Moved
  thrown : (message : String) → Moved

unfoldable pub can_transition_c_state : PipelineState → PipelineState → Bool
can_transition_c_state current next = includes (allowed_transitions current) next

unfoldable pub transition_c_state : PipelineState → PipelineState → Moved
transition_c_state current next =
    if includes (allowed_transitions current) next
    then moved next
    else thrown (
        concat
          ("非法 C 流水线状态转换：" ∷ pipeline_state_name current ∷ " -> " ∷ pipeline_state_name next ∷ []))
