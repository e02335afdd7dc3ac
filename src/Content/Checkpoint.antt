-- ===== src/Content/Checkpoint.antt =====
-- src/role-c-content/reliability/checkpoint-store.ts: the checkpoints of the content pipeline. The
-- artifacts are opaque.
pub mod Laws
use knowbalance.Prelude.{
  String, Bool, true, false, not, ◌&&◌, ◌||◌, Option, none, some, List, [], ◌∷◌, filter, string_Eq,
  ◌==◌, ◌!=◌, is_some, if◌then◌else◌,
}
use knowbalance.Prelude.Dict.{lookup, insert}

pub data CheckpointStage : Type 0 where
  concept_ready branches_ready : CheckpointStage

pub record PipelineCheckpoint (Concept CodeLab Assessment : Type 0) : Type 0 where
  pub input_hash : String
  pub stage : CheckpointStage
  pub concept : Concept
  pub code_lab : Option CodeLab
  pub assessment : Option Assessment

pub data Saved (Store : Type 0) : Type 0 where
  saved : Store → Saved Store
  thrown : (message : String) → Saved Store

abbrev pub is_branches_ready : CheckpointStage → Bool
is_branches_ready concept_ready = false
is_branches_ready branches_ready = true

module _ {Concept CodeLab Assessment : Type 0} where
  -- The `Map` of `InMemoryPipelineCheckpointStore`.
  unfoldable pub load_checkpoint :
      List (String × PipelineCheckpoint Concept CodeLab Assessment)
      → (input_hash : String) → Option (PipelineCheckpoint Concept CodeLab Assessment)
  load_checkpoint values input_hash = lookup input_hash values

  abbrev pub is_complete : PipelineCheckpoint Concept CodeLab Assessment → Bool
  is_complete checkpoint = not (
      is_branches_ready checkpoint.stage
      && (not (is_some checkpoint.code_lab) || not (is_some checkpoint.assessment)))

  unfoldable pub save_checkpoint :
      List (String × PipelineCheckpoint Concept CodeLab Assessment)
      → PipelineCheckpoint Concept CodeLab Assessment
      → Saved (List (String × PipelineCheckpoint Concept CodeLab Assessment))
  save_checkpoint values checkpoint =
      if is_complete checkpoint
      then saved (insert checkpoint.input_hash checkpoint values)
      else thrown "branches_ready checkpoint 缺少分支产物"

  unfoldable pub delete_checkpoint :
      List (String × PipelineCheckpoint Concept CodeLab Assessment)
      → (input_hash : String) → List (String × PipelineCheckpoint Concept CodeLab Assessment)
  delete_checkpoint values input_hash = filter (λ entry. entry.0 != input_hash) values
