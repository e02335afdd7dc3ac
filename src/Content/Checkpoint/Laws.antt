-- ===== src/Content/Checkpoint/Laws.antt =====
-- The checkpoint store as a map, and the invariant of what it holds.
use knowbalance.Prelude.{
  ◌≡◌, String, true, none, some, List, [], ◌∷◌, string_Eq, ◌==◌, ◌!=◌, arith, All, All-filter,
  if◌then◌else◌,
}
use knowbalance.Prelude.Dict.{lookup, insert, lookup-insert, All-insert}
use knowbalance.Content.Checkpoint.{
  PipelineCheckpoint, saved, is_complete, load_checkpoint, save_checkpoint, delete_checkpoint,
}

module _ {Concept CodeLab Assessment : Type 0} where
  lookup-delete :
      (values : List (String × PipelineCheckpoint Concept CodeLab Assessment)) (h j : String)
      → lookup j (delete_checkpoint values h) ≡ (if h == j then none else lookup j values)
  unfolding lookup delete_checkpoint
  lookup-delete [] h j = ground arith
  lookup-delete ((k, v) ∷ values) h j = ground (
    arith,
    lookup-delete values h j,
    string_Eq.beq_iff k h,
    string_Eq.beq_iff k j,
    string_Eq.beq_iff h j,
  )

  -- Each stored checkpoint has both branch artifacts where its stage says so.
  abbrev pub AllComplete : List (String × PipelineCheckpoint Concept CodeLab Assessment) → Type 0
  AllComplete values = All (λ entry. is_complete entry.1 ≡ true) values

  -- A save that returns, and the deletion of a hash after it: the saved hash loads the saved checkpoint
  -- and every other hash what it loaded before; a deleted hash loads nothing and every other hash what
  -- the save left; and both keep the invariant that stored checkpoints are complete.
  pub save_checkpoint-load :
      (values : List (String × PipelineCheckpoint Concept CodeLab Assessment))
      (checkpoint : PipelineCheckpoint Concept CodeLab Assessment) (deleted asked : String)
      {after : List (String × PipelineCheckpoint Concept CodeLab Assessment)}
      → AllComplete values
      → save_checkpoint values checkpoint ≡ saved after
      → (load_checkpoint after asked ≡ (
          if checkpoint.input_hash == asked then some checkpoint else load_checkpoint values asked))
        × (load_checkpoint (delete_checkpoint after deleted) asked
            ≡ (if deleted == asked then none else load_checkpoint after asked))
        × AllComplete after
        × AllComplete (delete_checkpoint after deleted)
  unfolding load_checkpoint save_checkpoint delete_checkpoint
  save_checkpoint-load values checkpoint deleted asked {after = after} inv h =
      let hash = checkpoint.input_hash in
      let fine : is_complete checkpoint ≡ true = ground (arith, h) in
      let e : after ≡ insert hash checkpoint values = ground (arith, h) in
      let kept : AllComplete (insert hash checkpoint values) =
        All-insert (λ (c : PipelineCheckpoint Concept CodeLab Assessment). is_complete c ≡ true)
          hash checkpoint values fine inv in
      rw e (
        lookup-insert hash asked checkpoint values,
        lookup-delete (insert hash checkpoint values) deleted asked,
        kept,
        All-filter (λ entry. is_complete entry.1 ≡ true) (λ entry. entry.0 != deleted)
            (insert hash checkpoint values) kept,
      )
