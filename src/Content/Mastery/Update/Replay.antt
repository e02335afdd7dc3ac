-- ===== src/Content/Mastery/Update/Replay.antt =====
-- A batch that was applied is in the ledger, and applying it again changes no state.
use knowbalance.Prelude.{
  ℕ, ◌≡◌, refl, String, true, Option, none, some, [], ◌∷◌, map, arith, string_Eq, ◌==◌, includes,
  includes-append, if◌then◌else◌, or_default, or_else, is_distinct, beq_refl, Bool-cases, inl, inr,
}
use knowbalance.Prelude.Dict.{lookup, lookup-insert}
use knowbalance.Prelude.Number.{Number}
use knowbalance.Content.Mastery.{ObjectiveMasteryState, ok, Store}
use knowbalance.Content.Mastery.Update.{
  Batch, Staged, event_key, batch_events, base_from, processed, next_state, first_revision,
  stage_batch, apply_batch,
}

module _ {N : Number} where
  -- The state that one turn of the loop stages.
  abbrev staged_state : Staged N → Batch N → ObjectiveMasteryState N → ObjectiveMasteryState N
  staged_state staged batch base =
      let revisions =
        first_revision staged.initial_revisions (event_key batch.first) base.revision in
      if includes (processed base) batch.first.idempotency_key
      then base
      else (next_state base batch (or_default (lookup (event_key batch.first) revisions) 0)).0

  next_state-processed :
      (base : ObjectiveMasteryState N) (batch : Batch N) (r : ℕ)
      → includes (processed (next_state base batch r).0) batch.first.idempotency_key ≡ true
  unfolding next_state
  next_state-processed base batch r =
      let key = batch.first.idempotency_key in
      ground (arith, includes-append (processed base) (key ∷ []) key, beq_refl key)

  staged_state-processed :
      (staged : Staged N) (batch : Batch N) (base : ObjectiveMasteryState N)
      → includes (processed (staged_state staged batch base)) batch.first.idempotency_key ≡ true
  staged_state-processed staged batch base =
      elim (Bool-cases (includes (processed base) batch.first.idempotency_key)) [
        | inl e ↦ rw e e
        | inr e ↦ rw e (next_state-processed base batch _)
      ]

  lookup-stage_batch :
      (staged : Staged N) (batch : Batch N) (base : ObjectiveMasteryState N) (key : String)
      → lookup key (stage_batch staged batch base).final_states ≡ (
          if event_key batch.first == key
          then some (staged_state staged batch base)
          else lookup key staged.final_states)
  unfolding stage_batch
  lookup-stage_batch staged batch base key =
      elim (Bool-cases (includes (processed base) batch.first.idempotency_key)) [
        | inl e ↦ rw e (lookup-insert (event_key batch.first) key _ staged.final_states)
        | inr e ↦ rw e (lookup-insert (event_key batch.first) key _ staged.final_states)
      ]

  -- A staged state has its ledger, so it is taken up as it is.
  base_from-staged_state :
      (staged : Staged N) (batch : Batch N) (o : Option (ObjectiveMasteryState N))
      → let state = staged_state staged batch (base_from batch.first o) in
        base_from batch.first (some state) ≡ state
  unfolding next_state
  base_from-staged_state staged batch none = refl
  base_from-staged_state staged batch (some existing) =
      elim (Bool-cases (includes (processed existing) batch.first.idempotency_key)) [
        | inl e ↦ rw e refl
        | inr e ↦ rw e refl
      ]

  staged_state_replayed :
      (staged : Staged N) (batch : Batch N) (base : ObjectiveMasteryState N)
      → includes (processed base) batch.first.idempotency_key ≡ true
      → staged_state staged batch base ≡ base
  staged_state_replayed staged batch base e = rw e refl

  abbrev stored : Store N → Staged N → Batch N → Option (ObjectiveMasteryState N)
  stored store staged batch =
      or_else (lookup (event_key batch.first) staged.final_states)
        (lookup (event_key batch.first) store)

  apply_batch-ok :
      (store : Store N) (staged : Staged N) (batch : Batch N) {next : Staged N}
      → apply_batch store staged batch ≡ ok next
      → (next ≡ stage_batch staged batch (base_from batch.first (stored store staged batch)))
        × (is_distinct (map (λ event. event.item_id) (batch_events batch)) ≡ true)
  unfolding apply_batch
  apply_batch-ok store staged batch h = ground arith

  replayed :
      (store : Store N) (staged : Staged N) (batch : Batch N) (key : String)
      → let next = stage_batch staged batch (base_from batch.first (stored store staged batch)) in
        lookup key
          (stage_batch next batch (base_from batch.first (stored store next batch))).final_states
        ≡ lookup key next.final_states
  replayed store staged batch key =
      let at = event_key batch.first in
      let base = base_from batch.first (stored store staged batch) in
      let next = stage_batch staged batch base in
      let state = staged_state staged batch base in
      let found : lookup at next.final_states ≡ some state =
        rw (lookup-stage_batch staged batch base at, beq_refl at) refl in
      let taken : base_from batch.first (stored store next batch) ≡ state =
        rw found (base_from-staged_state staged batch (stored store staged batch)) in
      let same : staged_state next batch state ≡ state =
        staged_state_replayed next batch state (staged_state-processed staged batch base) in
      rw (taken, lookup-stage_batch next batch state key, same)
        (ground (arith, found, string_Eq.beq_iff at key))

  -- A batch that was applied without an error can be applied again: no error comes of it either, and
  -- every objective keeps its staged state, with its mastery, revision and ledger.
  pub apply_batch-idempotent :
      (store : Store N) (staged : Staged N) (batch : Batch N) (key : String) {next : Staged N}
      → apply_batch store staged batch ≡ ok next
      → (again : Staged N) × (apply_batch store next batch ≡ ok again)
        × (lookup key again.final_states ≡ lookup key next.final_states)
  unfolding apply_batch
  apply_batch-idempotent store staged batch key {next = next} h =
      let (e, distinct) = apply_batch-ok store staged batch h in
      (
        stage_batch next batch (base_from batch.first (stored store next batch)),
        rw distinct refl,
        rw e (replayed store staged batch key),
      )
