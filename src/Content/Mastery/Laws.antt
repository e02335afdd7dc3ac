-- ===== src/Content/Mastery/Laws.antt =====
-- The compare-and-swap of the mastery store.
use knowbalance.Prelude.{
  ℕ, ◌+◌, ◌≡◌, refl, sym, true, false, Option, none, some, List, [], ◌∷◌, map, arith, all,
  string_Eq, nat_Eq, ◌==◌, if◌then◌else◌, includes, or_else, String, beq_refl,
}
use knowbalance.Prelude.Dict.{lookup, insert, lookup-insert}
use knowbalance.Prelude.Number.{Number}
use knowbalance.Content.Mastery.{
  ObjectiveMasteryState, MasteryStateWrite, ok, thrown, Store, write_key, revision_of,
  is_revision_step, has_unique_writes, is_expected, write_all, save_batch,
}

module _ {N : Number} where
  -- The state that a batch writes under a key.
  abbrev pub written : String → List (MasteryStateWrite N) → Option (ObjectiveMasteryState N)
  written key [] = none
  written key (write ∷ writes) =
      if write_key write == key then some write.state else written key writes

  written-missing :
      (key : String) (writes : List (MasteryStateWrite N))
      → includes (map write_key writes) key ≡ false
      → written key writes ≡ none
  written-missing key [] h = refl
  written-missing key (write ∷ writes) h = ground (arith, written-missing key writes)

  lookup-write_all :
      (key : String) (states : Store N) (writes : List (MasteryStateWrite N))
      → has_unique_writes writes ≡ true
      → lookup key (write_all states writes) ≡ or_else (written key writes) (lookup key states)
  unfolding write_all has_unique_writes
  lookup-write_all key states [] h = refl
  lookup-write_all key states (write ∷ writes) h = ground (
    arith,
    lookup-write_all key (insert (write_key write) write.state states) writes,
    lookup-insert (write_key write) key write.state states,
    written-missing key writes,
    string_Eq.beq_iff (write_key write) key,
  )

  save_batch-checked :
      (states : Store N) (writes : List (MasteryStateWrite N)) {saved : Store N}
      → save_batch states writes ≡ ok saved
      → (has_unique_writes writes ≡ true)
        × (all is_revision_step writes ≡ true)
        × (all (is_expected states) writes ≡ true)
        × (saved ≡ write_all states writes)
  unfolding save_batch
  save_batch-checked states writes h = ground arith

  -- The revision of a written state is one more than the stored one.
  written-revision :
      (key : String) (states : Store N) (writes : List (MasteryStateWrite N))
      {state : ObjectiveMasteryState N}
      → all is_revision_step writes ≡ true
      → all (is_expected states) writes ≡ true
      → written key writes ≡ some state
      → state.revision ≡ revision_of (lookup key states) + 1
  unfolding is_revision_step is_expected
  written-revision key states [] steps expected h = absurd (ground (arith, h))
  written-revision key states (write ∷ writes) {state = state} steps expected h = ground (
    arith,
    written-revision key states writes {state = state},
    string_Eq.beq_iff (write_key write) key,
  )

  abbrev pub written_revision : Option (ObjectiveMasteryState N) → ℕ → ℕ
  written_revision none before = before
  written_revision (some state) before = before + 1

  -- After a batch is saved, every key holds the state that the batch writes under it, with a revision
  -- one above the one that was stored (0 where none was), and a key that the batch does not write
  -- holds what it held.
  pub save_batch-compare_and_swap :
      (states : Store N) (writes : List (MasteryStateWrite N)) {saved : Store N}
      → save_batch states writes ≡ ok saved
      → (key : String)
      → (lookup key saved ≡ or_else (written key writes) (lookup key states))
        × (revision_of (lookup key saved)
            ≡ written_revision (written key writes) (revision_of (lookup key states)))
  save_batch-compare_and_swap states writes h key =
      let (distinct, steps, expected, e) = save_batch-checked states writes h in
      let found = lookup-write_all key states writes distinct in
      (rw e found, rw (e, found) (go (written key writes) refl steps expected))
    where
      go :
          (w : Option (ObjectiveMasteryState N))
          → w ≡ written key writes
          → all is_revision_step writes ≡ true
          → all (is_expected states) writes ≡ true
          → revision_of (or_else w (lookup key states))
            ≡ written_revision w (revision_of (lookup key states))
      go none e steps expected = refl
      go (some state) e steps expected = written-revision key states writes steps expected (sym e)

  -- A batch of at least one write that was saved once is refused as a conflict when it is saved again.
  pub save_batch-once :
      (states : Store N) (write : MasteryStateWrite N) (writes : List (MasteryStateWrite N))
      {saved : Store N}
      → save_batch states (write ∷ writes) ≡ ok saved
      → save_batch saved (write ∷ writes) ≡ thrown "MASTERY_REVISION_CONFLICT"
  unfolding save_batch is_expected is_revision_step
  save_batch-once states write writes {saved} h =
      let (distinct, steps, expected, e) = save_batch-checked states (write ∷ writes) h in
      let (found, revised) =
        save_batch-compare_and_swap states (write ∷ writes) h (write_key write) in
      ground (arith, distinct, steps, expected, found, revised, beq_refl (write_key write))
