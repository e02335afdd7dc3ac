-- ===== src/Orchestration/Memory/Files.antt =====
-- Memory files: what is loaded after a save.
use Prim.Native.Char.{code}
use text.Mathlib.TextLemmas.{append_cancel_right}
use knowbalance.Prelude.{
  String, true, false, some, List, [], ◌∷◌, ◌≡◌, refl, sym, ap, ◌∙◌, arith, inl, inr, Bool-cases,
  string_Eq, ◌==◌, if◌then◌else◌, All, foldl, includes,
}
use knowbalance.Prelude.Text.{concat, all_chars}
use knowbalance.Prelude.Dict.{lookup-insert, HasDistinctKeys}
use knowbalance.Prelude.Number.{Number, IsOrder, IsUnit}
use knowbalance.Orchestration.Types.{
  LearnerMemorySnapshot, PersistenceEvent, mastery_update, learned_user_fact, session_completed,
}
use knowbalance.Orchestration.Memory.{
  MemoryFiles, Disk, is_safe, safe_learner_id, memory_path, memory_of, load_learner_memory,
  save_learner_memory, append_persistence_events, apply_event,
}
use knowbalance.Orchestration.Memory.Laws.{
  append_persistence_events_lem, append_persistence_events-IsOrder,
}

-- What JSON and `path.join` promise: a snapshot whose masteries are numbers from 0 to 1 is read as it
-- was written, and names of letters, digits, `_` and `-` with the ending `.json` have different paths
-- in one directory where they are different.
pub record IsFaithful {N : Number} (disk : Disk N) (root_dir : String) : Type 0 where
  pub parse_stringify :
      (snapshot : LearnerMemorySnapshot N)
      → HasDistinctKeys snapshot.mastery_by_source_id
      → All (λ entry. IsUnit N entry.1) snapshot.mastery_by_source_id
      → disk.parse (concat (disk.stringify snapshot ∷ "\n" ∷ [])) ≡ some snapshot
  pub different_paths :
      (a b : String)
      → all_chars is_safe a ≡ true
      → all_chars is_safe b ≡ true
      → disk.join_path (root_dir ∷ "learner-memory" ∷ concat (a ∷ ".json" ∷ []) ∷ [])
        ≡ disk.join_path (root_dir ∷ "learner-memory" ∷ concat (b ∷ ".json" ∷ []) ∷ [])
      → concat (a ∷ ".json" ∷ []) ≡ concat (b ∷ ".json" ∷ [])

safe_learner_id_same : (id : String) → all_chars is_safe id ≡ true → safe_learner_id id ≡ id
unfolding safe_learner_id
safe_learner_id_same String.[] h = refl
safe_learner_id_same (String.◌∷◌ c s) h =
    let here : is_safe (code c) ≡ true = ground arith in
    let later : all_chars is_safe s ≡ true = ground arith in
    rw (here, safe_learner_id_same s later) refl

beq_false_of : (a b c d : String) → (c ≡ d → a ≡ b) → (a == b) ≡ false → (c == d) ≡ false
beq_false_of a b c d f h = ground (arith, f, string_Eq.beq_iff a b, string_Eq.beq_iff c d)

module _ {N : Number} (disk : Disk N) (root_dir : String)
    (faithful : IsFaithful disk root_dir) where
  memory_path_same :
      (id : String)
      → all_chars is_safe id ≡ true
      → memory_path disk root_dir id
        ≡ disk.join_path (root_dir ∷ "learner-memory" ∷ concat (id ∷ ".json" ∷ []) ∷ [])
  unfolding memory_path
  memory_path_same id h =
      ap (λ name. disk.join_path (root_dir ∷ "learner-memory" ∷ concat (name ∷ ".json" ∷ []) ∷ []))
        (safe_learner_id_same id h)

  -- The learners whose ids need no replacement have files of their own.
  memory_path-injective :
      (a b : String)
      → all_chars is_safe a ≡ true
      → all_chars is_safe b ≡ true
      → memory_path disk root_dir a ≡ memory_path disk root_dir b
      → a ≡ b
  unfolding concat
  memory_path-injective a b p q e =
      append_cancel_right a b ".json"
        (faithful.different_paths a b p q (sym (memory_path_same a p) ∙ e ∙ memory_path_same b q))

  load-written :
      (files : MemoryFiles) (snapshot : LearnerMemorySnapshot N) (learner_id : String)
      → HasDistinctKeys snapshot.mastery_by_source_id
      → All (λ entry. IsUnit N entry.1) snapshot.mastery_by_source_id
      → all_chars is_safe snapshot.learner_id ≡ true
      → all_chars is_safe learner_id ≡ true
      → load_learner_memory disk root_dir
          (save_learner_memory disk root_dir files snapshot).0
          learner_id
        ≡ (if snapshot.learner_id == learner_id
            then snapshot
            else load_learner_memory disk root_dir files learner_id)
  unfolding load_learner_memory save_learner_memory memory_of
  load-written files snapshot learner_id distinct inside p q =
      let written = concat (disk.stringify snapshot ∷ "\n" ∷ []) in
      let found =
        lookup-insert (memory_path disk root_dir snapshot.learner_id)
          (memory_path disk root_dir learner_id) written files in
      elim (Bool-cases (snapshot.learner_id == learner_id)) [
        | inl same ↦
            let own = (string_Eq.beq_iff snapshot.learner_id learner_id).0 same in
            let path_same =
              (string_Eq.beq_iff (memory_path disk root_dir snapshot.learner_id)
                  (memory_path disk root_dir learner_id)).1
                (ap (memory_path disk root_dir) own) in
            rw (found, path_same, same, faithful.parse_stringify snapshot distinct inside) refl
        | inr other ↦
            let path_other =
              beq_false_of snapshot.learner_id learner_id
                (memory_path disk root_dir snapshot.learner_id)
                (memory_path disk root_dir learner_id)
                (memory_path-injective snapshot.learner_id learner_id p q) other in
            rw (found, path_other, other) refl
      ]

apply_event-learner_id :
    {N : Number} (memory : LearnerMemorySnapshot N) (event : PersistenceEvent N)
    → (apply_event memory event).learner_id ≡ memory.learner_id
unfolding apply_event
apply_event-learner_id memory (mastery_update source source_id mastery evidence) = refl
apply_event-learner_id memory (learned_user_fact source key value evidence) = refl
apply_event-learner_id memory (session_completed source session_id summary) =
    elim (Bool-cases (includes memory.completed_sessions session_id)) [
      | inl h ↦ rw h refl
      | inr h ↦ rw h refl
    ]

foldl-learner_id :
    {N : Number} (memory : LearnerMemorySnapshot N) (events : List (PersistenceEvent N))
    → (foldl apply_event memory events).learner_id ≡ memory.learner_id
foldl-learner_id memory [] = refl
foldl-learner_id memory (event ∷ events) =
    foldl-learner_id (apply_event memory event) events ∙ apply_event-learner_id memory event

-- Events do not change whose memory it is.
append_persistence_events-learner_id :
    {N : Number} (memory : LearnerMemorySnapshot N) (events : List (PersistenceEvent N))
    (now : String)
    → (append_persistence_events memory events now).learner_id ≡ memory.learner_id
unfolding append_persistence_events
append_persistence_events-learner_id memory events now = foldl-learner_id memory events

-- The memory of a learner with a table of distinct sources and masteries from 0 to 1 is brought up to
-- date and saved, on a disk that is faithful to such memories. Then the learner loads the new memory,
-- and any other learner loads what it loaded before; the ids of both consist of letters, digits, `_`
-- and `-`.
pub load-save :
    {N : Number} (disk : Disk N) (root_dir : String) (files : MemoryFiles)
    (memory : LearnerMemorySnapshot N) (events : List (PersistenceEvent N))
    (now learner_id : String)
    → IsOrder N
    → IsFaithful disk root_dir
    → HasDistinctKeys memory.mastery_by_source_id
    → All (λ entry. IsUnit N entry.1) memory.mastery_by_source_id
    → all_chars is_safe memory.learner_id ≡ true
    → all_chars is_safe learner_id ≡ true
    → let next = append_persistence_events memory events now in
      load_learner_memory disk root_dir (save_learner_memory disk root_dir files next).0 learner_id
      ≡ (if memory.learner_id == learner_id
          then next
          else load_learner_memory disk root_dir files learner_id)
load-save disk root_dir files memory events now learner_id order faithful distinct inside p q =
    let next = append_persistence_events memory events now in
    let (_, kept, _, _) = append_persistence_events_lem memory events now "" distinct in
    let (_, bounded) =
      append_persistence_events-IsOrder memory events now "" order distinct inside in
    let own = append_persistence_events-learner_id memory events now in
    let loaded =
      load-written disk root_dir faithful files next learner_id kept bounded
        (ap (all_chars is_safe) own ∙ p) q in
    loaded
    ∙ ap
        (λ id.
          if id == learner_id then next else load_learner_memory disk root_dir files learner_id)
        own
