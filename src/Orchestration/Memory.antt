-- ===== src/Orchestration/Memory.antt =====
-- src/orchestration/learner-memory.ts. The memory files are a map from paths to texts; what JSON and
-- `path.join` do is a parameter.
pub mod Laws
pub mod Files
use Prim.Native.Char.{code}
use knowbalance.Prelude.{
  ℕ, String, Bool, true, false, ◌&&◌, ◌||◌, Option, none, some, List, [], ◌∷◌, ◌++◌, map, foldl,
  string_Eq, if◌then◌else◌, filter, includes, sort, leb, ltb, nat_eq, Bool, or_default, Eq,
}
use knowbalance.Prelude.Text.{concat, join, text_le}
use knowbalance.Prelude.Dict.{lookup, insert}
use knowbalance.Prelude.Number.{Number, clamp_unit}
use knowbalance.Orchestration.Types.{
  PersistenceEvent, mastery_update, learned_user_fact, session_completed, LearnerMemorySnapshot,
}

-- One round of the loop of `appendPersistenceEvents`, on the clone of the snapshot. The tables are
-- plain objects of the language, so a source id is a key other than `__proto__`.
pub apply_event :
    {N : Number} → LearnerMemorySnapshot N → PersistenceEvent N → LearnerMemorySnapshot N
apply_event {N} next (mastery_update source source_id mastery evidence) = record next {
  mastery_by_source_id = insert source_id (clamp_unit N mastery) next.mastery_by_source_id;
}
apply_event next (learned_user_fact source key value evidence) = next
apply_event next (session_completed source session_id summary) =
    if includes next.completed_sessions session_id
    then next
    else record next { completed_sessions = next.completed_sessions ++ session_id ∷ [] }

-- `Object.entries(…).filter(([, mastery]) => p(mastery)).map(([id]) => id).sort()`
unfoldable pub ids_where : {V : Type 0} → (V → Bool) → List (String × V) → List String
ids_where p entries = sort text_le (map (λ entry. entry.0) (filter (λ entry. p entry.1) entries))

abbrev pub is_mastered : (N : Number) → N.Num → Bool
is_mastered N mastery = N.le (N.hundredths 80) mastery

abbrev pub is_weak : (N : Number) → N.Num → Bool
is_weak N mastery = N.le mastery (N.hundredths 40)

unfoldable pub append_persistence_events :
    {N : Number}
    → LearnerMemorySnapshot N
    → List (PersistenceEvent N)
    → String
    → LearnerMemorySnapshot N
unfolding apply_event
append_persistence_events {N} snapshot events now =
    let next = foldl apply_event snapshot events in
    record next {
      mastered_source_ids = ids_where (is_mastered N) next.mastery_by_source_id;
      weak_source_ids = ids_where (is_weak N) next.mastery_by_source_id;
      updated_at = now;
    }

pub record Quote : Type 0 where
  pub field : String
  pub text : String

pub record MemorySummaryForProfile : Type 0 where
  pub claimed_known : List String
  pub claimed_weak : List String
  pub quotes : List Quote

unfoldable pub memory_summary_for_profile :
    {N : Number} → LearnerMemorySnapshot N → MemorySummaryForProfile
memory_summary_for_profile snapshot = record {
  claimed_known = snapshot.mastered_source_ids;
  claimed_weak = snapshot.weak_source_ids;
  quotes =
      record {
        field = "learner_memory";
        text = concat (
            "learner memory "
            ∷ snapshot.learner_id
            ∷ ": mastered="
            ∷ join "," snapshot.mastered_source_ids
            ∷ "; weak="
            ∷ join "," snapshot.weak_source_ids
            ∷ []);
      }
      ∷ [];
}

unfoldable pub empty_memory : {N : Number} → String → LearnerMemorySnapshot N
empty_memory learner_id = record {
  schema_version = "1.0";
  learner_id = learner_id;
  mastery_by_source_id = [];
  mastered_source_ids = [];
  weak_source_ids = [];
  completed_sessions = [];
  recent_errors = [];
  updated_at = "";
}

-- `value.replace(/[^a-zA-Z0-9_-]/g, "_")`, by code units.
abbrev pub is_safe : ℕ → Bool
is_safe c =
    leb b'a' c && leb c b'z'
    || leb b'A' c && leb c b'Z'
    || leb b'0' c && leb c b'9'
    || nat_eq c b'_'
    || nat_eq c b'-'

unfoldable pub safe_learner_id : String → String
safe_learner_id String.[] = String.[]
safe_learner_id (String.◌∷◌ c s) =
    let rest = safe_learner_id s in
    if is_safe (code c)
    then String.◌∷◌ c rest
    else concat ((if ltb (code c) 0x10000 then "_" else "__") ∷ rest ∷ [])

-- The texts of the memory files, by path.
abbrev pub MemoryFiles : Type 0
MemoryFiles = List (String × String)

-- `JSON.stringify(snapshot, null, 2)`, and `JSON.parse` with the cast to a snapshot, `none` where it
-- throws; and `node:path.join`. The files are those that the program writes: what `parse` gives for
-- a text of another shape is up to the parameter.
pub record Disk (N : Number) : Type 0 where
  pub stringify : LearnerMemorySnapshot N → String
  pub parse : String → Option (LearnerMemorySnapshot N)
  pub join_path : List String → String

module _ {N : Number} (disk : Disk N) (root_dir : String) where
  unfoldable pub memory_path : String → String
  memory_path learner_id =
      disk.join_path
        (root_dir ∷ "learner-memory" ∷ concat (safe_learner_id learner_id ∷ ".json" ∷ []) ∷ [])

  -- What is read from a file, and the empty memory where there is none or it is no JSON.
  unfoldable pub memory_of : String → Option String → LearnerMemorySnapshot N
  memory_of learner_id none = empty_memory learner_id
  memory_of learner_id (some text) = or_default (disk.parse text) (empty_memory learner_id)

  unfoldable pub load_learner_memory : MemoryFiles → String → LearnerMemorySnapshot N
  load_learner_memory files learner_id =
      memory_of learner_id (lookup (memory_path learner_id) files)

  -- The files after the write, and the path that is returned.
  unfoldable pub save_learner_memory : MemoryFiles → LearnerMemorySnapshot N → MemoryFiles × String
  save_learner_memory files snapshot = (
    insert (memory_path snapshot.learner_id) (concat (disk.stringify snapshot ∷ "\n" ∷ [])) files,
    memory_path snapshot.learner_id,
  )
