-- ===== src/Orchestration/Memory/Laws.antt =====
-- What `appendPersistenceEvents` makes of a learner's memory.
use knowbalance.Prelude.{
  String, Bool, false, ◌≡◌, refl, sym, ap, ◌∙◌, Option, none, some, List, [], ◌∷◌, ◌++◌, map, foldl,
  arith, string_Eq, ◌==◌, if◌then◌else◌, includes, add_new, includes-sort, filter, or_else,
  Bool-cases, inl, inr, All, ◌&&◌, foldl-append, includes-foldl, ◌||◌, foldl-add_new_seen,
  all-includes_added,
}
use knowbalance.Prelude.Text.{text_le}
use knowbalance.Prelude.Dict.{
  lookup, lookup-insert, HasDistinctKeys, holds, insert-HasDistinctKeys, includes-filter-lookup,
  All-insert,
}
use knowbalance.Prelude.Number.{Number, IsOrder, clamp_unit, IsUnit, clamp_unit-IsUnit}
use knowbalance.Orchestration.Types.{
  PersistenceEvent, mastery_update, learned_user_fact, session_completed, LearnerMemorySnapshot,
}
use knowbalance.Orchestration.Memory.{
  apply_event, ids_where, is_mastered, is_weak, append_persistence_events,
}

includes-ids_where :
    {V : Type 0} (p : V → Bool) (m : List (String × V)) (id : String)
    → HasDistinctKeys m
    → includes (ids_where p m) id ≡ holds p (lookup id m)
unfolding ids_where
includes-ids_where p m id h =
    includes-sort text_le (map (λ entry. entry.0) (filter (λ entry. p entry.1) m)) id
    ∙ includes-filter-lookup p m id h

-- The mastery that an event records for a source.
abbrev pub mastery_of : {N : Number} → String → PersistenceEvent N → Option N.Num
mastery_of {N} id (mastery_update source source_id mastery evidence) =
    if source_id == id then some (clamp_unit N mastery) else none
mastery_of id (learned_user_fact source key value evidence) = none
mastery_of id (session_completed source session_id summary) = none

-- The mastery that the last of the events about a source records, clamped to 0 … 1.
abbrev pub last_mastery : {N : Number} → String → List (PersistenceEvent N) → Option N.Num
last_mastery id [] = none
last_mastery id (e ∷ es) = or_else (last_mastery id es) (mastery_of id e)

-- The sessions that the events complete.
abbrev pub sessions : {N : Number} → List (PersistenceEvent N) → List String
sessions [] = []
sessions (session_completed source session_id summary ∷ es) = session_id ∷ sessions es
sessions (_ ∷ es) = sessions es

module _ {N : Number} where
  lookup-apply_event :
      (s : LearnerMemorySnapshot N) (e : PersistenceEvent N) (id : String)
      → lookup id (apply_event s e).mastery_by_source_id
        ≡ or_else (mastery_of id e) (lookup id s.mastery_by_source_id)
  unfolding apply_event
  lookup-apply_event s (mastery_update source source_id mastery evidence) id =
      ground (arith, lookup-insert source_id id (clamp_unit N mastery) s.mastery_by_source_id)
  lookup-apply_event s (learned_user_fact source key value evidence) id = refl
  lookup-apply_event s (session_completed source session_id summary) id = ground arith

  lookup-foldl :
      (s : LearnerMemorySnapshot N) (es : List (PersistenceEvent N)) (id : String)
      → lookup id (foldl apply_event s es).mastery_by_source_id
        ≡ or_else (last_mastery id es) (lookup id s.mastery_by_source_id)
  lookup-foldl s [] id = refl
  lookup-foldl s (e ∷ es) id =
      ground (arith, lookup-foldl (apply_event s e) es id, lookup-apply_event s e id)

  apply_event-HasDistinctKeys :
      (s : LearnerMemorySnapshot N) (e : PersistenceEvent N)
      → HasDistinctKeys s.mastery_by_source_id
      → HasDistinctKeys (apply_event s e).mastery_by_source_id
  unfolding apply_event
  apply_event-HasDistinctKeys s (mastery_update source source_id mastery evidence) h =
      insert-HasDistinctKeys source_id (clamp_unit N mastery) s.mastery_by_source_id h
  apply_event-HasDistinctKeys s (learned_user_fact source key value evidence) h = h
  apply_event-HasDistinctKeys s (session_completed source session_id summary) h = ground arith

  foldl-HasDistinctKeys :
      (s : LearnerMemorySnapshot N) (es : List (PersistenceEvent N))
      → HasDistinctKeys s.mastery_by_source_id
      → HasDistinctKeys (foldl apply_event s es).mastery_by_source_id
  foldl-HasDistinctKeys s [] h = h
  foldl-HasDistinctKeys s (e ∷ es) h =
      foldl-HasDistinctKeys (apply_event s e) es (apply_event-HasDistinctKeys s e h)

  sessions-apply_event :
      (s : LearnerMemorySnapshot N) (e : PersistenceEvent N) (es : List (PersistenceEvent N))
      → foldl add_new (apply_event s e).completed_sessions (sessions es)
        ≡ foldl add_new s.completed_sessions (sessions (e ∷ es))
  unfolding apply_event
  sessions-apply_event s (mastery_update source source_id mastery evidence) es = refl
  sessions-apply_event s (learned_user_fact source key value evidence) es = refl
  sessions-apply_event s (session_completed source session_id summary) es = ground arith

  sessions-foldl :
      (s : LearnerMemorySnapshot N) (es : List (PersistenceEvent N))
      → (foldl apply_event s es).completed_sessions
        ≡ foldl add_new s.completed_sessions (sessions es)
  sessions-foldl s [] = refl
  sessions-foldl s (e ∷ es) = sessions-foldl (apply_event s e) es ∙ sessions-apply_event s e es

  last_mastery-append :
      (id : String) (ps qs : List (PersistenceEvent N))
      → last_mastery id (ps ++ qs) ≡ or_else (last_mastery id qs) (last_mastery id ps)
  last_mastery-append id [] qs = ground arith
  last_mastery-append id (p ∷ ps) qs = ground (arith, last_mastery-append id ps qs)

  pub sessions-append :
      (ps qs : List (PersistenceEvent N)) → sessions (ps ++ qs) ≡ sessions ps ++ sessions qs
  sessions-append [] qs = refl
  sessions-append (mastery_update source source_id mastery evidence ∷ ps) qs = sessions-append ps qs
  sessions-append (learned_user_fact source key value evidence ∷ ps) qs = sessions-append ps qs
  sessions-append (session_completed source session_id summary ∷ ps) qs =
      ap (λ ss. session_id ∷ ss) (sessions-append ps qs)

-- The memory after a list of events has, for each source, the clamped mastery of the last event
-- about it, or the old one where there is none. Where the keys of the old mastery table are
-- distinct, so are those of the new one; a source is then listed as mastered exactly when its
-- mastery is at least 0.8, and as weak exactly when it is at most 0.4.
pub append_persistence_events_lem :
    {N : Number} (s : LearnerMemorySnapshot N) (es : List (PersistenceEvent N)) (now id : String)
    → HasDistinctKeys s.mastery_by_source_id
    → let next = append_persistence_events s es now in
      let found = lookup id next.mastery_by_source_id in
      (found ≡ or_else (last_mastery id es) (lookup id s.mastery_by_source_id))
      × HasDistinctKeys next.mastery_by_source_id
      × (includes next.mastered_source_ids id ≡ holds (is_mastered N) found)
      × (includes next.weak_source_ids id ≡ holds (is_weak N) found)
unfolding append_persistence_events
append_persistence_events_lem {N} s es now id h =
    let after = foldl apply_event s es in
    let distinct = foldl-HasDistinctKeys s es h in
    (
      lookup-foldl s es id,
      distinct,
      includes-ids_where (is_mastered N) after.mastery_by_source_id id distinct,
      includes-ids_where (is_weak N) after.mastery_by_source_id id distinct,
    )

module _ {N : Number} where
  not_both :
      (o : IsOrder N) (found : Option N.Num)
      → (holds (is_mastered N) found && holds (is_weak N) found) ≡ false
  not_both o none = refl
  not_both o (some v) = ground (
    arith,
    o.hundredths_order 40 80,
    o.le-lt_trans v (N.hundredths 40) (N.hundredths 80),
    o.le-lt_trans (N.hundredths 80) v (N.hundredths 80),
    o.lt-asymm (N.hundredths 80) (N.hundredths 80),
  )

  apply_event-IsUnit :
      (o : IsOrder N) (s : LearnerMemorySnapshot N) (e : PersistenceEvent N)
      → All (λ entry. IsUnit N entry.1) s.mastery_by_source_id
      → All (λ entry. IsUnit N entry.1) (apply_event s e).mastery_by_source_id
  unfolding apply_event
  apply_event-IsUnit o s (mastery_update source source_id mastery evidence) h =
      All-insert (IsUnit N) source_id (clamp_unit N mastery) s.mastery_by_source_id
        (clamp_unit-IsUnit N o mastery) h
  apply_event-IsUnit o s (learned_user_fact source key value evidence) h = h
  apply_event-IsUnit o s (session_completed source session_id summary) h =
      elim (Bool-cases (includes s.completed_sessions session_id)) [
        | inl p ↦ rw p h
        | inr p ↦ rw p h
      ]

  foldl-IsUnit :
      (o : IsOrder N) (s : LearnerMemorySnapshot N) (es : List (PersistenceEvent N))
      → All (λ entry. IsUnit N entry.1) s.mastery_by_source_id
      → All (λ entry. IsUnit N entry.1) (foldl apply_event s es).mastery_by_source_id
  foldl-IsUnit o s [] h = h
  foldl-IsUnit o s (e ∷ es) h = foldl-IsUnit o (apply_event s e) es (apply_event-IsUnit o s e h)

  append-IsUnit :
      (o : IsOrder N) (s : LearnerMemorySnapshot N) (es : List (PersistenceEvent N)) (now : String)
      → All (λ entry. IsUnit N entry.1) s.mastery_by_source_id
      → All (λ entry. IsUnit N entry.1) (append_persistence_events s es now).mastery_by_source_id
  unfolding append_persistence_events
  append-IsUnit o s es now h = foldl-IsUnit o s es h

  replay_sessions :
      (s : LearnerMemorySnapshot N) (ps qs : List (PersistenceEvent N))
      → foldl add_new (foldl apply_event s ps).completed_sessions (sessions (ps ++ qs))
        ≡ foldl add_new s.completed_sessions (sessions (ps ++ qs))
  replay_sessions s ps qs =
      rw (sessions-append ps qs, sessions-foldl s ps)
        (foldl-append add_new (foldl add_new s.completed_sessions (sessions ps)) (sessions ps)
            (sessions qs)
          ∙ ap (λ seen. foldl add_new seen (sessions qs))
              (foldl-add_new_seen (foldl add_new s.completed_sessions (sessions ps)) (sessions ps)
                (all-includes_added s.completed_sessions (sessions ps)))
          ∙ sym (foldl-append add_new s.completed_sessions (sessions ps) (sessions qs)))

-- With an order on the finite numbers, and a mastery table that has distinct keys and values between
-- 0 and 1, the values stay between 0 and 1 and no source is listed both as mastered and as weak,
-- whatever the events were.
pub append_persistence_events-IsOrder :
    {N : Number} (s : LearnerMemorySnapshot N) (es : List (PersistenceEvent N)) (now id : String)
    → IsOrder N
    → HasDistinctKeys s.mastery_by_source_id
    → All (λ entry. IsUnit N entry.1) s.mastery_by_source_id
    → let next = append_persistence_events s es now in
      ((includes next.mastered_source_ids id && includes next.weak_source_ids id) ≡ false)
      × All (λ entry. IsUnit N entry.1) next.mastery_by_source_id
append_persistence_events-IsOrder {N} s es now id o h inside =
    let next = append_persistence_events s es now in
    let (_, _, mastered, weak) = append_persistence_events_lem s es now id h in
    (
      rw (mastered, weak) (not_both o (lookup id next.mastery_by_source_id)),
      append-IsUnit o s es now inside,
    )

-- Events that are applied a second time, in front of the new ones, change neither the mastery of a
-- source nor the list of sessions.
pub append_persistence_events-replay :
    {N : Number} (s : LearnerMemorySnapshot N) (ps qs : List (PersistenceEvent N)) (t u id : String)
    → let again = append_persistence_events (append_persistence_events s ps t) (ps ++ qs) u in
      let once = append_persistence_events s (ps ++ qs) u in
      (lookup id again.mastery_by_source_id ≡ lookup id once.mastery_by_source_id)
      × (again.completed_sessions ≡ once.completed_sessions)
unfolding append_persistence_events
append_persistence_events-replay s ps qs t u id =
    let middle = append_persistence_events s ps t in
    (
      ground (
        arith,
        lookup-foldl middle (ps ++ qs) id,
        lookup-foldl s ps id,
        lookup-foldl s (ps ++ qs) id,
        last_mastery-append id ps qs,
      ),
      sessions-foldl middle (ps ++ qs)
          ∙ replay_sessions s ps qs
          ∙ sym (sessions-foldl s (ps ++ qs)),
    )

-- The sessions of the new memory: those of the old one, and those that the events complete.
pub includes-completed_sessions :
    {N : Number} (s : LearnerMemorySnapshot N) (es : List (PersistenceEvent N)) (now id : String)
    → includes (append_persistence_events s es now).completed_sessions id
      ≡ (includes s.completed_sessions id || includes (sessions es) id)
unfolding append_persistence_events
includes-completed_sessions s es now id =
    rw (sessions-foldl s es) (includes-foldl s.completed_sessions (sessions es) id)
