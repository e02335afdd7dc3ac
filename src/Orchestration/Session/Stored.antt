-- ===== src/Orchestration/Session/Stored.antt =====
-- The store of sessions stays well formed when a session is created or a command is executed.
use knowbalance.Prelude.{
  ◌≡◌, refl, sym, ap, ◌∙◌, String, true, Option, none, some, [], ◌∷◌, ◌⊎◌, Bool-cases, Option-cases,
  is_some, arith, inl, inr, if◌then◌else◌, All, string_Eq, nat_Eq, ◌==◌, ◌!=◌,
}
use knowbalance.Prelude.Text.{concat}
use knowbalance.Prelude.Number.{Number}
use knowbalance.Prelude.Dict.{lookup, insert}
use knowbalance.Orchestration.Session.{
  ProcessedCommand, SessionRecord, Command, SessionError, Fallible, ok, thrown, ◌>>=◌, refuse,
}
use knowbalance.Orchestration.Session.Input.{validate_command, safe_id}
use knowbalance.Orchestration.Session.Services.{Services}
use knowbalance.Orchestration.Session.Diagnosis.{
  CreateInput, create_record, new_session, learner_of,
}
use knowbalance.Orchestration.Session.Commands.{
  is_inherited, SessionStore, dispatch, save, load, remember, execute_new, replay_or_execute,
  execute_command, create,
}
use knowbalance.Orchestration.Session.Consistency.{
  Holds, Holds-bind, Holds-bind_of, Follows, is_consistent,
}
use knowbalance.Orchestration.Session.Executed.{dispatch-Follows}

pub Fallible-cases :
    {A : Type 0} (m : Fallible A) → ((a : A) × (m ≡ ok a)) ⊎ ((e : SessionError) × (m ≡ thrown e))
Fallible-cases (ok a) = inl (a, refl)
Fallible-cases (thrown e) = inr (e, refl)

pub Holds-at : {A : Type 0} (P : A → Type 0) (m : Fallible A) (a : A) → m ≡ ok a → Holds P m → P a
Holds-at P (ok b) a e h = let same : b ≡ a = ground (arith, e) in rw (sym same) h
Holds-at P (thrown x) a e h = absurd (ground (arith, e))

pub ok_of_bind :
    {A B : Type 0} (m : Fallible A) (f : A → Fallible B) (b : B)
    → (m >>= f) ≡ ok b
    → (a : A) × (m ≡ ok a) × (f a ≡ ok b)
ok_of_bind (ok a) f b h = (a, refl, h)
ok_of_bind (thrown e) f b h = absurd (ground (arith, h))

module _ {N : Number} where
  -- A stored session is consistent and stands under its own id.
  abbrev pub IsStored : String × SessionRecord N → Type 0
  IsStored entry = (is_consistent entry.1 ≡ true) × (entry.1.view.session_id ≡ entry.0)

  pub lookup-IsStored :
      (id : String) (store : SessionStore N) (r : SessionRecord N)
      → All IsStored store
      → lookup id store ≡ some r
      → (is_consistent r ≡ true) × (r.view.session_id ≡ id)
  unfolding lookup
  lookup-IsStored id [] r h e = absurd (ground (arith, e))
  lookup-IsStored id ((j, t) ∷ store) r ((c, i), h) e = elim (Bool-cases (j == id)) [
    | inl same ↦
        let found : t ≡ r = ground (arith, rw same at e) in
        (rw (sym found) c, rw (sym found) (i ∙ (string_Eq.beq_iff j id).0 same))
    | inr other ↦ lookup-IsStored id store r h (rw other at e)
  ]

  pub insert-IsStored :
      (id : String) (store : SessionStore N) (r : SessionRecord N)
      → is_consistent r ≡ true
      → r.view.session_id ≡ id
      → All IsStored store
      → All IsStored (insert id r store)
  unfolding insert
  insert-IsStored id [] r c i h = ((c, i), tt)
  insert-IsStored id ((j, t) ∷ store) r c i (k, h) = elim (Bool-cases (j == id)) [
    | inl same ↦ rw same ((c, i ∙ sym ((string_Eq.beq_iff j id).0 same)), h)
    | inr other ↦ rw other (k, insert-IsStored id store r c i h)
  ]

  pub load-found :
      (s : Services N) (id : String) (store : SessionStore N) (r : SessionRecord N)
      → load s id store ≡ ok r
      → lookup id store ≡ some r
  unfolding load
  load-found s id store r e = elim (Option-cases (lookup id store)) [
    | inl n ↦ absurd (ground (arith, rw (n, load) at e))
    | inr (t, k) ↦ let same : t ≡ r = ground (arith, rw (k, load) at e) in k ∙ ap some same
  ]

  pub load-Holds :
      (s : Services N) (id : String) (store : SessionStore N)
      → Holds (λ r. lookup id store ≡ some r) (load s id store)
  unfolding load
  load-Holds s id store = elim (Option-cases (lookup id store)) [
    | inl e ↦ rw (e, load) tt
    | inr (r, e) ↦ rw (e, load) refl
  ]

  module _ (s : Services N) (hash_json : Command → String) where
    replay_or_execute-IsStored :
        (processed : Option (ProcessedCommand N)) (command : Command) (store : SessionStore N)
        (r : SessionRecord N)
        → All IsStored store
        → is_consistent r ≡ true
        → Holds (λ o. All IsStored o.1) (replay_or_execute s hash_json command store r processed)
    unfolding replay_or_execute execute_new save remember
    replay_or_execute-IsStored none command store r h c =
        elim (Bool-cases (is_inherited command.command_id)) [
          | inl e ↦ rw e tt
          | inr e ↦ rw e (
              Holds-bind_of (Follows r) (λ o. All IsStored o.1) (dispatch s command command.type r)
                _ (dispatch-Follows s command command.type r c)
                (λ t k. insert-IsStored t.view.session_id store _ k.consistent refl h))
        ]
    replay_or_execute-IsStored (some replay) command store r h c =
        elim (Bool-cases (replay.request_hash != hash_json command)) [
          | inl e ↦ rw e tt
          | inr e ↦ rw e h
        ]

    pub execute_command-IsStored :
        (id : String) (command : Command) (store : SessionStore N)
        → All IsStored store
        → Holds (λ o. All IsStored o.1) (execute_command s hash_json id command store)
    unfolding execute_command
    execute_command-IsStored id command store h =
        Holds-bind (λ o. All IsStored o.1) (validate_command command) _
          (λ _.
            Holds-bind_of (λ r. lookup id store ≡ some r) (λ o. All IsStored o.1) (load s id store)
              _ (load-Holds s id store)
              (λ r e.
                replay_or_execute-IsStored (lookup command.command_id r.processed_commands) command
                  store r h (lookup-IsStored id store r h e).0))

  create_record-consistent :
      (s : Services N) (input : CreateInput)
      → Holds (λ r. is_consistent r ≡ true) (create_record s input)
  unfolding create_record new_session
  create_record-consistent s input =
      Holds-bind (λ r. is_consistent r ≡ true)
        (s.select_diagnosis input.learner_request
          (learner_of input.learner_request input.session_id))
        _
        (λ items.
          Holds-bind (λ r. is_consistent r ≡ true) (safe_id input.run_id) _ (λ run_id. refl))

  pub create-IsStored :
      (s : Services N) (input : CreateInput) (store : SessionStore N)
      → All IsStored store
      → Holds (λ o. All IsStored o.1) (create s input store)
  unfolding create save
  create-IsStored s input store h =
      Holds-bind (λ o. All IsStored o.1) (safe_id input.session_id) _
        (λ id.
          Holds-bind_of (λ r. is_consistent r ≡ true) (λ o. All IsStored o.1)
            (if is_some (lookup id store)
              then refuse "SESSION_ALREADY_EXISTS"
                  (concat ("Session " ∷ id ∷ " already exists" ∷ [])) 409
              else create_record s input)
            _
            (elim (Bool-cases (is_some (lookup id store))) [
              | inl e ↦ rw e tt
              | inr e ↦ rw e (create_record-consistent s input)
            ])
            (λ r k. insert-IsStored r.view.session_id store r k refl h))
