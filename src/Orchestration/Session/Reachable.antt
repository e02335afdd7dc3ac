-- ===== src/Orchestration/Session/Reachable.antt =====
-- Every store that commands and background generations lead to, in whatever order.
use knowbalance.Prelude.{
  ◌≡◌, refl, String, true, false, Option, none, some, List, [], Bool-cases, arith, inl, inr, All,
  string_Eq, nat_Eq,
}
use knowbalance.Prelude.Number.{Number}
use knowbalance.Teaching.Progress.{LearnerProfile}
use knowbalance.Prelude.Dict.{lookup}
use knowbalance.Orchestration.Session.{PublicView, SessionRecord, Command, Fallible, ok, thrown}
use knowbalance.Orchestration.Session.Services.{Services, push_event, block_session}
use knowbalance.Orchestration.Session.Rounds.{
  FormalRound, FormalRoundResult, round_ready, round_refused, anchors_of, ask_anchors, set_round,
  apply_for_profile, apply_formal_role_c_round,
}
use knowbalance.Orchestration.Session.Diagnosis.{CreateInput}
use knowbalance.Orchestration.Session.Commands.{
  SessionStore, is_running, save, execute_command, create,
}
use knowbalance.Orchestration.Session.Background.{
  Generated, error_message, fail_session, fail_found, fail_next_round, round_written, write_applied,
  write_round, is_current, write_if_current, finish_next_round,
}
use knowbalance.Orchestration.Session.Consistency.{
  Holds, Same-refl, block_session-Follows, is_consistent,
}
use knowbalance.Orchestration.Session.Stored.{
  IsStored, Holds-at, insert-IsStored, execute_command-IsStored, create-IsStored,
}

module _ {N : Number} where
  fail_found-IsStored :
      (s : Services N) (message : String) (found : Option (SessionRecord N))
      (store : SessionStore N)
      → All IsStored store
      → All IsStored (fail_found s message found store)
  unfolding fail_found fail_session save
  fail_found-IsStored s message none store h = h
  fail_found-IsStored s message (some current) store h =
      elim (Bool-cases (is_running current.view.status)) [
        | inl e ↦ rw e (insert-IsStored current.view.session_id store _ refl refl h)
        | inr e ↦ rw e h
      ]

  -- A session that is consistent and does not run.
  abbrev IsQuiet : SessionRecord N → Type 0
  IsQuiet r = (is_consistent r ≡ true) × (is_running r.view.status ≡ false)

  set_round-IsQuiet :
      (anchors : Option (String × List String)) (profile : LearnerProfile) (round : FormalRound)
      (r : SessionRecord N)
      → IsQuiet (set_round anchors profile round r)
  unfolding set_round ask_anchors
  set_round-IsQuiet none profile round r = (refl, refl)
  set_round-IsQuiet (some (id, anchors)) profile round r = (refl, refl)

  apply_for_profile-IsQuiet :
      (p : Option LearnerProfile) (round : FormalRound) (r : SessionRecord N)
      → Holds IsQuiet (apply_for_profile p round r)
  unfolding apply_for_profile
  apply_for_profile-IsQuiet none round r = tt
  apply_for_profile-IsQuiet (some profile) round r =
      set_round-IsQuiet (anchors_of round.learning_session) profile round r

  is_consistent-round_written :
      (s : Services N) (r : SessionRecord N) → IsQuiet r → is_consistent (round_written s r) ≡ true
  unfolding round_written push_event
  is_consistent-round_written s r (c, q) = ground (arith, c, q)

  write_applied-IsStored :
      (s : Services N) (id : String) (store : SessionStore N) (o : Fallible (SessionRecord N))
      → All IsStored store
      → Holds IsQuiet o
      → All IsStored (write_applied s id store o)
  unfolding write_applied save fail_next_round
  write_applied-IsStored s id store (ok r) h q =
      insert-IsStored (round_written s r).view.session_id store _
        (is_consistent-round_written s r q) refl h
  write_applied-IsStored s id store (thrown e) h q =
      fail_found-IsStored s (error_message e) (lookup id store) store h

  write_round-IsStored :
      (s : Services N) (id : String) (result : FormalRoundResult) (r : SessionRecord N)
      (store : SessionStore N)
      → All IsStored store
      → All IsStored (write_round s id r result store)
  unfolding write_round save apply_formal_role_c_round
  write_round-IsStored s id (round_refused reason) r store h =
      insert-IsStored (block_session s 0 reason none r).view.session_id store _
        (block_session-Follows s 0 reason none r r (Same-refl r)).consistent refl h
  write_round-IsStored s id (round_ready round) r store h =
      write_applied-IsStored s id store (apply_for_profile r.view.profile round r) h
        (apply_for_profile-IsQuiet r.view.profile round r)

  write_if_current-IsStored :
      (s : Services N) (id : String) (generated : Generated N) (found : Option (SessionRecord N))
      (store : SessionStore N)
      → All IsStored store
      → All IsStored (write_if_current s id generated found store)
  unfolding write_if_current
  write_if_current-IsStored s id generated none store h = h
  write_if_current-IsStored s id generated (some current) store h =
      elim (Bool-cases (is_current s current generated.snapshot)) [
        | inl e ↦ rw e (write_round-IsStored s id generated.result generated.snapshot store h)
        | inr e ↦ rw e h
      ]

  finish_next_round-IsStored :
      (s : Services N) (id : String) (outcome : Fallible (Generated N)) (store : SessionStore N)
      → All IsStored store
      → All IsStored (finish_next_round s id outcome store)
  unfolding finish_next_round fail_next_round
  finish_next_round-IsStored s id (thrown e) store h =
      fail_found-IsStored s (error_message e) (lookup id store) store h
  finish_next_round-IsStored s id (ok generated) store h =
      write_if_current-IsStored s id generated (lookup id store) store h

-- The stores that start empty and change by creations, commands and the ends of background
-- generations, each with its own services, and whatever the generation gave.
pub data Reachable (N : Number) (hash_json : Command → String) : SessionStore N → Type 0 where
  start : Reachable N hash_json []
  by_create :
      (s : Services N) (input : CreateInput) (store next : SessionStore N) (r : SessionRecord N)
      → Reachable N hash_json store
      → create s input store ≡ ok (r, next)
      → Reachable N hash_json next
  by_command :
      (s : Services N) (id : String) (command : Command) (store next : SessionStore N)
      (response : PublicView N)
      → Reachable N hash_json store
      → execute_command s hash_json id command store ≡ ok (response, next)
      → Reachable N hash_json next
  by_background :
      (s : Services N) (id : String) (outcome : Fallible (Generated N)) (store : SessionStore N)
      → Reachable N hash_json store
      → Reachable N hash_json (finish_next_round s id outcome store)

-- In every reachable store each session stands under its own id, and its status, its stage, what
-- it waits for, its anchor routing, its reason and its context of the next round agree.
pub Reachable-IsStored :
    {N : Number} {hash_json : Command → String} {store : SessionStore N}
    → Reachable N hash_json store
    → All IsStored store
Reachable-IsStored start = tt
Reachable-IsStored (by_create s input store next r reach e) =
    Holds-at (λ o. All IsStored o.1) (create s input store) (r, next) e
      (create-IsStored s input store (Reachable-IsStored reach))
Reachable-IsStored {hash_json = hash_json} (by_command s id command store next response reach e) =
    Holds-at (λ o. All IsStored o.1) (execute_command s hash_json id command store) (response, next)
      e (execute_command-IsStored s hash_json id command store (Reachable-IsStored reach))
Reachable-IsStored (by_background s id outcome store reach) =
    finish_next_round-IsStored s id outcome store (Reachable-IsStored reach)
