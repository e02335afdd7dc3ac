-- ===== src/Orchestration/Session/Replay.antt =====
-- Commands that are sent again, commands to a running session, and the start of a background
-- generation that comes before the save of its command.
use knowbalance.Prelude.{
  ℕ, Bool, suc, ◌≡◌, refl, sym, ap, ◌∙◌, String, true, false, Option, none, some, Bool-cases, arith,
  inl, inr, if◌then◌else◌, All, string_Eq, nat_Eq, ◌==◌,
}
use knowbalance.Prelude.Number.{Number}
use knowbalance.Prelude.Dict.{lookup, lookup-insert}
use knowbalance.Teaching.Paths.{LearningPathNode, FormalLearningPath}
use knowbalance.Orchestration.Session.{
  NextRoundContext, PublicView, ProcessedCommand, SessionRecord, public_session_view, CommandType,
  submit_diagnosis_answers, submit_anchor_answers, submit_assessment_answers, retry, unsupported,
  Command, Fallible, ok, refuse,
}
use knowbalance.Orchestration.Session.Input.{validate_command}
use knowbalance.Orchestration.Session.Services.{Services}
use knowbalance.Orchestration.Session.Rounds.{generate_formal_role_c_round}
use knowbalance.Orchestration.Session.Commands.{
  SessionStore, is_inherited, is_running, is_waiting, is_stopped, dispatch, not_allowed, save, load,
  remember, execute_new, replay_or_execute, execute_command,
}
use knowbalance.Orchestration.Session.Background.{
  Generated, begin_next_round, generate_for, is_current, write_if_current, finish_next_round,
}
use knowbalance.Orchestration.Session.Consistency.{Holds, Holds-bind, Follows, is_consistent}
use knowbalance.Orchestration.Session.Executed.{dispatch-Follows}
use knowbalance.Orchestration.Session.Stored.{
  IsStored, Holds-at, ok_of_bind, lookup-IsStored, load-found,
}

ok-injective : {A : Type 0} (a b : A) → ok a ≡ ok b → a ≡ b
ok-injective a b e = ground (arith, e)

-- What is returned is not refused.
returned_of_ok :
    {A : Type 0} (refused : Bool) (code message : String) (http_status : ℕ) (x : Fallible A) (a : A)
    → (if refused then refuse code message http_status else x) ≡ ok a
    → x ≡ ok a
returned_of_ok true code message http_status x a e = absurd (ground (arith, e))
returned_of_ok false code message http_status x a e = e

module _ {N : Number} (s : Services N) (hash_json : Command → String) where
  -- What is stored under a command's id once it is executed.
  record IsRecorded (id : String) (command : Command) (response : PublicView N)
      (next : SessionStore N) : Type 0 where
    stored : SessionRecord N
    found : lookup id next ≡ some stored
    processed :
        lookup command.command_id stored.processed_commands
        ≡ some (record { request_hash = hash_json command; response = response })

  IsRecorded-new :
      (id : String) (command : Command) (store : SessionStore N) (r t : SessionRecord N)
      → r.view.session_id ≡ id
      → Follows r t
      → IsRecorded id command (public_session_view t) (save (remember s hash_json command t) store)
  unfolding save remember public_session_view
  IsRecorded-new id command store r t e f =
      let saved = remember s hash_json command t in
      let own : t.view.session_id ≡ id = f.same.session_id ∙ e in
      record {
        stored = saved;
        found = ground (
          arith,
          lookup-insert t.view.session_id id saved store,
          string_Eq.beq_iff t.view.session_id id,
          own,
        );
        processed = ground (
          arith,
          lookup-insert command.command_id command.command_id
              (record { request_hash = hash_json command; response = t.view }) t.processed_commands,
          string_Eq.beq_iff command.command_id command.command_id,
        );
      }

  replay_or_execute-IsRecorded :
      (processed : Option (ProcessedCommand N)) (id : String) (command : Command)
      (store next : SessionStore N) (r : SessionRecord N) (response : PublicView N)
      → lookup command.command_id r.processed_commands ≡ processed
      → lookup id store ≡ some r
      → is_consistent r ≡ true
      → r.view.session_id ≡ id
      → replay_or_execute s hash_json command store r processed ≡ ok (response, next)
      → IsRecorded id command response next
  unfolding replay_or_execute execute_new
  replay_or_execute-IsRecorded none id command store next r response p l c i e =
      let own = returned_of_ok (is_inherited command.command_id) _ _ _ _ (response, next) e in
      let (t, d, k) = ok_of_bind (dispatch s command command.type r) _ (response, next) own in
      let follows =
        Holds-at (Follows r) (dispatch s command command.type r) t d
          (dispatch-Follows s command command.type r c) in
      let same =
        ok-injective (public_session_view t, save (remember s hash_json command t) store)
          (response, next) k in
      rw (sym (ap (λ o. o.0) same))
        (rw (sym (ap (λ o. o.1) same)) (IsRecorded-new id command store r t i follows))
  replay_or_execute-IsRecorded (some replay) id command store next r response p l c i e =
      elim (Bool-cases (replay.request_hash == hash_json command)) [
        | inr other ↦ absurd (ground (arith, rw other at e))
        | inl known ↦
            let same = ok-injective (replay.response, store) (response, next) (rw known at e) in
            let hash = (string_Eq.beq_iff replay.request_hash (hash_json command)).0 known in
            rw (sym (ap (λ o. o.0) same)) (
              rw (sym (ap (λ o. o.1) same))
                (record { stored = r; found = l; processed = p ∙ ap some (rw (sym hash) refl) }))
      ]

  execute_command-IsRecorded :
      (id : String) (command : Command) (store next : SessionStore N) (response : PublicView N)
      → All IsStored store
      → execute_command s hash_json id command store ≡ ok (response, next)
      → IsRecorded id command response next
  unfolding execute_command
  execute_command-IsRecorded id command store next response h e =
      let (v, valid, rest) = ok_of_bind (validate_command command) _ (response, next) e in
      let (r, loaded, run) = ok_of_bind (load s id store) _ (response, next) rest in
      let found = load-found s id store r loaded in
      let (c, i) = lookup-IsStored id store r h found in
      replay_or_execute-IsRecorded (lookup command.command_id r.processed_commands) id command store
        next r response refl found c i run

load-of_found :
    {N : Number} (s : Services N) (id : String) (store : SessionStore N) (r : SessionRecord N)
    → lookup id store ≡ some r
    → load s id store ≡ ok r
unfolding load
load-of_found s id store r e = rw (e, load) refl

replay-answer :
    {N : Number} (s : Services N) (hash_json : Command → String) (again : Command)
    (store : SessionStore N) (r : SessionRecord N) (hash : String) (response : PublicView N)
    → replay_or_execute s hash_json again store r
        (some (record { request_hash = hash; response = response }))
      ≡ (if hash_json again == hash
          then ok (response, store)
          else refuse "COMMAND_ID_REUSED" "command_id was already used with different content" 409)
unfolding replay_or_execute
replay-answer s hash_json again store r hash response =
    ground
      (arith, string_Eq.beq_iff hash (hash_json again), string_Eq.beq_iff (hash_json again) hash)

-- A command with an id that was executed, in a store of well-formed sessions, is answered without
-- a change of the store, whatever the services give now: with the response of the first time where
-- its content has the same hash, and by a refusal where it has another.
pub execute_command-replay :
    {N : Number} (s later : Services N) (hash_json : Command → String) (id : String)
    (command again : Command) (store next : SessionStore N) (response : PublicView N)
    → All IsStored store
    → execute_command s hash_json id command store ≡ ok (response, next)
    → again.command_id ≡ command.command_id
    → validate_command again ≡ ok again
    → execute_command later hash_json id again next ≡ (
        if hash_json again == hash_json command
        then ok (response, next)
        else refuse "COMMAND_ID_REUSED" "command_id was already used with different content" 409)
unfolding execute_command
execute_command-replay s later hash_json id command again store next response h e same valid =
    let recorded = execute_command-IsRecorded s hash_json id command store next response h e in
    let r = recorded.stored in
    let processed : lookup again.command_id r.processed_commands
        ≡ some (record { request_hash = hash_json command; response = response }) =
      ap (λ i. lookup i r.processed_commands) same ∙ recorded.processed in
    rw valid (
      rw (load-of_found later id next r recorded.found) (
        ap (replay_or_execute later hash_json again next r) processed
        ∙ replay-answer later hash_json again next r (hash_json command) response))

-- A session that runs refuses every command, and so does one that is completed.
pub dispatch_refused :
    {N : Number} (s : Services N) (command : Command) (type : CommandType) (r : SessionRecord N)
    → is_waiting r.view.status ≡ false
    → is_stopped r.view.status ≡ false
    → (what : String) × (dispatch s command type r ≡ not_allowed s what)
unfolding dispatch
dispatch_refused s command submit_diagnosis_answers r w b =
    ("waiting for diagnosis answers", rw w refl)
dispatch_refused s command submit_anchor_answers r w b = ("waiting for anchor answers", rw w refl)
dispatch_refused s command submit_assessment_answers r w b =
    ("waiting for assessment answers", rw w refl)
dispatch_refused s command retry r w b = ("blocked and cannot be retried", rw b refl)
dispatch_refused s command unsupported r w b = ("blocked and cannot be retried", rw b refl)

generate_for-snapshot :
    {N : Number} (s : Services N) (context : NextRoundContext) (r : SessionRecord N)
    (path : Option FormalLearningPath) (node : Option LearningPathNode)
    → Holds (λ (g : Generated N). g.snapshot ≡ r) (generate_for s context r path node)
unfolding generate_for
generate_for-snapshot {N} s context r none n = tt
generate_for-snapshot {N} s context r (some path) none = tt
generate_for-snapshot {N} s context r (some path) (some n) =
    Holds-bind (λ (g : Generated N). g.snapshot ≡ r)
      (generate_formal_role_c_round s r n (some context)) _ (λ result. refl)

-- A generation whose snapshot has another round than the stored session writes nothing.
stale_lem :
    {N : Number} (s : Services N) (id : String) (generated : Generated N)
    (current : SessionRecord N) (store : SessionStore N)
    → lookup id store ≡ some current
    → current.view.round_no ≡ suc generated.snapshot.view.round_no
    → finish_next_round s id (ok generated) store ≡ store
unfolding finish_next_round write_if_current is_current
stale_lem s id generated current store e n =
    let other : (current.view.round_no == generated.snapshot.view.round_no) ≡ false =
      ground (arith, n) in
    rw e (rw other (ground arith))

begin_next_round-snapshot :
    {N : Number} (s : Services N) (id : String) (context : NextRoundContext)
    (store : SessionStore N) (r : SessionRecord N) (generated : Generated N)
    → lookup id store ≡ some r
    → begin_next_round s id context store ≡ ok generated
    → generated.snapshot ≡ r
unfolding begin_next_round
begin_next_round-snapshot s id context store r generated e b =
    let began : generate_for s context r r.view.formal_path r.view.current_path_node
        ≡ ok generated =
      rw (load-of_found s id store r e) at b in
    Holds-at (λ (g : Generated _). g.snapshot ≡ r)
      (generate_for s context r r.view.formal_path r.view.current_path_node) generated began
      (generate_for-snapshot s context r r.view.formal_path r.view.current_path_node)

-- A new command is executed and leaves its session running, and the background generation that it
-- starts loads the session before the command is saved: then the generation, when it ends, writes
-- nothing, and the session keeps running.
pub begin_next_round-lost :
    {N : Number} (s early late : Services N) (hash_json : Command → String) (id : String)
    (command : Command) (context : NextRoundContext) (store next : SessionStore N)
    (r : SessionRecord N) (response : PublicView N) (generated : Generated N)
    → All IsStored store
    → lookup id store ≡ some r
    → lookup command.command_id r.processed_commands ≡ none
    → execute_command s hash_json id command store ≡ ok (response, next)
    → is_running response.status ≡ true
    → begin_next_round early id context store ≡ ok generated
    → finish_next_round late id (ok generated) next ≡ next
unfolding execute_command replay_or_execute execute_new save remember public_session_view
begin_next_round-lost s early late hash_json id command context store next r response generated h
      found new e running began =
    let (c, i) = lookup-IsStored id store r h found in
    let (v, valid, rest) = ok_of_bind (validate_command command) _ (response, next) e in
    let run : replay_or_execute s hash_json command store r none ≡ ok (response, next) =
      rw new at (rw (load-of_found s id store r found) at rest) in
    let own_run = returned_of_ok (is_inherited command.command_id) _ _ _ _ (response, next) run in
    let (t, d, k) = ok_of_bind (dispatch s command command.type r) _ (response, next) own_run in
    let follows =
      Holds-at (Follows r) (dispatch s command command.type r) t d
        (dispatch-Follows s command command.type r c) in
    let same =
      ok-injective (public_session_view t, save (remember s hash_json command t) store)
        (response, next) k in
    let saved = remember s hash_json command t in
    let runs : is_running t.view.status ≡ true = rw (sym (ap (λ o. o.0) same)) at running in
    let own : t.view.session_id ≡ id = follows.same.session_id ∙ i in
    let there : lookup id (save saved store) ≡ some saved = ground (
      arith,
      lookup-insert t.view.session_id id saved store,
      string_Eq.beq_iff t.view.session_id id,
      own,
    ) in
    let snapshot = begin_next_round-snapshot early id context store r generated found began in
    rw (sym (ap (λ o. o.1) same)) (
      stale_lem late id generated saved (save saved store) there
        (follows.moved runs ∙ ap (λ (u : SessionRecord _). suc u.view.round_no) (sym snapshot)))
