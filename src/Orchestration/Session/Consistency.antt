-- ===== src/Orchestration/Session/Consistency.antt =====
-- What a stored session always is: its status, its stage, what it waits for and its anchor routing
-- agree.

use knowbalance.Prelude.{
  ℕ, suc, ◌≡◌, refl, ap, ◌∙◌, String, Bool, true, false, not, ◌&&◌, Option, none, some, List, [],
  ◌∷◌, is_some, arith,
}
use knowbalance.Prelude.Number.{Number}
use knowbalance.Teaching.Progress.{LearnerProfile}
use knowbalance.Orchestration.States.{Worker}
use knowbalance.Orchestration.Session.{
  SessionStatus, Stage, EntryStatus, EventType, WaitingFor, diagnosis_answers, anchor_answers,
  assessment_answers, clarification_answer, AnchorRouting, SessionRecord, Fallible, ok, thrown,
  ◌>>=◌,
}
use knowbalance.Orchestration.Session.Services.{
  Services, push_event, block_session, upsert_ledger, touch, stage_for_worker,
}
use knowbalance.Orchestration.Session.Rounds.{
  FormalRound, set_round, apply_for_profile, apply_formal_role_c_round, anchors_of, ask_anchors,
}
use knowbalance.Orchestration.Session.FirstRound.{mark_reviewed}
use knowbalance.Orchestration.Session.Commands.{is_pending_phase, is_running}

-- A predicate on what an operation returns, where it does not throw.
abbrev pub Holds : {A : Type 0} → (A → Type 0) → Fallible A → Type 0
Holds P (ok a) = P a
Holds P (thrown e) = Unit

pub Holds-bind :
    {A B : Type 0} (P : B → Type 0) (m : Fallible A) (f : A → Fallible B)
    → ((a : A) → Holds P (f a))
    → Holds P (m >>= f)
Holds-bind P (ok a) f h = h a
Holds-bind P (thrown e) f h = tt

-- The same, with what the first operation guarantees.
pub Holds-bind_of :
    {A B : Type 0} (Q : A → Type 0) (P : B → Type 0) (m : Fallible A) (f : A → Fallible B)
    → Holds Q m
    → ((a : A) → Q a → Holds P (f a))
    → Holds P (m >>= f)
Holds-bind_of Q P (ok a) f q h = h a q
Holds-bind_of Q P (thrown e) f q h = tt

pub Holds-map :
    {A : Type 0} (P Q : A → Type 0) (m : Fallible A) → ((a : A) → P a → Q a) → Holds P m → Holds Q m
Holds-map P Q (ok a) f h = f a h
Holds-map P Q (thrown e) f h = tt

abbrev pub is_pending_routing : {N : Number} → Option (AnchorRouting N) → Bool
is_pending_routing none = false
is_pending_routing (some routing) = is_pending_phase routing.phase

abbrev pub is_diagnosis_stage : Stage → Bool
is_diagnosis_stage Stage.objective_diagnosis = true
is_diagnosis_stage _ = false

abbrev pub is_assessment_stage : Stage → Bool
is_assessment_stage Stage.assessment = true
is_assessment_stage _ = false

abbrev pub is_completed_stage : Stage → Bool
is_completed_stage Stage.completed = true
is_completed_stage _ = false

abbrev pub is_blocked_stage : Stage → Bool
is_blocked_stage Stage.blocked = true
is_blocked_stage _ = false

abbrev pub is_failed_stage : Stage → Bool
is_failed_stage Stage.failed = true
is_failed_stage _ = false

-- What a waiting session waits for, in its stage and with its routing.
abbrev pub is_asking : (pending : Bool) → Stage → Option WaitingFor → Bool
is_asking pending stage none = false
is_asking pending stage (some (diagnosis_answers items)) = is_diagnosis_stage stage
is_asking pending stage (some (anchor_answers items)) = is_assessment_stage stage && pending
is_asking pending stage (some (assessment_answers items)) = is_assessment_stage stage && not pending
is_asking pending stage (some (clarification_answer items)) = false

abbrev pub fits_status :
    SessionStatus → Stage → Option WaitingFor → (has_pending has_reason has_context : Bool) → Bool
fits_status SessionStatus.waiting_for_user stage waiting has_pending has_reason has_context =
    is_asking has_pending stage waiting
fits_status SessionStatus.running stage waiting has_pending has_reason has_context =
    is_assessment_stage stage && (not (is_some waiting) && has_context)
fits_status SessionStatus.completed stage waiting has_pending has_reason has_context =
    is_completed_stage stage && not (is_some waiting)
fits_status SessionStatus.blocked stage waiting has_pending has_reason has_context =
    is_blocked_stage stage && has_reason
fits_status SessionStatus.failed stage waiting has_pending has_reason has_context =
    is_failed_stage stage && has_reason

module _ {N : Number} where
  abbrev pub is_consistent : SessionRecord N → Bool
  is_consistent r =
      fits_status r.view.status r.view.current_stage r.view.waiting_for
        (is_pending_routing r.view.anchor_routing) (is_some r.view.blocked_reason)
        (is_some r.private_data.next_round_context)

  -- What no operation changes.
  pub record Same (r t : SessionRecord N) : Type 0 where
    pub session_id : t.view.session_id ≡ r.view.session_id
    pub owner_id : t.owner_id ≡ r.owner_id
    pub processed : t.processed_commands ≡ r.processed_commands

  -- A session that an operation makes of another; it runs only in the round after that one's.
  pub record Follows (r t : SessionRecord N) : Type 0 where
    pub consistent : is_consistent t ≡ true
    pub same : Same r t
    pub moved : is_running t.view.status ≡ true → t.view.round_no ≡ suc r.view.round_no

  pub Same-refl : (r : SessionRecord N) → Same r r
  Same-refl r = record { session_id = refl; owner_id = refl; processed = refl }

  pub Same-trans : (r t u : SessionRecord N) → Same r t → Same t u → Same r u
  Same-trans r t u h k = record {
    session_id = k.session_id ∙ h.session_id;
    owner_id = k.owner_id ∙ h.owner_id;
    processed = k.processed ∙ h.processed;
  }

  pub Same-Follows :
      (r t u : SessionRecord N)
      → Same r t
      → t.view.round_no ≡ r.view.round_no
      → Follows t u
      → Follows r u
  Same-Follows r t u h n k = record {
    consistent = k.consistent;
    same = Same-trans r t u h k.same;
    moved = λ e. k.moved e ∙ ap suc n;
  }

  pub block_session-Follows :
      (s : Services N) (k : ℕ) (reason : String) (w : Option Worker) (r t : SessionRecord N)
      → Same r t
      → Follows r (block_session s k reason w t)
  unfolding block_session push_event
  block_session-Follows s k reason w r t h = record {
    consistent = refl;
    moved = λ e. absurd (ground (arith, e));
    same = record { session_id = h.session_id; owner_id = h.owner_id; processed = h.processed };
  }

  set_round-Follows :
      (anchors : Option (String × List String)) (profile : LearnerProfile) (round : FormalRound)
      (r t : SessionRecord N)
      → Same r t
      → Follows r (set_round anchors profile round t)
  unfolding set_round ask_anchors
  set_round-Follows none profile round r t h = record {
    consistent = refl;
    moved = λ e. absurd (ground (arith, e));
    same = record { session_id = h.session_id; owner_id = h.owner_id; processed = h.processed };
  }
  set_round-Follows (some (id, anchors)) profile round r t h = record {
    consistent = refl;
    moved = λ e. absurd (ground (arith, e));
    same = record { session_id = h.session_id; owner_id = h.owner_id; processed = h.processed };
  }

  apply_for_profile-Follows :
      (p : Option LearnerProfile) (round : FormalRound) (r t : SessionRecord N)
      → Same r t
      → Holds (Follows r) (apply_for_profile p round t)
  unfolding apply_for_profile
  apply_for_profile-Follows none round r t h = tt
  apply_for_profile-Follows (some profile) round r t h =
      set_round-Follows (anchors_of round.learning_session) profile round r t h

  pub apply_formal_role_c_round-Follows :
      (round : FormalRound) (r t : SessionRecord N)
      → Same r t
      → Holds (Follows r) (apply_formal_role_c_round round t)
  unfolding apply_formal_role_c_round
  apply_formal_role_c_round-Follows round r t = apply_for_profile-Follows t.view.profile round r t

  pub push_event-Same :
      (s : Services N) (k : ℕ) (ty : EventType) (stage : Stage) (message : String)
      (w : Option Worker) (r t : SessionRecord N)
      → Same r t
      → Same r (push_event s k ty stage message w t)
  unfolding push_event
  push_event-Same s k ty stage message w r t h = record {
    session_id = h.session_id;
    owner_id = h.owner_id;
    processed = h.processed;
  }

  pub push_event-Follows :
      (s : Services N) (k : ℕ) (ty : EventType) (stage : Stage) (message : String)
      (w : Option Worker) (r t : SessionRecord N)
      → Follows r t
      → Follows r (push_event s k ty stage message w t)
  unfolding push_event
  push_event-Follows s k ty stage message w r t h = record {
    consistent = h.consistent;
    moved = h.moved;
    same = push_event-Same s k ty stage message w r t h.same;
  }

  pub upsert_ledger-Same :
      (s : Services N) (k : ℕ) (w : Worker) (status : EntryStatus) (summary : String)
      (r t : SessionRecord N)
      → Same r t
      → Same r (upsert_ledger s k w status summary t)
  unfolding upsert_ledger
  upsert_ledger-Same s k w status summary r t h = record {
    session_id = h.session_id;
    owner_id = h.owner_id;
    processed = h.processed;
  }

  upsert_ledger-Follows :
      (s : Services N) (k : ℕ) (w : Worker) (status : EntryStatus) (summary : String)
      (r t : SessionRecord N)
      → Follows r t
      → Follows r (upsert_ledger s k w status summary t)
  unfolding upsert_ledger
  upsert_ledger-Follows s k w status summary r t h = record {
    consistent = h.consistent;
    moved = h.moved;
    same = upsert_ledger-Same s k w status summary r t h.same;
  }

  pub touch-Follows :
      (s : Services N) (k : ℕ) (r t : SessionRecord N) → Follows r t → Follows r (touch s k t)
  touch-Follows s k r t h = record {
    consistent = h.consistent;
    moved = h.moved;
    same = record {
      session_id = h.same.session_id;
      owner_id = h.same.owner_id;
      processed = h.same.processed;
    };
  }

  pub mark_reviewed-Follows :
      (s : Services N) (k : ℕ) (workers : List Worker) (r t : SessionRecord N)
      → Follows r t
      → Follows r (mark_reviewed s k workers t)
  unfolding mark_reviewed
  mark_reviewed-Follows s k [] r t h = h
  mark_reviewed-Follows s k (w ∷ workers) r t h =
      mark_reviewed-Follows s (suc (suc k)) workers r _ (
        push_event-Follows s (suc k) EventType.worker_completed (stage_for_worker w) _ (some w) r _
          (upsert_ledger-Follows s k w EntryStatus.completed _ r t h))
