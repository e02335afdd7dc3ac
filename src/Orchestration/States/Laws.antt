-- ===== src/Orchestration/States/Laws.antt =====
-- What the transition function of state-machine.ts allows.
use knowbalance.Prelude.{
  suc, ◌≡◌, refl, sym, ◌≢◌, ◌↔◌, ◌⊎◌, inl, inr, false, Option, none, some, List, [], ◌∷◌, ◌++◌, map,
  arith, String, drop,
}
use knowbalance.Prelude.Text.{concat}
use knowbalance.Orchestration.States.{
  State, Worker, worker_sequence, TransitionEvent, worker_completed, complete, TransitionResult,
  accepted, refused, TransitionError, terminal_state, is_terminal, transition, block, fail,
  state_index, worker_Eq, state_at, next_worker, state_name,
}

-- Events applied in order; a refused one stops the run, as it does in the runner.
unfoldable pub drive : State → List TransitionEvent → Option State
drive s [] = some s
drive s (e ∷ es) = elim (transition s e) [ accepted t reason ↦ drive t es | refused t error ↦ none ]

abbrev pub full_run : List TransitionEvent
full_run =
    TransitionEvent.intake_ready
    ∷ (map (λ step. worker_completed step.worker) worker_sequence ++ complete ∷ [])

-- The events that are left before `completed`.
abbrev remaining : State → List TransitionEvent
remaining s = drop (state_index s) full_run

abbrev IsStopped : State → Type 0
IsStopped s = (s ≡ State.blocked) ⊎ (s ≡ State.failed)

transition-remaining :
    (s : State) (e : TransitionEvent) {t : State} {reason : Option String}
    → transition s e ≡ accepted t reason
    → IsStopped t ⊎ (remaining s ≡ e ∷ remaining t)
unfolding transition
transition-remaining State.created TransitionEvent.intake_ready h = ground arith
transition-remaining State.created (worker_completed Worker.background_collector) h = ground arith
transition-remaining _ _ h = ground arith

drive_stopped :
    (s : State) (es : List TransitionEvent) → IsStopped s → drive s es ≢ some State.completed
unfolding drive transition
drive_stopped s [] h = ground arith
drive_stopped s (e ∷ es) h = ground arith

TransitionResult-cases :
    (r : TransitionResult)
    → ((t : State) × (reason : Option String) × (r ≡ accepted t reason))
      ⊎ ((t : State) × (error : TransitionError) × (r ≡ refused t error))
TransitionResult-cases (accepted t reason) = inl (t, reason, refl)
TransitionResult-cases (refused t error) = inr (t, error, refl)

drive-remaining :
    (s : State) (es : List TransitionEvent) → drive s es ≡ some State.completed → es ≡ remaining s
unfolding drive
drive-remaining s [] h = let e : s ≡ State.completed = ground arith in rw e
drive-remaining s (e ∷ es) h = elim (TransitionResult-cases (transition s e)) [
  | inl (t, reason, p) ↦
      let rest : drive t es ≡ some State.completed = ground (arith, p) in
      elim (transition-remaining s e p) [
        | inl stopped ↦ absurd (drive_stopped t es stopped rest)
        | inr ahead ↦ rw (drive-remaining t es rest) (sym ahead)
      ]
  | inr (t, error, p) ↦ ground (arith, p)
]

-- From `created`, a list of events, applied until one is refused, ends in `completed` exactly when
-- it is `intake_ready`, then the eight workers of the sequence in order, then `complete`.
pub drive-completed_iff :
    (es : List TransitionEvent) → (drive State.created es ≡ some State.completed) ↔ (es ≡ full_run)
unfolding drive transition
drive-completed_iff es = (drive-remaining State.created es, λ e. rw e)

-- The states that nothing follows.
abbrev pub IsFinal : State → Type 0
IsFinal s = (s ≡ State.completed) ⊎ (s ≡ State.blocked) ⊎ (s ≡ State.failed)

IsFinal-of_refused :
    (s : State)
    → ((error : TransitionError) × (transition s (block "") ≡ refused s error))
    → IsFinal s
unfolding transition
IsFinal-of_refused State.completed h = inl refl
IsFinal-of_refused State.blocked h = inr (inl refl)
IsFinal-of_refused State.failed h = inr (inr refl)
IsFinal-of_refused s (error, h) = absurd (ground (arith, h))

is_terminal-IsFinal : (s : State) → ¬ IsFinal s → is_terminal s ≡ false
is_terminal-IsFinal State.completed h = absurd (h (inl refl))
is_terminal-IsFinal State.blocked h = absurd (h (inr (inl refl)))
is_terminal-IsFinal State.failed h = absurd (h (inr (inr refl)))
is_terminal-IsFinal _ h = ground arith

-- A state that refuses every event is completed, blocked or failed; and each of these refuses every
-- event, with TERMINAL_STATE, and stays.
pub transition_terminal :
    (s : State)
    → (((e : TransitionEvent) → (error : TransitionError) × (transition s e ≡ refused s error))
        → IsFinal s)
      × (IsFinal s
          → (e : TransitionEvent)
          → (error : TransitionError) × (transition s e ≡ refused s error)
            × (error.code ≡ terminal_state))
unfolding transition
transition_terminal s = (
  λ h. IsFinal-of_refused s (h (block "")),
  λ final e. (
    record {
      code = terminal_state;
      message = concat (state_name s ∷ " cannot transition further" ∷ []);
    },
    ground (arith, final),
    refl,
  ),
)

-- The arrows of the workflow: what an event may do in a state that is not terminal.
pub data Edge : State → TransitionEvent → State → Type 0 where
  intake : Edge State.created TransitionEvent.intake_ready State.intake_ready
  background :
      Edge State.intake_ready
        (worker_completed Worker.background_collector)
        State.background_collected
  self_assess :
      Edge State.background_collected (worker_completed Worker.self_assessor) State.self_assessed
  diagnose :
      Edge State.self_assessed
        (worker_completed Worker.objective_diagnostician)
        State.objective_diagnosed
  profile :
      Edge State.objective_diagnosed (worker_completed Worker.profile_builder) State.profile_built
  plan : Edge State.profile_built (worker_completed Worker.path_planner) State.path_planned
  teach : Edge State.path_planned (worker_completed Worker.concept_tutor) State.concept_ready
  practise : Edge State.concept_ready (worker_completed Worker.code_lab) State.lab_ready
  assess : Edge State.lab_ready (worker_completed Worker.tiered_evaluator) State.assessment_ready
  finish : Edge State.assessment_ready complete State.completed
  stop_block : {s : State} {reason : String} → ¬ IsFinal s → Edge s (block reason) State.blocked
  stop_fail : {s : State} {reason : String} → ¬ IsFinal s → Edge s (fail reason) State.failed

ruleset edges = (
  intake, background, self_assess, diagnose, profile, plan, teach, practise, assess, finish,
  stop_block, stop_fail,
)

transition-Edge :
    (s : State) (e : TransitionEvent) {t : State} {reason : Option String}
    → transition s e ≡ accepted t reason
    → Edge s e t
unfolding transition
transition-Edge State.created TransitionEvent.intake_ready h = grind (arith, edges)
transition-Edge State.created (worker_completed Worker.background_collector) h = ground arith
transition-Edge s (block reason) h = grind (arith, edges)
transition-Edge s (fail reason) h = grind (arith, edges)
transition-Edge _ _ h = grind (arith, edges)

Edge-transition :
    {s t : State} {e : TransitionEvent}
    → Edge s e t
    → (reason : Option String) × (transition s e ≡ accepted t reason)
unfolding transition
Edge-transition (stop_block {reason = why} live) = (some why, rw (is_terminal-IsFinal _ live))
Edge-transition (stop_fail {reason = why} live) = (some why, rw (is_terminal-IsFinal _ live))
Edge-transition intake = (none, refl)
Edge-transition _ = (none, refl)

-- The transition function accepts an event and moves from one state to another exactly along the
-- arrows of the workflow.
pub transition-accepted_iff :
    (s : State) (e : TransitionEvent) (t : State)
    → ((reason : Option String) × (transition s e ≡ accepted t reason)) ↔ Edge s e t
transition-accepted_iff s e t = (λ (reason, h). transition-Edge s e h, Edge-transition)

next_of_accepted :
    (s : State) (w : Worker) (t : State)
    → transition s (worker_completed w) ≡ accepted t none
    → next_worker s ≡ some w
unfolding transition next_worker
next_of_accepted State.created w t h = ground arith
next_of_accepted _ w t h = ground (arith, worker_Eq.beq_iff _ w)

accepted_of_next :
    (s : State) (w : Worker)
    → next_worker s ≡ some w
    → (t : State) × (transition s (worker_completed w) ≡ accepted t none)
unfolding transition next_worker
accepted_of_next State.created w h = absurd (ground arith)
accepted_of_next s w h = (state_at (suc (state_index s)), ground arith)

-- A report that a worker completed is accepted exactly when `getNextWorkerForState` names that
-- worker.
pub transition-next_worker :
    (s : State) (w : Worker)
    → ((t : State) × (transition s (worker_completed w) ≡ accepted t none))
      ↔ (next_worker s ≡ some w)
transition-next_worker s w = (λ (t, h). next_of_accepted s w t h, accepted_of_next s w)
