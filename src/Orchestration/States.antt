-- ===== src/Orchestration/States.antt =====
-- src/orchestration/state-machine.ts, with the types of types.ts that it uses.
pub mod Laws
use knowbalance.Prelude.{
  ℕ, zero, suc, ◌≡◌, refl, String, Bool, true, false, ◌||◌, Option, none, some, List, [], ◌∷◌, Eq,
  ◌==◌, ◌!=◌, index_Eq, if◌then◌else◌, find, includes, is_some,
}
use knowbalance.Prelude.Text.{concat}

pub data State : Type 0 where
  created intake_ready background_collected self_assessed objective_diagnosed : State
  profile_built path_planned concept_ready lab_ready assessment_ready : State
  completed blocked failed : State

pub data Worker : Type 0 where
  background_collector self_assessor objective_diagnostician profile_builder : Worker
  path_planner concept_tutor code_lab tiered_evaluator teaching_auditor : Worker

abbrev pub state_index : State → ℕ
state_index State.created = 0
state_index State.intake_ready = 1
state_index State.background_collected = 2
state_index State.self_assessed = 3
state_index State.objective_diagnosed = 4
state_index State.profile_built = 5
state_index State.path_planned = 6
state_index State.concept_ready = 7
state_index State.lab_ready = 8
state_index State.assessment_ready = 9
state_index State.completed = 10
state_index State.blocked = 11
state_index State.failed = 12

abbrev pub state_at : ℕ → State
state_at zero = State.created
state_at (suc zero) = State.intake_ready
state_at (suc (suc zero)) = State.background_collected
state_at (suc (suc (suc zero))) = State.self_assessed
state_at (suc (suc (suc (suc zero)))) = State.objective_diagnosed
state_at (suc (suc (suc (suc (suc zero))))) = State.profile_built
state_at (suc (suc (suc (suc (suc (suc zero)))))) = State.path_planned
state_at (suc (suc (suc (suc (suc (suc (suc zero))))))) = State.concept_ready
state_at (suc (suc (suc (suc (suc (suc (suc (suc zero)))))))) = State.lab_ready
state_at (suc (suc (suc (suc (suc (suc (suc (suc (suc zero))))))))) = State.assessment_ready
state_at (suc (suc (suc (suc (suc (suc (suc (suc (suc (suc zero)))))))))) = State.completed
state_at (suc (suc (suc (suc (suc (suc (suc (suc (suc (suc (suc zero))))))))))) = State.blocked
state_at _ = State.failed

pub state_at-index : (s : State) → state_at (state_index s) ≡ s
state_at-index State.created = refl
state_at-index _ = refl

instance abbrev pub state_Eq : Eq State
state_Eq = index_Eq state_index state_at state_at-index

abbrev pub worker_index : Worker → ℕ
worker_index Worker.background_collector = 0
worker_index Worker.self_assessor = 1
worker_index Worker.objective_diagnostician = 2
worker_index Worker.profile_builder = 3
worker_index Worker.path_planner = 4
worker_index Worker.concept_tutor = 5
worker_index Worker.code_lab = 6
worker_index Worker.tiered_evaluator = 7
worker_index Worker.teaching_auditor = 8

abbrev pub worker_at : ℕ → Worker
worker_at zero = Worker.background_collector
worker_at (suc zero) = Worker.self_assessor
worker_at (suc (suc zero)) = Worker.objective_diagnostician
worker_at (suc (suc (suc zero))) = Worker.profile_builder
worker_at (suc (suc (suc (suc zero)))) = Worker.path_planner
worker_at (suc (suc (suc (suc (suc zero))))) = Worker.concept_tutor
worker_at (suc (suc (suc (suc (suc (suc zero)))))) = Worker.code_lab
worker_at (suc (suc (suc (suc (suc (suc (suc zero))))))) = Worker.tiered_evaluator
worker_at _ = Worker.teaching_auditor

pub worker_at-index : (w : Worker) → worker_at (worker_index w) ≡ w
worker_at-index Worker.background_collector = refl
worker_at-index _ = refl

instance abbrev pub worker_Eq : Eq Worker
worker_Eq = index_Eq worker_index worker_at worker_at-index

-- The strings that the two types stand for.
abbrev pub state_name : State → String
state_name State.created = "created"
state_name State.intake_ready = "intake_ready"
state_name State.background_collected = "background_collected"
state_name State.self_assessed = "self_assessed"
state_name State.objective_diagnosed = "objective_diagnosed"
state_name State.profile_built = "profile_built"
state_name State.path_planned = "path_planned"
state_name State.concept_ready = "concept_ready"
state_name State.lab_ready = "lab_ready"
state_name State.assessment_ready = "assessment_ready"
state_name State.completed = "completed"
state_name State.blocked = "blocked"
state_name State.failed = "failed"

abbrev pub worker_name : Worker → String
worker_name Worker.background_collector = "background-collector"
worker_name Worker.self_assessor = "self-assessor"
worker_name Worker.objective_diagnostician = "objective-diagnostician"
worker_name Worker.profile_builder = "profile-builder"
worker_name Worker.path_planner = "path-planner"
worker_name Worker.concept_tutor = "concept-tutor"
worker_name Worker.code_lab = "code-lab"
worker_name Worker.tiered_evaluator = "tiered-evaluator"
worker_name Worker.teaching_auditor = "teaching-auditor"

pub record StepDefinition : Type 0 where
  pub from : State
  pub worker : Worker
  pub to : State

abbrev pub worker_sequence : List StepDefinition
worker_sequence =
    record {
      from = State.intake_ready;
      worker = Worker.background_collector;
      to = State.background_collected;
    }
    ∷ record {
      from = State.background_collected;
      worker = Worker.self_assessor;
      to = State.self_assessed;
    }
    ∷ record {
      from = State.self_assessed;
      worker = Worker.objective_diagnostician;
      to = State.objective_diagnosed;
    }
    ∷ record {
      from = State.objective_diagnosed;
      worker = Worker.profile_builder;
      to = State.profile_built;
    }
    ∷ record { from = State.profile_built; worker = Worker.path_planner; to = State.path_planned }
    ∷ record { from = State.path_planned; worker = Worker.concept_tutor; to = State.concept_ready }
    ∷ record { from = State.concept_ready; worker = Worker.code_lab; to = State.lab_ready }
    ∷ record {
      from = State.lab_ready;
      worker = Worker.tiered_evaluator;
      to = State.assessment_ready;
    }
    ∷ []

pub data TransitionCode : Type 0 where
  illegal_transition wrong_worker terminal_state : TransitionCode

pub record TransitionError : Type 0 where
  pub code : TransitionCode
  pub message : String

pub data TransitionEvent : Type 0 where
  intake_ready : TransitionEvent
  worker_completed : Worker → TransitionEvent
  complete : TransitionEvent
  block : String → TransitionEvent
  fail : String → TransitionEvent

-- `ok: true` with the state and an optional reason, or `ok: false` with a state and an error.
pub data TransitionResult : Type 0 where
  accepted : State → Option String → TransitionResult
  refused : State → TransitionError → TransitionResult

abbrev pub terminal_states : List State
terminal_states = State.completed ∷ State.blocked ∷ State.failed ∷ []

abbrev pub is_terminal : State → Bool
is_terminal s = includes terminal_states s

abbrev pub step_from : State → Option StepDefinition
step_from s = find (λ step. step.from == s) worker_sequence

unfoldable pub next_worker : State → Option Worker
next_worker s = elim (step_from s) [ none ↦ none | some step ↦ some step.worker ]

refuse : State → TransitionCode → List String → TransitionResult
refuse s code parts = refused s (record { code = code; message = concat parts })

complete_worker : State → Worker → Option StepDefinition → TransitionResult
unfolding refuse
complete_worker s w none =
    refuse State.failed illegal_transition
      (state_name s ∷ " cannot complete worker " ∷ worker_name w ∷ [])
complete_worker s w (some expected) =
    if expected.worker != w
    then refuse State.failed wrong_worker (
        state_name s
        ∷ " expects "
        ∷ worker_name expected.worker
        ∷ ", received "
        ∷ worker_name w
        ∷ [])
    else accepted expected.to none

transition_live : State → TransitionEvent → TransitionResult
unfolding complete_worker refuse
transition_live s (block reason) = accepted State.blocked (some reason)
transition_live s (fail reason) = accepted State.failed (some reason)
transition_live s TransitionEvent.intake_ready =
    if s == State.created
    then accepted State.intake_ready none
    else refuse State.failed illegal_transition (state_name s ∷ " cannot become intake_ready" ∷ [])
transition_live s complete =
    if s == State.assessment_ready
    then accepted State.completed none
    else refuse State.failed illegal_transition (state_name s ∷ " cannot complete workflow" ∷ [])
transition_live s (worker_completed w) = complete_worker s w (step_from s)

unfoldable pub transition : State → TransitionEvent → TransitionResult
unfolding transition_live refuse
transition s e =
    if is_terminal s
    then refuse s terminal_state (state_name s ∷ " cannot transition further" ∷ [])
    else transition_live s e
