-- ===== src/Content/Policy.antt =====
-- src/role-c-content/mastery/next-action-policy.ts: the next action for a mastery estimate.
pub mod Laws
use knowbalance.Prelude.{
  ℕ, String, Bool, true, false, not, ◌&&◌, ◌||◌, Option, none, some, List, [], ◌∷◌, leb,
  if◌then◌else◌, or_default,
}
use knowbalance.Prelude.Number.{Number}

-- The actions of `NextActionDecision`
pub data Action : Type 0 where
  remediate reinforce advance reprofile : Action

abbrev pub is_advance : Option Action → Bool
is_advance (some advance) = true
is_advance _ = false

abbrev pub is_remediate : Option Action → Bool
is_remediate (some remediate) = true
is_remediate _ = false

pub record NextActionDecision (N : Number) : Type 0 where
  pub action : Action
  pub confidence : N.Num
  pub reason_codes : List String

-- The argument of `decideNextAction`, with `none` for a field that is left out.
pub record ActionInput (N : Number) : Type 0 where
  pub mastery : N.Num
  pub sufficient_modalities : Bool
  pub profile_conflict_count : Option ℕ
  pub previous_action : Option Action

abbrev pub decision : (N : Number) → Action → ℕ → List String → NextActionDecision N
decision N action confidence codes = record {
  action = action;
  confidence = N.hundredths confidence;
  reason_codes = codes;
}

unfoldable pub decide_next_action : (N : Number) → ActionInput N → NextActionDecision N
decide_next_action N input =
    let mastery = input.mastery in
    if leb 2 (or_default input.profile_conflict_count 0)
    then decision N reprofile 80 ("repeated_profile_evidence_conflict" ∷ [])
    else if is_advance input.previous_action
        && (N.le (N.hundredths 74) mastery && input.sufficient_modalities)
    then decision N advance 72 ("advance_hysteresis_retained" ∷ [])
    else if is_remediate input.previous_action && N.lt mastery (N.hundredths 66)
    then decision N remediate 72 ("remediate_hysteresis_retained" ∷ [])
    else if N.lt mastery (N.hundredths 58)
    then decision N remediate 85 ("mastery_below_0_60" ∷ [])
    else if N.lt mastery (N.hundredths 82) || not input.sufficient_modalities
    then decision N reinforce 75 (
        (if N.lt mastery (N.hundredths 82)
          then "mastery_in_reinforcement_band"
          else "insufficient_evidence_modalities")
        ∷ [])
    else decision N advance 85 ("mastery_at_least_0_82" ∷ "evidence_sufficient" ∷ [])
