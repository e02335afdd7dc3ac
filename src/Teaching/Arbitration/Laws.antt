-- ===== src/Teaching/Arbitration/Laws.antt =====
-- What an arbitration decides, and that revision ends.
use knowbalance.Prelude.{
  ℕ, suc, ◌≡◌, ◌↔◌, ◌<◌, true, List, [], ◌∷◌, arith, ◌⊎◌, length, ◌≤◌, is_empty, if◌then◌else◌,
}
use knowbalance.Teaching.Arbitration.{
  AuditStatus, pass, revise, ArbitrationInput, arbitrate, is_revise, max_revision_rounds,
}

-- The decision is `pass` exactly when both audits pass, and `revise`, with `can_revise`, exactly when
-- neither audit rejects, one of them asks for a revision, and fewer than two rounds were made; an
-- audit has a note exactly when it does not pass.
pub arbitrate-decision_iff :
    (input : ArbitrationInput)
    → let result = arbitrate input in
      let fact = input.fact_audit_status in
      let teaching = input.teaching_audit_status in
      ((result.decision ≡ pass) ↔ ((fact ≡ pass) × (teaching ≡ pass)))
      × ((result.decision ≡ revise) ↔ (
          (((fact ≡ revise) × (teaching ≡ pass))
            ⊎ ((fact ≡ pass) × (teaching ≡ revise))
            ⊎ ((fact ≡ revise) × (teaching ≡ revise)))
          × (input.revision_round < max_revision_rounds)))
      × ((result.decision ≡ revise) ↔ (result.can_revise ≡ true))
      × ((is_empty result.fact_audit_notes ≡ true) ↔ (fact ≡ pass))
      × ((is_empty result.teaching_audit_notes ≡ true) ↔ (teaching ≡ pass))
unfolding arbitrate
arbitrate-decision_iff input = ground arith

-- The decisions on the audits of successive rounds, up to the first that is not `revise`.
unfoldable pub revise_until : ℕ → List (AuditStatus × AuditStatus) → List AuditStatus
unfolding arbitrate
revise_until round [] = []
revise_until round ((fact, teaching) ∷ audits) =
    let result = arbitrate (record {
      artifact_id = "";
      fact_audit_status = fact;
      teaching_audit_status = teaching;
      revision_round = round;
    }) in
    let rest = revise_until (suc round) audits in
    if is_revise result.decision then result.decision ∷ rest else result.decision ∷ []

revise_until-last :
    (round : ℕ) (audits : List (AuditStatus × AuditStatus))
    → max_revision_rounds ≤ round
    → length (revise_until round audits) ≤ 1
unfolding revise_until arbitrate
revise_until-last round [] h = omega arith
revise_until-last round ((fact, teaching) ∷ audits) h = ground arith

revise_until-step :
    (round n : ℕ) (audits : List (AuditStatus × AuditStatus))
    → ((rest : List (AuditStatus × AuditStatus)) → length (revise_until (suc round) rest) ≤ n)
    → length (revise_until round audits) ≤ suc n
unfolding revise_until
revise_until-step round n [] h = omega arith
revise_until-step round n ((fact, teaching) ∷ audits) h = ground (arith, h audits)

-- Rounds that are arbitrated from 0 on, until a decision is not `revise`, are at most three, whatever
-- the audits say.
pub revise_until-bounded :
    (audits : List (AuditStatus × AuditStatus)) → length (revise_until 0 audits) ≤ 3
revise_until-bounded audits =
    revise_until-step 0 2 audits
      (λ second. revise_until-step 1 1 second (λ third. revise_until-last 2 third (omega arith)))
