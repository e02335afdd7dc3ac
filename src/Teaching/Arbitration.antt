-- ===== src/Teaching/Arbitration.antt =====
-- src/role-b-profile/teaching-audit/arbitrator.ts, with the types of types.ts that it uses.
pub mod Laws
use knowbalance.Prelude.{
  ℕ, ◌+◌, ◌-◌, String, Bool, true, false, List, [], ◌∷◌, ◌++◌, ltb, if◌then◌else◌, not, ◌||◌,
}
use knowbalance.Prelude.Text.{concat, join, show_nat}

-- `TeachingAuditStatus`, which is also the type of the fact audit's status and of a decision.
pub data AuditStatus : Type 0 where
  pass revise reject : AuditStatus

abbrev pub audit_status_name : AuditStatus → String
audit_status_name pass = "pass"
audit_status_name revise = "revise"
audit_status_name reject = "reject"

-- `revisionRound` counts the rounds from 0.
pub record ArbitrationInput : Type 0 where
  pub artifact_id : String
  pub fact_audit_status : AuditStatus
  pub teaching_audit_status : AuditStatus
  pub revision_round : ℕ

pub record ArbitrationResult : Type 0 where
  pub artifact_id : String
  pub decision : AuditStatus
  pub revision_round : ℕ
  pub max_revision_rounds : ℕ
  pub can_revise : Bool
  pub reason : String
  pub fact_audit_notes : List String
  pub teaching_audit_notes : List String

abbrev pub max_revision_rounds : ℕ
max_revision_rounds = 2

abbrev pub is_pass : AuditStatus → Bool
is_pass pass = true
is_pass _ = false

abbrev pub is_revise : AuditStatus → Bool
is_revise revise = true
is_revise _ = false

abbrev pub is_reject : AuditStatus → Bool
is_reject reject = true
is_reject _ = false

abbrev pub fact_notes : AuditStatus → List String
fact_notes status =
    if is_pass status
    then []
    else concat ("事实审核状态: " ∷ audit_status_name status ∷ " — 内容引用存在问题" ∷ []) ∷ []

abbrev pub teaching_notes : AuditStatus → List String
teaching_notes status =
    if is_pass status
    then []
    else concat ("教学审核状态: " ∷ audit_status_name status ∷ " — 教学规范性存在问题" ∷ []) ∷ []

abbrev pub build_reject_reason : AuditStatus → AuditStatus → String
build_reject_reason fact teaching =
    let parts =
      (if is_reject fact then "事实审核驳回（引用不存在、错位或使用知识库外内容）" ∷ [] else [])
      ++ (if is_reject teaching then "教学审核驳回（难度/前置知识严重不匹配）" ∷ [] else []) in
    concat (join "；" parts ∷ "。内容需重新生成。" ∷ [])

abbrev pub revision_reason : Bool → ℕ → String
revision_reason true round = concat (
    "第 "
    ∷ show_nat (round + 1)
    ∷ " 轮修订后仍存在问题，允许再进行一轮修订（剩余 "
    ∷ show_nat (max_revision_rounds - round - 1)
    ∷ " 轮）。"
    ∷ [])
revision_reason false round =
    concat (
      "已进行 "
      ∷ show_nat (round + 1)
      ∷ " 轮修订（超出上限 "
      ∷ show_nat max_revision_rounds
      ∷ " 轮），转为驳回。"
      ∷ [])

unfoldable pub arbitrate : ArbitrationInput → ArbitrationResult
arbitrate input =
    let fact = input.fact_audit_status in
    let teaching = input.teaching_audit_status in
    let can_revise = ltb input.revision_round max_revision_rounds in
    if is_reject fact || is_reject teaching
    then record {
      artifact_id = input.artifact_id;
      decision = reject;
      revision_round = input.revision_round;
      max_revision_rounds = max_revision_rounds;
      can_revise = false;
      reason = build_reject_reason fact teaching;
      fact_audit_notes = fact_notes fact;
      teaching_audit_notes = teaching_notes teaching;
    }
    else if is_revise fact || is_revise teaching
    then record {
      artifact_id = input.artifact_id;
      decision = if can_revise then revise else reject;
      revision_round = input.revision_round;
      max_revision_rounds = max_revision_rounds;
      can_revise = can_revise;
      reason = revision_reason can_revise input.revision_round;
      fact_audit_notes = fact_notes fact;
      teaching_audit_notes = teaching_notes teaching;
    }
    else record {
      artifact_id = input.artifact_id;
      decision = pass;
      revision_round = input.revision_round;
      max_revision_rounds = max_revision_rounds;
      can_revise = false;
      reason = "事实审核与教学审核均通过，内容可发布。";
      fact_audit_notes = [];
      teaching_audit_notes = [];
    }
