-- ===== src/Teaching.antt =====
-- src/role-b-profile/teaching-audit: the arbitration of the two audits, the progress of a
-- learner, and recovery paths.
pub mod Arbitration
pub mod Progress
pub mod Recovery
pub mod Paths
