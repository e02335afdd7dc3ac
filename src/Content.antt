-- ===== src/Content.antt =====
-- src/role-c-content: the content pipeline, mastery, routing, checkpoints and grading.
pub mod Pipeline
pub mod Policy
pub mod Mastery
pub mod Routing
pub mod Checkpoint
pub mod Grading
