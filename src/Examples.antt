-- ===== src/Examples.antt =====
-- Runs of the theorems on concrete inputs.
mod Codec
mod Workflow
mod Records
mod Mastery
mod Assessment
mod Audit
mod Recovery
mod Sessions
mod Paths
mod Grading
