-- ===== src/Orchestrator.antt =====
-- orchestrator.rs: the plan of a run, made from what the two sides report.
pub mod Plan
pub mod Dependencies
pub mod Migration
pub mod Interrupt
pub mod Strategy
