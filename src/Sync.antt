-- ===== src/Sync.antt =====
-- sync.rs: how the changes of a plan are applied. Modelled is how they are cut into waves.
pub mod Detail
pub mod Staging
pub mod Window
pub mod Validate
pub mod Tuning
pub mod Blockers
pub mod Commit
pub mod Transfer
