-- ===== src/Tests.antt =====
-- Runs of the model on small inputs, and the theorems at such inputs.
mod Samples
mod Scan
mod Plan
mod Resolution
mod Manifest
mod Staging
mod Window
mod Validate
mod Commit
mod Profile
mod Run
mod Interrupt
