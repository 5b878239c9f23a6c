-- ===== src/Scan.antt =====
-- src/scan: the entries of a tree, what changed in it, which part of it is scanned.
pub mod Entry
pub mod Change
pub mod Scope
pub mod Location
pub mod Walk
pub mod Scheduler
