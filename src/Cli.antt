-- ===== src/Cli.antt =====
-- cli.rs: the texts that name a staging reserve or a limit.
pub mod Reserve
