-- ===== src/Prompts.antt =====
-- app/prompts: the system prompts of the agents and their versions.
pub mod Evolution
