-- ===== src/Llm.antt =====
-- app/llm: the language models' providers.
pub mod FallbackProvider
pub mod TokenBudget
