-- ===== src/Orchestrator.antt =====
-- app/orchestrator/chat_orchestrator.py: the calls of the model and the handling of a question.
pub mod SafeLlm
pub mod AgentLoop
pub mod Chat
pub mod ToolRunner
