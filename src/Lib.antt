-- ===== src/Lib.antt =====
-- A verification library for the core of the chatbot platform: the handling of a question, the
-- reliability layer around the model, the budget of an agent's execution, the graph of reasoning steps
-- with the engine that runs it, the memories, the plugins in their processes and the prompts that evolve.
--
-- The parts, with the code that each is about:
--   * Reliability/FailureTracker (app/reliability/failure_tracker.py): the sliding window of
--     failures and successes, which the breaker and the retries record in.
--   * Reliability/CircuitBreaker (app/reliability/circuit_breaker.py): `call` and the methods it is
--     made of, as a function for one caller, and as steps of many callers that interleave at the
--     `await`s (CircuitBreaker/Interleavings).
--   * Reliability/RetryPolicy (app/reliability/retry_policy.py): `execute`. Its loop runs over the
--     source's `range`, so the number of rounds is the source's own bound.
--   * Reliability/LoadGuard (app/reliability/load_guard.py): the limiters of requests and of agents,
--     and the throttle that reads both.
--   * Reliability/TimeoutController (app/reliability/timeout_controller.py): a limit on the time of a
--     coroutine, over the outcome of `asyncio.wait_for`.
--   * Reliability/ResponseGuard (app/reliability/response_guard.py): `validate` with its four checks.
--   * Orchestrator (app/orchestrator/chat_orchestrator.py): Orchestrator/SafeLlm is `_safe_llm_ask`,
--     which is made of the breaker, the retries and the timeout; Orchestrator/AgentLoop is the run of
--     the agents, with that call, the prompts and the budget, under the watchdog; Orchestrator/Chat is
--     `generate_answer` over services that answer or raise, with app/security/refusal_guard.py.
--   * Watchdog (app/orchestrator/watchdog.py): `AgentExecutionContext`, the budget that the engine
--     counts in, and its exception; Watchdog/Monitor is `AgentWatchdog`, which holds the contexts of
--     all executions and ends those that are overdue.
--   * ReasoningGraph (app/reasoning_graph/models.py): the graph; ReasoningGraph/Strategies
--     (app/swarm/execution.py): the two strategies that run it; ReasoningGraph/Engine
--     (app/reasoning_graph/engine.py, with app/agents/agent_router.py and app/agents/agent_state.py):
--     the executor that the strategies call for each node, under the watchdog's budget.
--   * Memory/Authority, Memory/Extraction (app/memory/authority.py): which of several facts about a key
--     is believed, and the facts that the texts of the memories hold.
--   * Memory/Controller, Memory/Merging (app/memory/memory_controller.py): the one interface of the three
--     memories, which reads the conversation, the vector memory and the knowledge graph, has the facts
--     reconciled by Authority, and stores an interaction in all three.
--   * KnowledgeGraph/GraphStore (app/knowledge_graph/graph_store.py): entities and relationships
--     without duplicates.
--   * Llm/FallbackProvider (app/llm/providers/fallback_provider.py): one provider after another, each
--     behind a small breaker of its own.
--   * Llm/TokenBudget (app/llm/tokenizer/adaptive_budget.py, with `build_final_prompt` of
--     app/orchestrator/context_builder.py): the shares of the context in the token limit.
--   * Plugins: Plugins/Protocol (app/plugins/plugin_protocol.py) is the framing of messages, for which
--     Plugins/PyInt has Python's `int` and `str` of a number; Plugins/Runner is `run_plugin` of
--     app/plugins/registry.py and the process that it starts, app/plugins/plugin_runtime.py.
--   * Prompts/Evolution (app/prompts/evolution/models.py and manager.py): the versions of a prompt.
--   * Orchestrator/ToolRunner (app/orchestrator/tool_runner.py): the tool calls in the stream of an answer.
--   * Api/TokenBucket (app/api/middleware/token_bucket.py): the rate limit of a caller, with the script
--     that Redis runs. A tick is a tenth of a second, and a token has 600 parts. Redis is an interface
--     with the law of a write.
--   * KnowledgeGraph/Trust (app/knowledge_graph/trust.py): the score of a document before it is ingested.
--     Scores are whole hundredths.
--   * Api/Protection (app/api/middleware/request_protection.py): the cap on the size of a request and the
--     signals of abuse.
--   * VectorMemory/Maintenance (app/vector_memory/maintenance.py): the removal of stale memories and of
--     near-duplicates, and the index that is rebuilt.
--   * Prelude: Boolean tests, lists and Python's `dict`, which all of these use.
--
-- A method that changes its object is a function from the object to the object, with its result
-- beside it; a field is named as in the source, without the leading underscore. An exception is a
-- case of the result. Time is a natural number of ticks, read by the caller and passed as an
-- argument; other numbers with a fraction are exact, as hundredths or as a numerator and a
-- denominator. Coroutines, clocks, random draws, the LLM and regular expressions are arguments.
--
-- The `while` loops of the strategies run on fuel, one unit for each round. One unit for each pending
-- node and one more are enough, since each round settles a node (Strategies/Endings and
-- Strategies/Swarming).
--
-- Not modelled: logging, metrics and tracing, which nothing reads back; the coroutines of one batch of
-- the swarm run one after the other, and what they leave where the run is cancelled is a parameter;
-- what an agent of the router does to the shared state; the discovery of plugins and the sandbox in
-- the interpreter; failures of a write to a file; and the parts of the platform that are calls of
-- databases, models and the network.
pub mod Api
pub mod Prelude
pub mod Reliability
pub mod Watchdog
pub mod ReasoningGraph
pub mod Memory
pub mod Llm
pub mod KnowledgeGraph
pub mod Plugins
pub mod Prompts
pub mod VectorMemory
pub mod Orchestrator
