-- ===== src/Orchestrator/AgentLoop.antt =====
-- app/orchestrator/chat_orchestrator.py: `_run_agent_graph` and `_execute_agent_loop`.
--
-- The planner, the critic and the engine's run over the planned graph are `Agents`, and so are the draws
-- and the texts that are formatted; the model behind its guards, the budget, the prompts and the watchdog
-- are those of the other modules. The trace, the telemetry and the plan of the state are left out.
mod Versions
mod Endings
mod Tests
use ai_chatbot_platform.Prelude.{
  ℕ, Bool, true, false, ◌&&◌, Option, none, some, List, [], ◌∷◌, ◌++◌, String, str_eq,
  if◌then◌else◌, Dict,
}
use ai_chatbot_platform.Reliability.FailureTracker.{Error}
use ai_chatbot_platform.Reliability.CircuitBreaker.{Outcome}
use ai_chatbot_platform.Reliability.CircuitBreaker
use ai_chatbot_platform.Watchdog.{
  AgentExecutionContext, Checked, in_budget, exceeded, record_iteration, check,
}
use ai_chatbot_platform.Watchdog.Monitor
use ai_chatbot_platform.Watchdog.Monitor.{
  AgentWatchdog, Limits, Ending, returned, budget_exceeded, failed, guarded_execute,
}
use ai_chatbot_platform.ReasoningGraph.{ReasoningNode, ReasoningGraph, is_completed}
use ai_chatbot_platform.ReasoningGraph.Strategies.{key_error}
use ai_chatbot_platform.Prompts.Evolution.{
  PromptEvolutionManager, initialize_prompt, get_prompt_with_id,
}
use ai_chatbot_platform.Orchestrator.SafeLlm.{LlmGuards, Asking, safe_llm_ask}

-- How `graph_engine.execute` ends: with the versions that it used, or with an exception.
pub data GraphRun : Type 0 where
  ran : List (String × String) → GraphRun
  over_budget : GraphRun
  crashed : Error → GraphRun

pub record Evaluation : Type 0 where
  pub needs_revision : Bool
  pub corrected_response : String
  pub hallucinations_detected : Bool

-- The graph that the engine leaves, the budget and the number of the completed steps.
pub record Executed : Type 0 where
  pub run : GraphRun
  pub graph : ReasoningGraph
  pub ctx : AgentExecutionContext
  pub steps : ℕ

pub record Agents : Type 0 where
  -- the plan and the version of the planner's prompt
  pub plan : String → Outcome (ReasoningGraph × String)
  -- the clock when the plan is made
  pub planned_at : ℕ
  pub execute_graph : ReasoningGraph → AgentExecutionContext → Executed
  -- the synthesizer's prompt for a question and the nodes that are completed
  pub aggregation : String → List ReasoningNode → String
  -- `random.random() < 0.2`, in the two calls
  pub lucky : Bool
  pub lucky_again : Bool
  -- `uuid4`
  pub new_id : String
  -- how a call of the model with a prompt and a system prompt would go
  pub asking : String → String → Asking
  pub evaluate : String → Outcome (Evaluation × String)
  -- "\n".join of the texts of partial results
  pub join_results : List (String × Option String) → String

pub record LoopState : Type 0 where
  pub guards : LlmGuards
  pub manager : PromptEvolutionManager
  pub ctx : AgentExecutionContext

-- The answer, the critic's verdict, the steps and the versions of the prompts.
pub record Looped : Type 0 where
  pub answer : String
  pub hallucinations_detected : Bool
  pub steps : ℕ
  pub used_versions : List (String × String)

unfoldable pub completed_nodes : Dict ReasoningNode → List ReasoningNode
completed_nodes [] = []
completed_nodes ((k, n) ∷ rest) =
    let later = completed_nodes rest in if is_completed n.status then n ∷ later else later

abbrev pub graph_versions : GraphRun → List (String × String)
graph_versions (ran versions) = versions
graph_versions over_budget = []
graph_versions (crashed e) = []

abbrev pub default_synthesizer : String
default_synthesizer =
    "You are a professional synthesizer. Provide a final answer based on the context."

-- A prompt that is read once more where its template is empty.
unfoldable pub synthesizer_again :
    Agents
    → Option (String × String)
    → PromptEvolutionManager
    → Option (String × String) × PromptEvolutionManager
synthesizer_again a none m = (none, m)
synthesizer_again a (some (template, id)) m =
    let m' = initialize_prompt a.new_id "synthesizer" default_synthesizer m in
    if str_eq template ""
    then (get_prompt_with_id a.lucky_again "synthesizer" m', m')
    else (some (template, id), m)

-- The template and the version of the synthesizer; `none` is a `KeyError`.
unfoldable pub synthesizer :
    Agents → PromptEvolutionManager → Option (String × String) × PromptEvolutionManager
unfolding synthesizer_again
synthesizer a m = synthesizer_again a (get_prompt_with_id a.lucky "synthesizer" m) m

abbrev pub corrected : Evaluation → String → String
corrected ev answer =
    if ev.needs_revision
    then (if str_eq ev.corrected_response "" then answer else ev.corrected_response)
    else answer

-- Step 4, with the versions that are used so far.
unfoldable pub criticized :
    Agents → String → ℕ → List (String × String) → LoopState → Ending Looped × LoopState
criticized a answer steps versions s = elim (a.evaluate answer) [
  | CircuitBreaker.raised e ↦ (failed e, s)
  | CircuitBreaker.returned (ev, version) ↦ (
    returned (record {
      answer = corrected ev answer;
      hallucinations_detected = ev.hallucinations_detected;
      steps = steps;
      used_versions = versions ++ ("critic_agent", version) ∷ [];
    }),
    s,
  )
]

-- Step 3: the call of the model, and what follows.
unfoldable pub aggregated :
    Agents
    → String
    → String × String
    → ℕ
    → List (String × String)
    → LoopState
    → Ending Looped × LoopState
unfolding criticized
aggregated a prompt (template, id) steps versions s =
    let (guards, answer) = safe_llm_ask (a.asking prompt template) s.guards in
    let s' = record s { guards = guards } in
    elim answer [
      | CircuitBreaker.raised e ↦ (failed e, s')
      | CircuitBreaker.returned text ↦
          criticized a text steps (versions ++ ("synthesizer", id) ∷ []) s'
    ]

unfoldable pub with_prompt :
    Agents
    → String
    → ℕ
    → List (String × String)
    → LoopState
    → Option (String × String) × PromptEvolutionManager
    → Ending Looped × LoopState
unfolding aggregated
with_prompt a prompt steps versions s (none, manager) =
    (failed key_error, record s { manager = manager })
with_prompt a prompt steps versions s (some chosen, manager) =
    aggregated a prompt chosen steps versions (record s { manager = manager })

-- Step 3 from the choice of the prompt on.
unfoldable pub synthesized :
    Agents → String → ℕ → List (String × String) → LoopState → Ending Looped × LoopState
unfolding synthesizer with_prompt
synthesized a prompt steps versions s =
    with_prompt a prompt steps versions s (synthesizer a s.manager)

-- Steps 2 to 4; no exception of the engine ends them.
unfoldable pub executed :
    Agents → String → ReasoningGraph → String → LoopState → Ending Looped × LoopState
unfolding completed_nodes synthesized
executed a question graph planner_version s =
    let x = a.execute_graph graph s.ctx in
    synthesized a (a.aggregation question (completed_nodes x.graph.nodes)) x.steps
      (("planner_agent", planner_version) ∷ graph_versions x.run) (record s { ctx = x.ctx })

abbrev pub within_budget : {A : Type 0} → Checked → A → A → A
within_budget in_budget x y = x
within_budget (exceeded r) x y = y

unfoldable pub run_agent_graph : Agents → String → LoopState → Ending Looped × LoopState
unfolding executed
run_agent_graph a question s = elim (a.plan question) [
  | CircuitBreaker.raised e ↦ (failed e, s)
  | CircuitBreaker.returned (graph, planner_version) ↦
      let (checked, ctx) = check a.planned_at (record_iteration s.ctx) in
      let s' = record s { ctx = ctx } in
      within_budget checked (executed a question graph planner_version s') (budget_exceeded, s')
]

abbrev pub no_results : String
no_results = "I was unable to complete the full analysis within the time budget."

-- The degraded response.
abbrev pub degraded : Agents → AgentExecutionContext → Looped
degraded a ctx =
    let text = a.join_results ctx.partial_results in
    record {
      answer = if str_eq text "" then no_results else text;
      hallucinations_detected = false;
      steps = 0;
      used_versions = [];
    }

abbrev pub or_degraded : Agents → Option Looped → AgentExecutionContext → Looped
or_degraded a none ctx = degraded a ctx
or_degraded a (some run) ctx = run

-- `_execute_agent_loop`: `during` and `ending` are as in `guarded_execute`.
unfoldable pub execute_agent_loop :
    Agents
    → ℕ
    → String
    → Limits
    → ℕ
    → (ℕ → AgentWatchdog → AgentWatchdog)
    → Ending Looped
    → AgentWatchdog
    → Looped × AgentWatchdog
unfolding guarded_execute
execute_agent_loop a now id limits task during ending w =
    let ((result, address), w') = guarded_execute now id limits task during ending w in
    (or_degraded a result (w'.contexts address), w')
