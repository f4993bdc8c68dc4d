-- ===== src/ReasoningGraph/Engine.antt =====
-- app/reasoning_graph/engine.py: `_execute_node`, the executor of the engine, and what it uses of
-- app/agents/agent_router.py and app/agents/agent_state.py.
--
-- The LLM, the tools, the memory, the agents, the clock and the regular expression that finds a tool
-- call are other code: fields of `Services`. An exception's text is a text of its own.
mod Execution
mod Tests
use ai_chatbot_platform.Prelude.{
  ℕ, suc, ◌+◌, Bool, true, false, ◌||◌, Option, none, some, List, [], ◌∷◌, ◌++◌, String, leb,
  if◌then◌else◌, str_eq, Dict, lookup, put,
}
use ai_chatbot_platform.Reliability.FailureTracker.{Error}
use ai_chatbot_platform.Reliability.CircuitBreaker.{Outcome, returned, raised}
use ai_chatbot_platform.Watchdog.{
  AgentExecutionContext, Checked, in_budget, exceeded, TerminationReason, record_iteration,
  record_tool_call, check, save_partial,
}
use ai_chatbot_platform.ReasoningGraph.{
  NodeType, reasoning, tool_call, memory_lookup, NodeStatus, running, completed, failed,
  ReasoningNode, ReasoningGraph,
}
use ai_chatbot_platform.ReasoningGraph.Strategies.{Executor, key_error}

-- The trace, the times and the recorded tool calls of `AgentState` are left out: nothing reads them.
pub record AgentState : Type 0 where
  pub completed_steps : List String
  pub intermediate_results : Dict String
  pub max_steps : ℕ
  pub current_step_count : ℕ
  pub max_tool_calls : ℕ
  pub tool_call_count : ℕ

unfoldable pub add_result : String → String → AgentState → AgentState
add_result step result s = record s {
  intermediate_results = put step result s.intermediate_results;
  completed_steps = s.completed_steps ++ step ∷ [];
  current_step_count = s.current_step_count + 1;
}

unfoldable pub increment_tool_count : AgentState → AgentState
increment_tool_count s = record s { tool_call_count = s.tool_call_count + 1 }

pub is_state_complete : AgentState → Bool
is_state_complete s = leb s.max_steps s.current_step_count || leb s.max_tool_calls s.tool_call_count

-- What the engine is given.
pub record Services : Type 0 where
  -- the registered agents: a task's result and version, or an exception
  pub agents : Dict (String → Outcome (String × String))
  pub ask : ReasoningNode → ReasoningGraph → Outcome String
  pub run_tool : String → String → Outcome String
  pub retrieve_context : String → Outcome String
  -- `re.search(r"(\w+)\((.*)\)", task)`
  pub parse_tool_call : String → Option (String × String)
  -- the clock, by the number of times that it has been read
  pub clock : ℕ → ℕ
  -- f"Error: {e}", and the text of an agent that is not registered
  pub error_text : Error → String
  pub not_registered : String → String
  pub parse_failure : String → String

-- `state`, and the context and the readings of the clock that the engine holds.
pub record Session : Type 0 where
  pub state : AgentState
  pub exec_ctx : Option AgentExecutionContext
  pub readings : ℕ

abbrev pub budget_error : Error
budget_error = record { name = "AgentBudgetExceededError"; text = [] }

-- Whether a budget check lets the node go on.
unfoldable pub spend :
    Services → (AgentExecutionContext → AgentExecutionContext) → Session → Bool × Session
spend sv count s = elim s.exec_ctx [
  | none ↦ (true, s)
  | some c ↦
      let (r, c') = check (sv.clock s.readings) (count c) in
      let s' = record s { exec_ctx = some c'; readings = s.readings + 1 } in
      elim r [ in_budget ↦ (true, s') | exceeded _ ↦ (false, s') ]
]

-- The result of the node's work: its result and version, an exception, or the end of the budget.
pub data Work : Type 0 where
  worked : Option String → Option String → Work
  crashed : Error → Work
  over_budget : Work

-- `AgentRouter.route_and_execute`, which raises nothing.
unfoldable pub route_and_execute :
    Services → String → ReasoningNode → AgentState → (String × String) × AgentState
unfolding add_result
route_and_execute sv agent n s = elim (lookup agent sv.agents) [
  | none ↦ ((sv.not_registered agent, "static"), s)
  | some f ↦ elim (f n.task) [
    | returned (result, version) ↦ ((result, version), add_result n.id result s)
    | raised e ↦ ((sv.error_text e, "error"), s)
  ]
]

abbrev of_outcome : Outcome String → Work
of_outcome (returned r) = worked (some r) none
of_outcome (raised e) = crashed e

unfoldable pub run_tool_call : Services → ReasoningNode → Session → Work × Session
unfolding spend increment_tool_count
run_tool_call sv n s = elim (sv.parse_tool_call n.task) [
  | none ↦ (worked (some (sv.parse_failure n.task)) none, s)
  | some (name, args) ↦
      let (ok, s') = spend sv record_tool_call s in
      if ok
      then elim (sv.run_tool name args) [
        | raised e ↦ (crashed e, s')
        | returned r ↦ (worked (some r) none, record s' { state = increment_tool_count (s'.state) })
      ]
      else (over_budget, s')
]

-- `{d: graph.nodes[d].result for d in node.dependencies}` raises no `KeyError`.
unfoldable pub has_nodes : Dict ReasoningNode → List String → Bool
has_nodes nodes [] = true
has_nodes nodes (d ∷ ds) =
    let rest = has_nodes nodes ds in elim (lookup d nodes) [ none ↦ false | some _ ↦ rest ]

-- `node.metadata.get("agent")`, where an empty name is as good as none.
abbrev pub named : Option String → Option String
named none = none
named (some name) = if str_eq name "" then none else some name

-- The branches behind the first budget check.
unfoldable pub do_work : Services → ReasoningNode → ReasoningGraph → Session → Work × Session
unfolding route_and_execute run_tool_call
do_work sv n g s =
    if has_nodes g.nodes n.dependencies
    then elim (named n.agent) [
      | some agent ↦
          let ((result, version), state) = route_and_execute sv agent n s.state in
          (worked (some result) (some version), record s { state = state })
      | none ↦ elim n.type [
        | reasoning ↦ (of_outcome (sv.ask n g), s)
        | tool_call ↦ run_tool_call sv n s
        | memory_lookup ↦ (of_outcome (sv.retrieve_context n.task), s)
      ]
    ]
    else (crashed key_error, s)

abbrev keep_partial : String → Option String → Session → Session
keep_partial id result s = record s {
  exec_ctx = elim s.exec_ctx [ none ↦ none | some c ↦ some (save_partial id result c) ];
}

-- The version and the agent's key, which the strategies collect.
abbrev pub Version : Type 0
Version = Option String × Option String

unfoldable pub conclude :
    Services → ReasoningNode → Work → Session → Outcome Version × ReasoningNode × Session
conclude sv n (worked result version) s = (
  returned (version, named n.agent),
  record n { status = completed; result = result },
  keep_partial n.id result s,
)
conclude sv n (crashed e) s =
    (returned (none, none), record n { status = failed; result = some (sv.error_text e) }, s)
conclude sv n over_budget s = (raised budget_error, record n { status = running }, s)

unfoldable pub execute_node : Services → Executor Session Version
unfolding spend do_work conclude
execute_node sv n g s =
    let n' = record n { status = running } in
    let (ok, s') = spend sv record_iteration s in
    let (w, s'') = do_work sv n' g s' in
    if ok then conclude sv n' w s'' else conclude sv n' over_budget s'
