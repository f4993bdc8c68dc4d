-- ===== src/ReasoningGraph/Engine/Tests.antt =====
-- A chain of two nodes that is run by the engine under the watchdog.
use text.Mathlib.TextEquality.{eq_iff}
use mathlib.Core.Bool.{false≢true}
use ai_chatbot_platform.Prelude.{◌≡◌, refl, none, some, [], ◌∷◌, true, Distinct, lookup, put, ◌⊎◌}
use ai_chatbot_platform.Reliability.CircuitBreaker.{returned}
use ai_chatbot_platform.Watchdog.{
  AgentExecutionContext, new_context, check, record_iteration, record_tool_call, save_partial,
}
use ai_chatbot_platform.ReasoningGraph.{
  pending, reasoning, tool_call, ReasoningNode, ReasoningGraph, get_ready_nodes, deps_met,
  is_complete,
}
use ai_chatbot_platform.ReasoningGraph.Strategies.{
  World, Swarm, finished, swarm, sequential, batch_size, gather, run_node, run_each,
}
use ai_chatbot_platform.ReasoningGraph.Strategies.Swarming.{EndsCalm, EndsCancelled, swarm_ends}
use ai_chatbot_platform.ReasoningGraph.Engine.{Services, Session, execute_node, has_nodes}
use ai_chatbot_platform.ReasoningGraph.Engine.Execution.{execute_node-Settles, execute_ends}

abbrev services : Services
services = record {
  agents = [];
  ask = λ n g. returned "thought";
  run_tool = λ name args. returned "42";
  retrieve_context = λ task. returned "";
  parse_tool_call = λ task. some ("calculator", task);
  clock = λ i. i;
  error_text = λ e. e.name;
  not_registered = λ agent. "No agent registered";
  parse_failure = λ task. "Failed to parse";
}

abbrev think : ReasoningNode
think = record {
  id = "think";
  type = reasoning;
  task = "think";
  dependencies = [];
  result = none;
  status = pending;
  depth = 1;
  agent = none;
}

abbrev compute : ReasoningNode
compute = record think { id = "compute"; type = tool_call; dependencies = "think" ∷ []; depth = 2 }

abbrev chain : ReasoningGraph
chain = record {
  nodes = ("think", think) ∷ ("compute", compute) ∷ [];
  max_nodes = 50;
  max_depth = 10;
}

abbrev session : AgentExecutionContext → Session
session c = record {
  state = record {
    completed_steps = [];
    intermediate_results = [];
    max_steps = 8;
    current_step_count = 0;
    max_tool_calls = 10;
    tool_call_count = 0;
  };
  exec_ctx = some c;
  readings = 0;
}

abbrev world : World Session
world = record { graph = chain; state = session (new_context 0) }

abbrev limits : Swarm
limits = record { max_agents = 5; max_parallel = 10; active_agents = 0 }

Distinct-nodes : Distinct ("think" ∷ "compute" ∷ [])
Distinct-nodes = ((λ e. false≢true ((eq_iff "think" "compute").1 e), tt), (tt, tt))

program : Unit {0}
unfolding swarm sequential run_each gather run_node batch_size get_ready_nodes deps_met is_complete
    lookup put execute_node check record_iteration record_tool_call save_partial
program = tt

-- Both nodes run, in two rounds, and the graph is complete.
chain_completes : is_complete (swarm (execute_node services) 3 none [] limits world).2.graph ≡ true
unfolding program has_nodes
chain_completes = refl

-- With a limit of one iteration the first node is left running and the swarm ends without an error.
chain_stalls :
    (swarm
      (execute_node services)
      3
      none
      []
      limits
      (record world { state = session (record (new_context 0) { max_iterations = 1 }) })).0
    ≡ finished []
unfolding program has_nodes
chain_stalls = refl

execute_ends_example :
    EndsCalm (execute_node services) 0 (swarm (execute_node services) 3 none [] limits world)
execute_ends_example = execute_ends services world limits Distinct-nodes

swarm_ends_example :
    EndsCalm
      (execute_node services)
      0
      (swarm (execute_node services) 3 (some (1, world)) [] limits world)
    ⊎ EndsCancelled
        (execute_node services)
        0
        (some (1, world))
        (swarm (execute_node services) 3 (some (1, world)) [] limits world)
swarm_ends_example =
    swarm_ends (execute_node services) (some (1, world)) world limits
      (execute_node-Settles services) Distinct-nodes

-- A cancellation in the second round leaves one agent counted as active.
cancelled_leaks :
    (swarm (execute_node services) 3 (some (1, world)) [] limits world).1.active_agents ≡ 1
unfolding program has_nodes
cancelled_leaks = refl
