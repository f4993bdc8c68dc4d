-- ===== src/Orchestrator/AgentLoop/Tests.antt =====
-- A plan of one node that is completed, and a run that is cut off.
use ai_chatbot_platform.Prelude.{
  ◌≡◌, refl, true, false, none, some, [], ◌∷◌, arith, lookup, put, keys, Distinct,
}
use ai_chatbot_platform.Reliability.FailureTracker
use ai_chatbot_platform.Reliability.FailureTracker.{Error}
use ai_chatbot_platform.Reliability.CircuitBreaker
use ai_chatbot_platform.Watchdog.{new_context, check, record_iteration}
use ai_chatbot_platform.Watchdog.Monitor.{
  AgentWatchdog, active, Limits, cancelled_error, register, attach_task,
}
use ai_chatbot_platform.Watchdog.Monitor.Guarded.{started}
use ai_chatbot_platform.ReasoningGraph.{ReasoningNode, ReasoningGraph, reasoning, completed}
use ai_chatbot_platform.Prompts.Evolution.Soundness.{IsKept}
use ai_chatbot_platform.Orchestrator.SafeLlm.{LlmGuards}
use ai_chatbot_platform.Orchestrator.AgentLoop.{
  Agents, ran, LoopState, run_agent_graph, execute_agent_loop,
}
use ai_chatbot_platform.Orchestrator.AgentLoop.Versions.{ReportedBy, run_agent_graph-versions}
use ai_chatbot_platform.Orchestrator.AgentLoop.Endings.{answer_from, execute_agent_loop-answer}

abbrev node : ReasoningNode
node = record {
  id = "n1";
  type = reasoning;
  task = "define tea";
  dependencies = [];
  result = some "a drink";
  status = completed;
  depth = 1;
  agent = none;
}

abbrev graph : ReasoningGraph
graph = record { nodes = ("n1", node) ∷ []; max_nodes = 10; max_depth = 5 }

abbrev agents : Agents
agents = record {
  plan = λ q. CircuitBreaker.returned (graph, "p1");
  planned_at = 1;
  execute_graph =
      λ g c. record { run = ran (("reasoning_agent", "r1") ∷ []); graph = g; ctx = c; steps = 1 };
  aggregation = λ q ns. q;
  lucky = false;
  lucky_again = false;
  new_id = "s1";
  asking = λ p s. record {
    start = 2;
    end = 3;
    attempts = record {
      run = λ k. CircuitBreaker.returned "Tea is a drink.";
      clock = λ k. k;
      uniform = λ k low high. low;
    };
  };
  evaluate = λ t. CircuitBreaker.returned (
    record { needs_revision = false; corrected_response = ""; hallucinations_detected = false },
    "c1",
  );
  join_results = λ rs. "";
}

abbrev guards : LlmGuards
guards = record {
  circuit = CircuitBreaker.init 5 30 1 (FailureTracker.init 60 100);
  retry = record {
    max_retries = 1;
    base_delay = 1;
    max_delay = 15;
    retryable = λ e. true;
    tracker = FailureTracker.init 60 100;
  };
  timeout = record {
    is_builtin_timeout = λ e. false;
    is_timeout = λ e. false;
    timeout_error = record { name = "TimeoutError"; text = [] };
  };
  exhausted_text = λ n e. [];
}

abbrev fresh_state : LoopState
fresh_state = record {
  guards = guards;
  manager = record { evolutions = []; disk = [] };
  ctx = new_context 0;
}

fresh_state-IsKept : IsKept fresh_state.manager
unfolding lookup
fresh_state-IsKept = record { sound = λ k evo h. ground arith; saved = refl }

run_agent_graph-versions_example :
    IsKept (run_agent_graph agents "What is tea?" fresh_state).1.manager
    × ReportedBy agents "What is tea?"
        (check agents.planned_at (record_iteration fresh_state.ctx)).1
        (run_agent_graph agents "What is tea?" fresh_state).0
        (run_agent_graph agents "What is tea?" fresh_state).1.manager
run_agent_graph-versions_example =
    run_agent_graph-versions agents "What is tea?" fresh_state fresh_state-IsKept

abbrev limits : Limits
limits = record { max_iterations = 10; max_tool_calls = 20; max_runtime_seconds = 30 }

abbrev watchdog : AgentWatchdog
watchdog = record {
  executions = [];
  monitoring = false;
  contexts = λ a. new_context 0;
  fresh = 0;
  tasks = λ t. active;
}

started-keys : Distinct (keys (started 0 "agent-1" limits 4 watchdog).executions)
unfolding started register attach_task put lookup
started-keys = (tt, tt)

execute_agent_loop-answer_example :
    ((execute_agent_loop agents 0 "agent-1" limits 4 (λ a w. w) cancelled_error watchdog).0
      ≡ answer_from agents none
          ((started 0 "agent-1" limits 4 watchdog).contexts 0).partial_results)
    × (lookup "agent-1"
          (execute_agent_loop agents 0 "agent-1" limits 4
            (λ a w. w)
            cancelled_error
            watchdog).1.executions
        ≡ none)
execute_agent_loop-answer_example =
    execute_agent_loop-answer agents 0 "agent-1" limits 4 (λ a w. w) cancelled_error watchdog
      started-keys
