-- ===== src/Watchdog.antt =====
-- app/orchestrator/watchdog.py: the budget of one agent execution.
--
-- `elapsed_seconds >= max_runtime_seconds` is written without a subtraction; clock readings are
-- arguments. A partial result is a node's id with its result. `exceeded` is the exception
-- `AgentBudgetExceededError`; the context comes back beside it.
pub mod Budget
pub mod Monitor
mod Tests
use ai_chatbot_platform.Prelude.{
  ℕ, ◌+◌, Bool, true, false, Option, none, some, List, [], ◌∷◌, ◌++◌, String, leb, if◌then◌else◌,
}

pub data TerminationReason : Type 0 where
  completed iteration_limit tool_call_limit runtime_limit cancelled error : TerminationReason

pub record AgentExecutionContext : Type 0 where
  pub max_iterations : ℕ
  pub max_tool_calls : ℕ
  pub max_runtime_seconds : ℕ
  pub iteration_count : ℕ
  pub tool_call_count : ℕ
  pub start_time : ℕ
  pub partial_results : List (String × Option String)
  pub termination_reason : TerminationReason
  pub is_cancelled : Bool

-- The defaults of the constructor, for an execution that starts at `now`.
abbrev pub new_context : ℕ → AgentExecutionContext
new_context now = record {
  max_iterations = 10;
  max_tool_calls = 20;
  max_runtime_seconds = 30;
  iteration_count = 0;
  tool_call_count = 0;
  start_time = now;
  partial_results = [];
  termination_reason = completed;
  is_cancelled = false;
}

pub data Checked : Type 0 where
  in_budget : Checked
  exceeded : TerminationReason → Checked

unfoldable pub record_iteration : AgentExecutionContext → AgentExecutionContext
record_iteration c = record c { iteration_count = c.iteration_count + 1 }

unfoldable pub record_tool_call : AgentExecutionContext → AgentExecutionContext
record_tool_call c = record c { tool_call_count = c.tool_call_count + 1 }

unfoldable pub cancel : AgentExecutionContext → AgentExecutionContext
cancel c = record c { is_cancelled = true }

abbrev stop : TerminationReason → AgentExecutionContext → Checked × AgentExecutionContext
stop r c = (exceeded r, record c { termination_reason = r })

unfoldable pub check : ℕ → AgentExecutionContext → Checked × AgentExecutionContext
check now c =
    if c.is_cancelled
    then stop cancelled c
    else if leb c.max_iterations c.iteration_count
    then stop iteration_limit c
    else if leb c.max_tool_calls c.tool_call_count
    then stop tool_call_limit c
    else if leb (c.start_time + c.max_runtime_seconds) now
    then stop runtime_limit c
    else (in_budget, c)

unfoldable pub save_partial : String → Option String → AgentExecutionContext → AgentExecutionContext
save_partial id result c = record c { partial_results = c.partial_results ++ (id, result) ∷ [] }
