-- ===== src/Watchdog/Monitor.antt =====
-- app/orchestrator/watchdog.py: `AgentWatchdog`, which ends overdue executions.
--
-- A context is shared by the watchdog and the code that registered it, so contexts stand in a store and
-- are held by their addresses; tasks have numbers too. The event loop is running, so that
-- `_ensure_monitor_running` always leaves a monitor. The telemetry is left out.
mod Registry
mod Tasks
mod Passes
pub mod Guarded
mod Tests
use ai_chatbot_platform.Prelude.{
  ℕ, ◌+◌, Bool, true, false, Option, none, some, List, [], ◌∷◌, String, leb, ◌==◌, if◌then◌else◌,
  Dict, lookup, put, remove,
}
use ai_chatbot_platform.Reliability.FailureTracker.{Error}
use ai_chatbot_platform.Watchdog.{
  AgentExecutionContext, TerminationReason, completed, runtime_limit, error, new_context, cancel,
}

pub record WatchedExecution : Type 0 where
  pub ctx : ℕ
  pub task : Option ℕ

pub data TaskState : Type 0 where
  active cancelling done : TaskState

pub record AgentWatchdog : Type 0 where
  pub executions : Dict WatchedExecution
  pub monitoring : Bool
  pub contexts : ℕ → AgentExecutionContext
  -- the address of the next context
  pub fresh : ℕ
  pub tasks : ℕ → TaskState

abbrev pub write : {A : Type 0} → ℕ → A → (ℕ → A) → ℕ → A
write a v store b = if b == a then v else store b

-- The limits that the caller gives.
pub record Limits : Type 0 where
  pub max_iterations : ℕ
  pub max_tool_calls : ℕ
  pub max_runtime_seconds : ℕ

abbrev pub limited : Limits → AgentExecutionContext → AgentExecutionContext
limited l c = record c {
  max_iterations = l.max_iterations;
  max_tool_calls = l.max_tool_calls;
  max_runtime_seconds = l.max_runtime_seconds;
}

unfoldable pub register : ℕ → String → Limits → AgentWatchdog → AgentWatchdog × ℕ
register now id l w = (
  record w {
    executions = put id (record { ctx = w.fresh; task = none }) w.executions;
    monitoring = true;
    contexts = write (w.fresh) (limited l (new_context now)) w.contexts;
    fresh = w.fresh + 1;
  },
  w.fresh,
)

unfoldable pub attach_task : String → ℕ → AgentWatchdog → AgentWatchdog
attach_task id task w = elim (lookup id w.executions) [
  | none ↦ w
  | some x ↦ record w { executions = put id (record x { task = some task }) w.executions }
]

abbrev ctx_of : Option WatchedExecution → Option ℕ
ctx_of none = none
ctx_of (some x) = some x.ctx

unfoldable pub unregister : String → AgentWatchdog → AgentWatchdog × Option ℕ
unregister id w =
    (record w { executions = remove id w.executions }, ctx_of (lookup id w.executions))

-- `if watched.task and not watched.task.done(): watched.task.cancel()`
abbrev pub cancel_task : Option ℕ → (ℕ → TaskState) → ℕ → TaskState
cancel_task none tasks = tasks
cancel_task (some t) tasks =
    write t (elim (tasks t) [ active ↦ cancelling | cancelling ↦ cancelling | done ↦ done ]) tasks

-- What `_terminate` makes of a context.
unfoldable pub overdue : AgentExecutionContext → AgentExecutionContext
unfolding cancel
overdue c = cancel (record c { termination_reason = runtime_limit })

unfoldable pub terminate : String → AgentWatchdog → AgentWatchdog
terminate id w = elim (lookup id w.executions) [
  | none ↦ w
  | some x ↦ record w {
    contexts = write (x.ctx) (overdue (w.contexts x.ctx)) w.contexts;
    tasks = cancel_task (x.task) w.tasks;
  }
]

unfoldable pub terminate_all : List String → AgentWatchdog → AgentWatchdog
terminate_all [] w = w
terminate_all (id ∷ ids) w = terminate_all ids (terminate id w)

-- `ctx.elapsed_seconds >= ctx.max_runtime_seconds`
abbrev pub is_overdue : ℕ → AgentExecutionContext → Bool
is_overdue now c = leb (c.start_time + c.max_runtime_seconds) now

-- `to_kill`, over some entries of the executions.
unfoldable pub to_kill : ℕ → (ℕ → AgentExecutionContext) → Dict WatchedExecution → List String
to_kill now contexts [] = []
to_kill now contexts ((id, x) ∷ rest) =
    let later = to_kill now contexts rest in
    if is_overdue now (contexts x.ctx) then id ∷ later else later

-- One round of the `while self._executions` loop of `_monitor_loop`: the loop exits where there are no
-- executions.
unfoldable pub poll : ℕ → Dict WatchedExecution → AgentWatchdog → AgentWatchdog
poll now [] w = record w { monitoring = false }
poll now (x ∷ xs) w = terminate_all (to_kill now w.contexts (x ∷ xs)) w

unfoldable pub monitor_pass : ℕ → AgentWatchdog → AgentWatchdog
unfolding poll
monitor_pass now w = poll now w.executions w

abbrev ids_of : Dict WatchedExecution → List String
ids_of [] = []
ids_of ((id, x) ∷ rest) = id ∷ ids_of rest

unfoldable pub shutdown : AgentWatchdog → AgentWatchdog
shutdown w = record (terminate_all (ids_of w.executions) w) { executions = []; monitoring = false }

-- How the wrapped coroutine ends.
pub data Ending (A : Type 0) : Type 0 where
  returned : A → Ending A
  cancelled_error budget_exceeded : Ending A
  failed : Error → Ending A

abbrev set_reason : ℕ → TerminationReason → AgentWatchdog → AgentWatchdog
set_reason a r w = record w {
  contexts = write a (record (w.contexts a) { termination_reason = r }) w.contexts;
}

-- The `except` clauses.
unfoldable pub conclude : {A : Type 0} → Ending A → ℕ → AgentWatchdog → Option A × AgentWatchdog
conclude (returned v) a w = (some v, set_reason a completed w)
conclude cancelled_error a w = (none, set_reason a runtime_limit w)
conclude budget_exceeded a w = (none, w)
conclude (failed e) a w = (none, set_reason a error w)

-- `guarded_execute` in a task: `during` is what everyone does while the coroutine runs, from the address
-- of its context on, and `ending` is how it ends.
unfoldable pub guarded_execute :
    {A : Type 0}
    → ℕ
    → String
    → Limits
    → ℕ
    → (ℕ → AgentWatchdog → AgentWatchdog)
    → Ending A
    → AgentWatchdog
    → (Option A × ℕ) × AgentWatchdog
unfolding register attach_task unregister conclude
guarded_execute now id l task during ending w =
    let (w', a) = register now id l w in
    let (r, w'') = conclude ending a (during a (attach_task id task w')) in
    ((r, a), (unregister id w'').0)
