-- ===== src/Watchdog/Monitor/Guarded.antt =====
-- What `guarded_execute` returns and leaves.
use ai_chatbot_platform.Prelude.{
  ◌≡◌, refl, ℕ, Option, none, some, String, arith, str_eq, ◌==◌, if◌then◌else◌, lookup, keys,
  Distinct, lookup-remove, lookup-put_self,
}
use ai_chatbot_platform.Watchdog.{TerminationReason, completed, runtime_limit, error, new_context}
use ai_chatbot_platform.Watchdog.Monitor.{
  WatchedExecution, AgentWatchdog, Limits, limited, register, attach_task, unregister, Ending,
  returned, cancelled_error, budget_exceeded, failed, conclude, guarded_execute,
}

-- The watchdog when the coroutine starts.
unfoldable pub started : ℕ → String → Limits → ℕ → AgentWatchdog → AgentWatchdog
started now id l task w = attach_task id task (register now id l w).0

abbrev pub value_of : {A : Type 0} → Ending A → Option A
value_of (returned v) = some v
value_of cancelled_error = none
value_of budget_exceeded = none
value_of (failed e) = none

-- The reason that is left; the budget exception keeps the one that `check` wrote.
abbrev pub reason_of : {A : Type 0} → Ending A → TerminationReason → TerminationReason
reason_of (returned v) r = completed
reason_of cancelled_error r = runtime_limit
reason_of budget_exceeded r = r
reason_of (failed e) r = error

module _ {A : Type 0} where
  conclude_value : (x : Ending A) (a : ℕ) (w : AgentWatchdog) → (conclude x a w).0 ≡ value_of x
  unfolding conclude
  conclude_value (returned v) a w = refl
  conclude_value cancelled_error a w = refl
  conclude_value budget_exceeded a w = refl
  conclude_value (failed e) a w = refl

  conclude-executions :
      (x : Ending A) (a : ℕ) (w : AgentWatchdog) → (conclude x a w).1.executions ≡ w.executions
  unfolding conclude
  conclude-executions (returned v) a w = refl
  conclude-executions cancelled_error a w = refl
  conclude-executions budget_exceeded a w = refl
  conclude-executions (failed e) a w = refl

  conclude-contexts :
      (x : Ending A) (a b : ℕ) (w : AgentWatchdog)
      → (conclude x a w).1.contexts b ≡ (
          if b == a
          then record (w.contexts a) {
            termination_reason = reason_of x (w.contexts a).termination_reason;
          }
          else w.contexts b)
  unfolding conclude
  conclude-contexts (returned v) a b w = refl
  conclude-contexts cancelled_error a b w = refl
  conclude-contexts budget_exceeded a b w = ground arith
  conclude-contexts (failed e) a b w = refl

attach_task_known :
    (id : String) (task : ℕ) (x : WatchedExecution) (w : AgentWatchdog)
    → lookup id w.executions ≡ some x
    → lookup id (attach_task id task w).executions ≡ some (record x { task = some task })
unfolding attach_task
attach_task_known id task x w e =
    ground (arith, e, lookup-put_self id (record x { task = some task }) w.executions)

register-entry :
    (now : ℕ) (id : String) (l : Limits) (w : AgentWatchdog)
    → lookup id (register now id l w).0.executions ≡ some (record { ctx = w.fresh; task = none })
unfolding register
register-entry now id l w = lookup-put_self id (record { ctx = w.fresh; task = none }) w.executions

started-entry :
    (now : ℕ) (id : String) (l : Limits) (task : ℕ) (w : AgentWatchdog)
    → lookup id (started now id l task w).executions
      ≡ some (record { ctx = w.fresh; task = some task })
unfolding started
started-entry now id l task w =
    attach_task_known id task (record { ctx = w.fresh; task = none }) (register now id l w).0
      (register-entry now id l w)

attach_task-contexts :
    (id : String) (task : ℕ) (w : AgentWatchdog) → (attach_task id task w).contexts ≡ w.contexts
unfolding attach_task
attach_task-contexts id task w = ground arith

fresh_context :
    (now : ℕ) (id : String) (l : Limits) (w : AgentWatchdog)
    → (register now id l w).0.contexts w.fresh ≡ limited l (new_context now)
unfolding register
fresh_context now id l w = ground arith

started_context :
    (now : ℕ) (id : String) (l : Limits) (task : ℕ) (w : AgentWatchdog)
    → (started now id l task w).contexts w.fresh ≡ limited l (new_context now)
unfolding started
started_context now id l task w =
    rw (attach_task-contexts id task (register now id l w).0) (fresh_context now id l w)

-- While the coroutine runs its execution is registered, with its task and with a context of its limits,
-- in which nothing is counted. Whatever everyone does meanwhile, so long as no key stands twice, a value
-- is returned exactly if the coroutine returns it; at the end the id is registered no more, each other
-- id is as it was left, the reason of the context tells how the coroutine ended, and nothing else of
-- any context is changed.
pub guarded_execute_exact :
    {A : Type 0} (now : ℕ) (id : String) (l : Limits) (task : ℕ)
    (during : ℕ → AgentWatchdog → AgentWatchdog) (x : Ending A) (w : AgentWatchdog) (j : String)
    (b : ℕ)
    → Distinct (keys (during w.fresh (started now id l task w)).executions)
    → (lookup id (started now id l task w).executions
        ≡ some (record { ctx = w.fresh; task = some task }))
      × ((started now id l task w).contexts w.fresh ≡ limited l (new_context now))
      × ((guarded_execute now id l task during x w).0 ≡ (value_of x, w.fresh))
      × (lookup j (guarded_execute now id l task during x w).1.executions ≡ (
          if str_eq id j
          then none
          else lookup j (during w.fresh (started now id l task w)).executions))
      × ((guarded_execute now id l task during x w).1.contexts b ≡ (
          let left = during w.fresh (started now id l task w) in
          if b == w.fresh
          then record (left.contexts w.fresh) {
            termination_reason = reason_of x (left.contexts w.fresh).termination_reason;
          }
          else left.contexts b))
unfolding guarded_execute unregister started register
guarded_execute_exact now id l task during x w j b d =
    let left = during w.fresh (started now id l task w) in
    (
      started-entry now id l task w,
      started_context now id l task w,
      rw (conclude_value x w.fresh left) refl,
      rw (conclude-executions x w.fresh left) (lookup-remove id j left.executions d),
      conclude-contexts x w.fresh b left,
    )
