-- ===== src/Watchdog/Monitor/Tests.antt =====
-- A watchdog with two executions, one of which is overdue.
use mathlib.Core.Bool.{false≢true}
use ai_chatbot_platform.Prelude.{
  ◌≡◌, refl, ℕ, ◌*◌, eq_iff, All, not, ◌||◌, keys, Distinct, ◌⊎◌, true, false, none, some, [], ◌∷◌,
  String, lookup, put,
}
use ai_chatbot_platform.Watchdog.{
  runtime_limit, check, exceeded, cancelled, new_context, record_iteration,
}
use ai_chatbot_platform.Watchdog.Monitor.{
  WatchedExecution, AgentWatchdog, active, cancelling, Limits, limited, write, register,
  attach_task, terminate, terminate_all, to_kill, poll, monitor_pass,
}
use ai_chatbot_platform.Watchdog.Monitor.Passes.{run_out, task_ends, monitor_pass_exact}
use ai_chatbot_platform.Watchdog.Monitor.Registry.{registers, Reach, here, next}
use ai_chatbot_platform.Watchdog.Monitor.Guarded.{started}

abbrev limits : Limits
limits = record { max_iterations = 10; max_tool_calls = 20; max_runtime_seconds = 30 }

abbrev idle : AgentWatchdog
idle = record {
  executions = [];
  monitoring = false;
  contexts = λ _. new_context 0;
  fresh = 0;
  tasks = λ _. active;
}

abbrev slow : WatchedExecution
slow = record { ctx = 0; task = some 7 }

abbrev quick : WatchedExecution
quick = record { ctx = 1; task = none }

abbrev busy : AgentWatchdog
busy = record {
  executions = ("slow", slow) ∷ ("quick", quick) ∷ [];
  monitoring = true;
  contexts = λ a. limited limits (new_context (a * 20));
  fresh = 2;
  tasks = λ _. active;
}

-- The pass cancels the task of the slow execution and no other.
pass_cancels : (monitor_pass 35 busy).tasks 7 ≡ cancelling
unfolding monitor_pass poll to_kill terminate_all terminate lookup
pass_cancels = refl

pass_spares : (monitor_pass 35 busy).contexts 1 ≡ busy.contexts 1
unfolding monitor_pass poll to_kill terminate_all terminate lookup
pass_spares = refl

monitor_pass_exact_example :
    ((monitor_pass 35 busy).executions ≡ busy.executions)
    × (((run_out 35 busy 0 ≡ true)
          × ((monitor_pass 35 busy).contexts 0 ≡ record (busy.contexts 0) {
            termination_reason = runtime_limit;
            is_cancelled = true;
          })
          × ((check 40 ((monitor_pass 35 busy).contexts 0)).0 ≡ exceeded cancelled))
        ⊎ ((run_out 35 busy 0 ≡ false) × ((monitor_pass 35 busy).contexts 0 ≡ busy.contexts 0)))
    × All
        (λ e.
          (not (run_out 35 busy e.1.ctx) || task_ends e.1.task (monitor_pass 35 busy).tasks) ≡ true)
        busy.executions
monitor_pass_exact_example =
    monitor_pass_exact 35 40 busy 0 ((λ e. false≢true ((eq_iff "slow" "quick").1 e), tt), (tt, tt))

abbrev first_id : String
first_id = "a"

abbrev second_id : String
second_id = "b"

abbrev after_one : AgentWatchdog
after_one = record idle {
  executions = (first_id, record { ctx = 0; task = none }) ∷ [];
  monitoring = true;
  contexts = write 0 (limited limits (new_context 0)) (idle.contexts);
  fresh = 1;
}

abbrev after_two : AgentWatchdog
after_two = record after_one {
  executions = (first_id, record { ctx = 0; task = none }) ∷ (second_id, quick) ∷ [];
  contexts = write 1 (limited limits (new_context 5)) (after_one.contexts);
  fresh = 2;
}

two_steps : Reach idle after_two
unfolding register put
two_steps = next (next here (registers 0 first_id limits)) (registers 5 second_id limits)

abbrev works_on : ℕ → AgentWatchdog → AgentWatchdog
works_on a w = record w { contexts = write a (record_iteration (w.contexts a)) w.contexts }

three_ids : Distinct (keys (works_on 2 (started 0 "c" limits 9 busy)).executions)
unfolding started register attach_task put lookup
three_ids = (
  (λ e. false≢true ((eq_iff "slow" "quick").1 e), (λ e. false≢true ((eq_iff "slow" "c").1 e), tt)),
  ((λ e. false≢true ((eq_iff "quick" "c").1 e), tt), (tt, tt)),
)
