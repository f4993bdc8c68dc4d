-- ===== src/Watchdog/Monitor/Passes.antt =====
-- What one pass of the monitor does to every context.
use ai_chatbot_platform.Prelude.{
  ◌≡◌, refl, sym, ◌∙◌, ℕ, Bool, true, false, ◌&&◌, ◌||◌, ◌⊎◌, inl, inr, none, some, List, [], ◌∷◌,
  String, arith, ◌==◌, leb, ◌+◌, if◌then◌else◌, Dict, lookup, keys, Distinct, lookup_entries, All,
  Bool-cases, Option-cases, Option, not,
}
use ai_chatbot_platform.Watchdog.{
  AgentExecutionContext, cancel, check, exceeded, cancelled, runtime_limit,
}
use ai_chatbot_platform.Watchdog.Monitor.Tasks.{is_ending, terminate-executions, to_kill-ending}
use ai_chatbot_platform.Watchdog.Monitor.{
  WatchedExecution, AgentWatchdog, TaskState, overdue, terminate, terminate_all, is_overdue,
  to_kill, poll, monitor_pass,
}

names : Dict WatchedExecution → ℕ → String → Bool
names d a id = elim (lookup id d) [ none ↦ false | some x ↦ x.ctx == a ]

any_names : Dict WatchedExecution → ℕ → List String → Bool
any_names d a [] = false
any_names d a (id ∷ ids) = names d a id || any_names d a ids

-- Whether an execution with a context is registered.
abbrev pub watches : Dict WatchedExecution → ℕ → Bool
watches [] a = false
watches ((id, x) ∷ rest) a = (x.ctx == a) || watches rest a

terminate_lem :
    (id : String) (w : AgentWatchdog) (a : ℕ)
    → (terminate id w).contexts a
      ≡ (if names w.executions a id then overdue (w.contexts a) else w.contexts a)
unfolding terminate names
terminate_lem id w a = ground arith

terminate-fresh : (id : String) (w : AgentWatchdog) → (terminate id w).fresh ≡ w.fresh
unfolding terminate
terminate-fresh id w = ground arith

terminate_all-fresh :
    (ids : List String) (w : AgentWatchdog) → (terminate_all ids w).fresh ≡ w.fresh
unfolding terminate_all
terminate_all-fresh [] w = refl
terminate_all-fresh (id ∷ ids) w = terminate_all-fresh ids (terminate id w) ∙ terminate-fresh id w

overdue_twice : (c : AgentExecutionContext) → overdue (overdue c) ≡ overdue c
unfolding overdue cancel
overdue_twice c = refl

twice :
    (p q : Bool) (c : AgentExecutionContext)
    → (if q then overdue (if p then overdue c else c) else (if p then overdue c else c))
      ≡ (if p || q then overdue c else c)
twice true true c = overdue_twice c
twice true false c = refl
twice false true c = refl
twice false false c = refl

terminate_all-executions :
    (ids : List String) (w : AgentWatchdog) → (terminate_all ids w).executions ≡ w.executions
unfolding terminate_all
terminate_all-executions [] w = refl
terminate_all-executions (id ∷ ids) w =
    terminate_all-executions ids (terminate id w) ∙ terminate-executions id w

terminate_all_lem :
    (ids : List String) (w : AgentWatchdog) (a : ℕ)
    → (terminate_all ids w).contexts a
      ≡ (if any_names w.executions a ids then overdue (w.contexts a) else w.contexts a)
unfolding terminate_all any_names
terminate_all_lem [] w a = refl
terminate_all_lem (id ∷ ids) w a =
    rw (terminate_all_lem ids (terminate id w) a, terminate-executions id w, terminate_lem id w a)
      (twice (names w.executions a id) (any_names w.executions a ids) (w.contexts a))

names-to_kill :
    (now : ℕ) (contexts : ℕ → AgentExecutionContext) (d es : Dict WatchedExecution) (a : ℕ)
    → All (λ e. lookup e.0 d ≡ some e.1) es
    → any_names d a (to_kill now contexts es) ≡ (watches es a && is_overdue now (contexts a))
unfolding any_names to_kill names
names-to_kill now contexts d [] a h = refl
names-to_kill now contexts d ((id, x) ∷ es) a h =
    ground (arith, h.0, names-to_kill now contexts d es a h.1)

pub poll-executions :
    (now : ℕ) (es : Dict WatchedExecution) (w : AgentWatchdog)
    → (poll now es w).executions ≡ w.executions
unfolding poll
poll-executions now [] w = refl
poll-executions now (x ∷ xs) w = terminate_all-executions (to_kill now w.contexts (x ∷ xs)) w

pub poll-fresh :
    (now : ℕ) (es : Dict WatchedExecution) (w : AgentWatchdog) → (poll now es w).fresh ≡ w.fresh
unfolding poll
poll-fresh now [] w = refl
poll-fresh now (x ∷ xs) w = terminate_all-fresh (to_kill now w.contexts (x ∷ xs)) w

poll_lem :
    (now : ℕ) (es : Dict WatchedExecution) (w : AgentWatchdog) (a : ℕ)
    → All (λ e. lookup e.0 w.executions ≡ some e.1) es
    → (poll now es w).contexts a ≡ (
        if watches es a && is_overdue now (w.contexts a)
        then overdue (w.contexts a)
        else w.contexts a)
unfolding poll
poll_lem now [] w a h = refl
poll_lem now (x ∷ xs) w a h =
    rw
      (
        terminate_all_lem (to_kill now w.contexts (x ∷ xs)) w a,
        names-to_kill now w.contexts w.executions (x ∷ xs) a h,
      )
      refl

check-overdue :
    (later : ℕ) (c : AgentExecutionContext) → (check later (overdue c)).0 ≡ exceeded cancelled
unfolding check overdue cancel
check-overdue later c = refl

-- Whether an execution with the context is registered, and its run time is used up.
abbrev pub run_out : ℕ → AgentWatchdog → ℕ → Bool
run_out now w a =
    watches w.executions a
    && leb ((w.contexts a).start_time + (w.contexts a).max_runtime_seconds) now

poll-ending :
    (now : ℕ) (es : Dict WatchedExecution) (w : AgentWatchdog) (id : String) (x : WatchedExecution)
    (t : ℕ)
    → es ≡ w.executions
    → lookup id es ≡ some x
    → is_overdue now (w.contexts x.ctx) ≡ true
    → x.task ≡ some t
    → is_ending ((poll now es w).tasks t) ≡ true
unfolding poll lookup
poll-ending now [] w id x t q e due has = ground (arith, e)
poll-ending now (y ∷ ys) w id x t q e due has =
    to_kill-ending now w.contexts (y ∷ ys) w id x t e (rw (sym q) e) due has

-- The task of an execution, if it has one, is done or asked to end.
abbrev pub task_ends : Option ℕ → (ℕ → TaskState) → Bool
task_ends none tasks = true
task_ends (some t) tasks = is_ending (tasks t)

poll_task :
    (now : ℕ) (w : AgentWatchdog) (id : String) (x : WatchedExecution)
    → lookup id w.executions ≡ some x
    → (not (run_out now w x.ctx) || task_ends x.task (poll now w.executions w).tasks) ≡ true
poll_task now w id x e = elim (Bool-cases (run_out now w x.ctx)) [
  | inr spared ↦ ground (arith, spared)
  | inl hit ↦ elim (Option-cases x.task) [
    | inl none' ↦ rw none' (ground (arith, hit))
    | inr (t, has) ↦
        let ends = poll-ending now w.executions w id x t refl e (ground (arith, hit)) has in
        rw has (ground (arith, hit, ends))
  ]
]

poll-tasks :
    (now : ℕ) (w : AgentWatchdog) (es : Dict WatchedExecution)
    → All (λ e. lookup e.0 w.executions ≡ some e.1) es
    → All
        (λ e.
          (not (run_out now w e.1.ctx) || task_ends e.1.task (poll now w.executions w).tasks)
          ≡ true)
        es
poll-tasks now w [] h = tt
poll-tasks now w ((id, x) ∷ es) h = (poll_task now w id x h.0, poll-tasks now w es h.1)

-- One pass of the monitor leaves the executions registered. It sets the reason `runtime_limit` and the
-- mark of cancellation in exactly the contexts of registered executions whose run time has reached its
-- limit, whatever their counters are, and changes nothing else in these and no other context; from then
-- on `check` stops a marked execution as cancelled. The task of such an execution, if it
-- has one, is then done or asked to end.
pub monitor_pass_exact :
    (now later : ℕ) (w : AgentWatchdog) (a : ℕ)
    → Distinct (keys w.executions)
    → ((monitor_pass now w).executions ≡ w.executions)
      × (((run_out now w a ≡ true)
            × ((monitor_pass now w).contexts a
                ≡ record (w.contexts a) { termination_reason = runtime_limit; is_cancelled = true })
            × ((check later ((monitor_pass now w).contexts a)).0 ≡ exceeded cancelled))
          ⊎ ((run_out now w a ≡ false) × ((monitor_pass now w).contexts a ≡ w.contexts a)))
      × All
          (λ e.
            (not (run_out now w e.1.ctx) || task_ends e.1.task (monitor_pass now w).tasks) ≡ true)
          w.executions
unfolding monitor_pass overdue cancel
monitor_pass_exact now later w a d =
    let contexts = poll_lem now w.executions w a (lookup_entries w.executions d) in
    (
      poll-executions now w.executions w,
      elim (Bool-cases (run_out now w a)) [
        | inl hit ↦
            inl (
              hit,
              rw (contexts, hit) refl,
              rw (contexts, hit) (check-overdue later (w.contexts a)),
            )
        | inr no' ↦ inr (no', rw (contexts, no') refl)
      ],
      poll-tasks now w w.executions (lookup_entries w.executions d),
    )
