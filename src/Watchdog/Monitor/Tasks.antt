-- ===== src/Watchdog/Monitor/Tasks.antt =====
-- What one pass of the monitor does to the tasks of overdue executions.
use ai_chatbot_platform.Prelude.{
  ◌≡◌, refl, ℕ, Bool, true, false, inl, inr, some, List, [], ◌∷◌, String, str_eq, arith, Dict,
  lookup, Bool-cases, eq_iff,
}
use ai_chatbot_platform.Watchdog.{AgentExecutionContext}
use ai_chatbot_platform.Watchdog.Monitor.{
  WatchedExecution, AgentWatchdog, TaskState, active, cancelling, done, terminate, terminate_all,
  is_overdue, to_kill,
}

-- A task that is done, or that is asked to end.
abbrev pub is_ending : TaskState → Bool
is_ending active = false
is_ending cancelling = true
is_ending done = true

asked_ends :
    (s : TaskState)
    → is_ending (elim s [ active ↦ cancelling | cancelling ↦ cancelling | done ↦ done ]) ≡ true
asked_ends active = refl
asked_ends cancelling = refl
asked_ends done = refl

terminate-ending :
    (id : String) (w : AgentWatchdog) (x : WatchedExecution) (t : ℕ)
    → lookup id w.executions ≡ some x
    → x.task ≡ some t
    → is_ending ((terminate id w).tasks t) ≡ true
unfolding terminate
terminate-ending id w x t e f = ground (arith, e, f, asked_ends (w.tasks t))

terminate_kept :
    (id : String) (w : AgentWatchdog) (t : ℕ)
    → is_ending (w.tasks t) ≡ true
    → is_ending ((terminate id w).tasks t) ≡ true
unfolding terminate
terminate_kept id w t e = ground (arith, e, asked_ends (w.tasks t))

pub terminate-executions :
    (id : String) (w : AgentWatchdog) → (terminate id w).executions ≡ w.executions
unfolding terminate
terminate-executions id w = ground arith

terminate_all_kept :
    (ids : List String) (w : AgentWatchdog) (t : ℕ)
    → is_ending (w.tasks t) ≡ true
    → is_ending ((terminate_all ids w).tasks t) ≡ true
unfolding terminate_all
terminate_all_kept [] w t e = e
terminate_all_kept (id ∷ ids) w t e =
    terminate_all_kept ids (terminate id w) t (terminate_kept id w t e)

-- The task of an overdue execution among some entries is ended by the names that are collected there.
pub to_kill-ending :
    (now : ℕ) (contexts : ℕ → AgentExecutionContext) (es : Dict WatchedExecution)
    (w : AgentWatchdog) (id : String) (x : WatchedExecution) (t : ℕ)
    → lookup id es ≡ some x
    → lookup id w.executions ≡ some x
    → is_overdue now (contexts x.ctx) ≡ true
    → x.task ≡ some t
    → is_ending ((terminate_all (to_kill now contexts es) w).tasks t) ≡ true
unfolding to_kill terminate_all lookup
to_kill-ending now contexts [] w id x t e f due has = ground (arith, e)
to_kill-ending now contexts ((j, y) ∷ es) w id x t e f due has = elim (Bool-cases (str_eq j id)) [
  | inl same ↦
      let x_is : y ≡ x = ground (arith, e, same) in
      let j_is : j ≡ id = (eq_iff j id).0 same in
      let due' : is_overdue now (contexts y.ctx) ≡ true = rw x_is due in
      rw (due', to_kill)
        (terminate_all_kept (to_kill now contexts es) (terminate j w) t
          (rw j_is (terminate-ending id w x t f has)))
  | inr other ↦
      let e' : lookup id es ≡ some x = ground (arith, e, other) in
      elim (Bool-cases (is_overdue now (contexts y.ctx))) [
        | inl late ↦
            rw (late, to_kill)
              (to_kill-ending now contexts es (terminate j w) id x t e'
                (rw (terminate-executions j w) f) due has)
        | inr early ↦ rw (early, to_kill) (to_kill-ending now contexts es w id x t e' f due has)
      ]
]
