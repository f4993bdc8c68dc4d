-- ===== src/Orchestrator/AgentLoop/Endings.antt =====
-- What `_execute_agent_loop` answers, however the run of the agents ends.
use ai_chatbot_platform.Prelude.{
  ◌≡◌, refl, ap, ◌∙◌, ℕ, Option, none, some, List, [], false, String, str_eq, if◌then◌else◌, eq_iff,
  arith, lookup, keys, Distinct,
}
use ai_chatbot_platform.Watchdog.{AgentExecutionContext}
use ai_chatbot_platform.Watchdog.Monitor.{AgentWatchdog, Limits, Ending, guarded_execute}
use ai_chatbot_platform.Watchdog.Monitor.Guarded.{started, value_of, guarded_execute_exact}
use ai_chatbot_platform.Orchestrator.AgentLoop.{
  Agents, Looped, degraded, or_degraded, execute_agent_loop,
}

or_degraded_reason :
    (a : Agents) (o : Option Looped) (c d : AgentExecutionContext)
    → c.partial_results ≡ d.partial_results
    → or_degraded a o c ≡ or_degraded a o d
or_degraded_reason a none c d h = ap (λ ps. degraded a (record c { partial_results = ps })) h
or_degraded_reason a (some run) c d h = refl

-- The answer of a loop whose run returned it, or that has only partial results.
abbrev pub answer_from : Agents → Option Looped → List (String × Option String) → Looped
answer_from a (some run) partial = run
answer_from a none partial = record {
  answer =
      if str_eq (a.join_results partial) ""
      then "I was unable to complete the full analysis within the time budget."
      else a.join_results partial;
  hallucinations_detected = false;
  steps = 0;
  used_versions = [];
}

or_degraded_lem :
    (a : Agents) (o : Option Looped) (c : AgentExecutionContext)
    → or_degraded a o c ≡ answer_from a o c.partial_results
or_degraded_lem a none c = refl
or_degraded_lem a (some run) c = refl

-- Whatever everyone does while the agents run, so long as no key stands twice, the loop answers: with the
-- run's answer if the run returns one; and else, on a cancellation, an exceeded budget or any exception,
-- with the partial results of its context joined, or with a fixed text if that is empty, and then with no
-- steps, no versions and no hallucination noted. Its id is registered no more.
pub execute_agent_loop-answer :
    (a : Agents) (now : ℕ) (id : String) (limits : Limits) (task : ℕ)
    (during : ℕ → AgentWatchdog → AgentWatchdog) (x : Ending Looped) (w : AgentWatchdog)
    → Distinct (keys (during w.fresh (started now id limits task w)).executions)
    → ((execute_agent_loop a now id limits task during x w).0
        ≡ answer_from a
            (value_of x)
            ((during w.fresh (started now id limits task w)).contexts w.fresh).partial_results)
      × (lookup id (execute_agent_loop a now id limits task during x w).1.executions ≡ none)
unfolding execute_agent_loop
execute_agent_loop-answer a now id limits task during x w d =
    let (_, _, r, gone, ctx) = guarded_execute_exact now id limits task during x w id w.fresh d in
    let left = during w.fresh (started now id limits task w) in
    (
      ap (λ q. or_degraded a q.0 ((guarded_execute now id limits task during x w).1.contexts q.1)) r
          ∙ or_degraded_reason a (value_of x) _ (left.contexts w.fresh)
              (ap (λ c. c.partial_results) ctx ∙ ground arith)
          ∙ or_degraded_lem a (value_of x) (left.contexts w.fresh),
      gone ∙ ground (arith, eq_iff id id),
    )
