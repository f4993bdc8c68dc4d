-- ===== src/Orchestrator/SafeLlm.antt =====
-- app/orchestrator/chat_orchestrator.py: `_safe_llm_ask`, the model behind a breaker, retries and a timeout.
--
-- How each `wait_for` of the model ends, the clock and the random draws are arguments. The breaker's
-- fallback is `_llm_fallback`, which returns a text.
pub mod Asks
mod Tests
use ai_chatbot_platform.Prelude.{
  ℕ, Bool, true, false, Option, none, some, List, [], ◌∷◌, String, if◌then◌else◌,
}
use ai_chatbot_platform.Reliability.FailureTracker.{Error, Text, FailureTracker}
use ai_chatbot_platform.Reliability.CircuitBreaker.{
  CircuitBreaker, Outcome, returned, raised, CallResult, done, circuit_open, admit, call,
}
use ai_chatbot_platform.Reliability.RetryPolicy
use ai_chatbot_platform.Reliability.RetryPolicy.{
  RetryPolicy, Environment, RetryResult, result, reraised, retry_exhausted, assertion_failed,
}
use ai_chatbot_platform.Reliability.TimeoutController
use ai_chatbot_platform.Reliability.TimeoutController.{TimeoutController}

-- `_llm_circuit`, `_llm_retry` and `_llm_timeout`.
pub record LlmGuards : Type 0 where
  pub circuit : CircuitBreaker
  pub retry : RetryPolicy
  pub timeout : TimeoutController
  -- the text of a `RetryExhaustedError` with its attempts and its last error
  pub exhausted_text : ℕ → Error → Text

-- One call, with the attempts that it would make of the model.
pub record Asking : Type 0 where
  pub start : ℕ
  pub end : ℕ
  pub attempts : Environment String

abbrev pub fallback_text : String
fallback_text =
    "I'm experiencing temporary difficulties connecting to my language model. Please try again in a moment."

abbrev pub circuit_open_text : String
circuit_open_text = "I'm temporarily unable to process this request. Please try again shortly."

-- `_llm_fallback`
abbrev pub llm_fallback : Option (Outcome String)
llm_fallback = some (returned fallback_text)

-- `_timed_ask`, for each attempt.
abbrev pub timed_ask : TimeoutController → Environment String → Environment String
timed_ask c env = record env { run = λ k. TimeoutController.execute c (env.run k) }

-- How the coroutine of `RetryPolicy.execute` ends.
abbrev pub ending : (ℕ → Error → Text) → RetryResult String → Outcome String
ending text (result a) = returned a
ending text (reraised e) = raised e
ending text (retry_exhausted n e) =
    raised (record { name = "RetryExhaustedError"; text = text n e })
ending text assertion_failed = raised (record { name = "AssertionError"; text = [] })

-- `_retried_ask`
unfoldable pub retried_ask : LlmGuards → Asking → RetryPolicy.Execution String
retried_ask g q = RetryPolicy.execute g.retry (timed_ask g.timeout q.attempts)

-- The `except` clauses: any other exception is raised again.
abbrev pub answered : CallResult String → Outcome String
answered (done o) = o
answered (circuit_open retry_after) = returned circuit_open_text

-- The retries run only if the breaker awaits them.
unfoldable pub safe_llm_ask : Asking → LlmGuards → LlmGuards × Outcome String
unfolding retried_ask
safe_llm_ask q g =
    let x = retried_ask g q in
    let (circuit, r) =
      call llm_fallback q.start q.end (ending g.exhausted_text x.outcome) g.circuit in
    let (_, awaited) = admit q.start g.circuit in
    let tracker = if awaited then x.tracker else g.retry.tracker in
    (record g { circuit = circuit; retry = record (g.retry) { tracker = tracker } }, answered r)

-- Calls one after the other.
unfoldable pub asks : List Asking → LlmGuards → LlmGuards × List (Outcome String)
unfolding safe_llm_ask
asks [] g = (g, [])
asks (q ∷ qs) g = let (g', a) = safe_llm_ask q g in let (g'', as') = asks qs g' in (g'', a ∷ as')
