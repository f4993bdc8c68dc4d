-- ===== src/Orchestrator/SafeLlm/Tests.antt =====
-- A model that is down for two calls with two attempts each.
use ai_chatbot_platform.Prelude.{
  ◌≡◌, refl, ℕ, ◌+◌, true, false, ◌⊎◌, List, [], ◌∷◌, arith, String, append_bounded,
}
use ai_chatbot_platform.Reliability.FailureTracker
use ai_chatbot_platform.Reliability.FailureTracker.{
  Error, FailureTracker, record_failure, make_record, get_stats,
}
use ai_chatbot_platform.Reliability.CircuitBreaker.{returned, raised, opened, init, admit, call}
use ai_chatbot_platform.Reliability.RetryPolicy
use ai_chatbot_platform.Reliability.RetryPolicy.{Environment}
use ai_chatbot_platform.Orchestrator.SafeLlm.{
  LlmGuards, Asking, fallback_text, asks, safe_llm_ask, retried_ask,
}
use ai_chatbot_platform.Orchestrator.SafeLlm.Asks.{Awaited, safe_llm_ask_cases, asks_outage}

abbrev down_error : Error
down_error = record { name = "ConnectionError"; text = [] }

abbrev down : Environment String
down = record { run = λ k. raised down_error; clock = λ k. k; uniform = λ k low high. low }

abbrev asking : ℕ → Asking
asking start = record { start = start; end = start + 1; attempts = down }

abbrev guards : LlmGuards
guards = record {
  circuit = init 2 30 1 (FailureTracker.init 60 100);
  retry = record {
    max_retries = 1;
    base_delay = 1;
    max_delay = 15;
    retryable = λ e. true;
    tracker = FailureTracker.init 60 100;
  };
  timeout = record {
    is_builtin_timeout = λ e. false;
    is_timeout = λ e. false;
    timeout_error = down_error;
  };
  exhausted_text = λ n e. [];
}

safe_llm_ask_cases_example :
    (((admit 3 guards.circuit).1 ≡ false)
      × (safe_llm_ask (asking 3) guards
          ≡ (record guards { circuit = (admit 3 guards.circuit).0 }, returned fallback_text)))
    ⊎ (((admit 3 guards.circuit).1 ≡ true) × Awaited (asking 3) guards)
safe_llm_ask_cases_example = safe_llm_ask_cases (asking 3) guards

abbrev two_asks : List Asking
two_asks = asking 1 ∷ asking 5 ∷ []

opened_at_six : (asks two_asks guards).0.circuit.opened_at ≡ 6
unfolding asks safe_llm_ask retried_ask record_failure call RetryPolicy.execute init
    FailureTracker.init make_record append_bounded get_stats
opened_at_six = refl

recovers_after_thirty : (asks two_asks guards).0.circuit.recovery_timeout ≡ 30
unfolding asks safe_llm_ask retried_ask record_failure call RetryPolicy.execute init
    FailureTracker.init make_record append_bounded get_stats
recovers_after_thirty = refl

asks_outage_example :
    ((asks two_asks guards).0.circuit.state ≡ opened)
    × (safe_llm_ask (asking 7) (asks two_asks guards).0
        ≡ ((asks two_asks guards).0, returned fallback_text))
asks_outage_example =
    asks_outage 0 2 30 1 60 100 two_asks (asking 7) guards refl (omega arith) (omega arith) refl
      (
        (λ k. (down_error, refl)),
        omega arith,
        omega arith,
        ((λ k. (down_error, refl)), omega arith, omega arith, tt),
      )
      (omega (arith, opened_at_six, recovers_after_thirty))
