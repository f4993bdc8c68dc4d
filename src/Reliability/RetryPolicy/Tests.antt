-- ===== src/Reliability/RetryPolicy/Tests.antt =====
-- An execution that fails twice and then succeeds, and one that is exhausted.
use ai_chatbot_platform.Prelude.{ℕ, ◌≡◌, refl, [], ◌∷◌, ltb, if◌then◌else◌, str_eq}
use ai_chatbot_platform.Reliability.FailureTracker.{Error}
use ai_chatbot_platform.Reliability.CircuitBreaker.{returned, raised}
use ai_chatbot_platform.Reliability.RetryPolicy.{
  RetryPolicy, Environment, result, retry_exhausted, execute, next_delay,
}
use ai_chatbot_platform.Reliability.RetryPolicy.Attempts.{Follows, execute-Follows}

abbrev policy : RetryPolicy
policy = record {
  max_retries = 3;
  base_delay = 10;
  max_delay = 100;
  retryable = λ e. str_eq e.name "ConnectionError";
  tracker = record {
    window_seconds = 60;
    max_records = 1000;
    failures = [];
    success_timestamps = [];
    total_failures = 0;
    total_successes = 0;
  };
}

abbrev lost : Error
lost = record { name = "ConnectionError"; text = [] }

-- The first attempts before `n` fail; the draws are the upper bounds.
abbrev fails_before : ℕ → Environment ℕ
fails_before n = record {
  run = λ i. if ltb i n then raised lost else returned 7;
  clock = λ i. i;
  uniform = λ i low high. high;
}

third_succeeds :
    ((execute policy (fails_before 3)).outcome ≡ result 7)
    × ((execute policy (fails_before 3)).sleeps ≡ 30 ∷ 90 ∷ [])
unfolding execute next_delay
third_succeeds = (refl, refl)

never_succeeds :
    ((execute policy (fails_before 9)).outcome ≡ retry_exhausted 4 lost)
    × ((execute policy (fails_before 9)).sleeps ≡ 30 ∷ 90 ∷ 100 ∷ [])
unfolding execute next_delay
never_succeeds = (refl, refl)

execute-Follows_example :
    (n m : ℕ) × Follows policy
      (fails_before 3)
      1
      n
      m
      policy.tracker
      (execute policy (fails_before 3))
execute-Follows_example = execute-Follows policy (fails_before 3)
