-- ===== src/Reliability/RetryPolicy.antt =====
-- app/reliability/retry_policy.py: retries with decorrelated jitter.
--
-- An attempt's outcome, the clock when it ends and the draw of `random.uniform` are the environment's:
-- functions of the attempt's number. Delays are in ticks. `assertion_failed` is the failure of the
-- `assert` behind the loop, which can only follow a loop of no rounds.
pub mod Attempts
mod Delays
mod Tests
use ai_chatbot_platform.Prelude.{
  ℕ, zero, suc, ◌+◌, ◌*◌, Bool, Option, none, some, List, [], ◌∷◌, ltb, min, if◌then◌else◌,
}
use ai_chatbot_platform.Reliability.FailureTracker.{
  Error, FailureTracker, record_failure, record_success,
}
use ai_chatbot_platform.Reliability.CircuitBreaker.{Outcome, returned, raised}

pub record RetryPolicy : Type 0 where
  pub max_retries : ℕ
  pub base_delay : ℕ
  pub max_delay : ℕ
  -- `isinstance(exc, retryable_exceptions)`
  pub retryable : Error → Bool
  pub tracker : FailureTracker

pub record Environment {ℓ} (A : Type ℓ) : Type ℓ where
  pub run : ℕ → Outcome A
  pub clock : ℕ → ℕ
  -- `random.uniform(low, high)` after the attempt
  pub uniform : ℕ → ℕ → ℕ → ℕ

pub data RetryResult {ℓ} (A : Type ℓ) : Type ℓ where
  result : A → RetryResult A
  reraised : Error → RetryResult A
  -- `RetryExhaustedError`, with its attempts and its last error
  retry_exhausted : ℕ → Error → RetryResult A
  assertion_failed : RetryResult A

-- What an execution leaves: its result, the tracker, and the sleeps that it made, in order.
pub record Execution {ℓ} (A : Type ℓ) : Type ℓ where
  pub outcome : RetryResult A
  pub tracker : FailureTracker
  pub sleeps : List ℕ

module _ {ℓ} {A : Type ℓ} (p : RetryPolicy) (env : Environment A) where
  exhausted : Option Error → RetryResult A
  exhausted none = assertion_failed
  exhausted (some e) = retry_exhausted (p.max_retries + 1) e

  -- `delay = min(max_delay, uniform(base_delay, delay * 3))`
  next_delay : ℕ → ℕ → ℕ
  next_delay attempt delay = min p.max_delay (env.uniform attempt p.base_delay (delay * 3))

  abbrev stop : RetryResult A → FailureTracker → Execution A
  stop r t = record { outcome = r; tracker = t; sleeps = [] }

  abbrev after_sleep : ℕ → Execution A → Execution A
  after_sleep delay x = record x { sleeps = delay ∷ x.sleeps }

  -- The rounds that are left of the `for` loop.
  rounds : ℕ → ℕ → ℕ → Option Error → FailureTracker → Execution A
  unfolding exhausted
  rounds zero attempt delay last_error t = stop (exhausted last_error) t
  rounds (suc left) attempt delay last_error t = elim (env.run attempt) [
    | returned a ↦ stop (result a) (record_success (env.clock attempt) t)
    | raised e ↦
        let t' = record_failure (env.clock attempt) e t in
        let delay' = next_delay attempt delay in
        let retry = after_sleep delay' (rounds left (attempt + 1) delay' (some e) t') in
        if p.retryable e
        then (if ltb p.max_retries attempt then stop (exhausted (some e)) t' else retry)
        else stop (reraised e) t'
  ]

  -- `range(1, max_retries + 2)` has `max_retries + 1` rounds.
  unfoldable pub execute : Execution A
  unfolding rounds next_delay
  execute = rounds (p.max_retries + 1) 1 p.base_delay none p.tracker
