-- ===== src/Llm/FallbackProvider.antt =====
-- app/llm/providers/fallback_provider.py: one provider after another, each behind its own breaker.
--
-- A provider is known by a name, and `providers` is the primary followed by the fallbacks: the code
-- treats all of them alike. What the providers answer and the clock are the environment's, by the
-- position of the provider; `time.time()` is read where a breaker is asked and where a call has failed.
mod Breaker
mod Failover
mod Tests
use ai_chatbot_platform.Prelude.{
  ℕ, zero, suc, ◌+◌, Bool, true, false, Option, none, some, List, [], ◌∷◌, ◌++◌, String, ltb, leb,
  if◌then◌else◌, Dict, lookup, put,
}
use ai_chatbot_platform.Reliability.FailureTracker.{Error}
use ai_chatbot_platform.Reliability.CircuitBreaker.{Outcome, returned, raised}

pub data BreakerState : Type 0 where
  closed opened half_open : BreakerState

pub record ProviderBreaker : Type 0 where
  pub failure_threshold : ℕ
  pub recovery_timeout : ℕ
  pub failure_count : ℕ
  pub last_failure_time : ℕ
  pub state : BreakerState

pub new_breaker : ℕ → ℕ → ProviderBreaker
new_breaker threshold timeout = record {
  failure_threshold = threshold;
  recovery_timeout = timeout;
  failure_count = 0;
  last_failure_time = 0;
  state = closed;
}

-- `time.time() - last_failure_time > recovery_timeout`
abbrev pub recovered : ℕ → ProviderBreaker → Bool
recovered now b = ltb (b.last_failure_time + b.recovery_timeout) now

unfoldable pub is_available : ℕ → ProviderBreaker → ProviderBreaker × Bool
is_available now b = elim b.state [
  | closed ↦ (b, true)
  | half_open ↦ (b, true)
  | opened ↦ if recovered now b then (record b { state = half_open }, true) else (b, false)
]

unfoldable pub provider_success : ProviderBreaker → ProviderBreaker
provider_success b = record b { failure_count = 0; state = closed }

unfoldable pub provider_failure : ℕ → ProviderBreaker → ProviderBreaker
provider_failure now b =
    let counted = record b { failure_count = b.failure_count + 1; last_failure_time = now } in
    if leb b.failure_threshold counted.failure_count
    then record counted { state = opened }
    else counted

-- `chunks` with no error is a stream that ends well.
pub record Stream : Type 0 where
  pub chunks : List String
  pub failure : Option Error

pub record Providers : Type 0 where
  pub answer : ℕ → String → Outcome String
  pub stream : ℕ → String → Stream
  pub asked_at : ℕ → ℕ
  pub failed_at : ℕ → ℕ

abbrev pub Breakers : Type 0
Breakers = Dict ProviderBreaker

pub data Reply : Type 0 where
  replied : String → Reply
  -- the `RuntimeError`, and the `KeyError` of a provider with no breaker
  all_unavailable no_breaker : Reply

unfoldable pub ask_each : Providers → ℕ → List String → Breakers → Reply × Breakers
unfolding is_available provider_success provider_failure
ask_each e i [] bs = (all_unavailable, bs)
ask_each e i (p ∷ ps) bs = elim (lookup p bs) [
  | none ↦ (no_breaker, bs)
  | some b ↦
      let (b', available) = is_available (e.asked_at i) b in
      let skipped = ask_each e (suc i) ps (put p b' bs) in
      let failed = ask_each e (suc i) ps (put p (provider_failure (e.failed_at i) b') bs) in
      if available
      then elim (e.answer i p) [
        | returned text ↦ (replied text, put p (provider_success b') bs)
        | raised x ↦ failed
      ]
      else skipped
]

-- `ask`, on the primary and the fallbacks.
unfoldable pub ask : Providers → String → List String → Breakers → Reply × Breakers
unfolding ask_each
ask e primary fallbacks bs = ask_each e 0 (primary ∷ fallbacks) bs

abbrev pub error_chunk : String
error_chunk = "\n[ERROR] All LLM providers failed or are suspended."

-- The chunks that are yielded; `none` is the `KeyError`.
unfoldable pub stream_each :
    Providers → ℕ → List String → Breakers → Option (List String) × Breakers
unfolding is_available provider_success provider_failure
stream_each e i [] bs = (some (error_chunk ∷ []), bs)
stream_each e i (p ∷ ps) bs = elim (lookup p bs) [
  | none ↦ (none, bs)
  | some b ↦
      let (b', available) = is_available (e.asked_at i) b in
      let skipped = stream_each e (suc i) ps (put p b' bs) in
      let (later, bs') =
        stream_each e (suc i) ps (put p (provider_failure (e.failed_at i) b') bs) in
      let s = e.stream i p in
      if available
      then elim s.failure [
        | none ↦ (some s.chunks, put p (provider_success b') bs)
        | some x ↦ (elim later [ none ↦ none | some cs ↦ some (s.chunks ++ cs) ], bs')
      ]
      else skipped
]

unfoldable pub ask_stream :
    Providers → String → List String → Breakers → Option (List String) × Breakers
unfolding stream_each
ask_stream e primary fallbacks bs = stream_each e 0 (primary ∷ fallbacks) bs
