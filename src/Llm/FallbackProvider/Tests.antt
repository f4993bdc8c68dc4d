-- ===== src/Llm/FallbackProvider/Tests.antt =====
-- A primary that breaks off and a fallback that answers.
use mathlib.Core.Bool.{false≢true}
use ai_chatbot_platform.Prelude.{
  ◌≡◌, refl, ℕ, zero, suc, none, some, [], ◌∷◌, String, eq_iff, lookup, put, Distinct,
}
use ai_chatbot_platform.Reliability.FailureTracker.{Error}
use ai_chatbot_platform.Reliability.CircuitBreaker.{Outcome, returned, raised}
use ai_chatbot_platform.Llm.FallbackProvider.{
  closed, ProviderBreaker, is_available, provider_success, provider_failure, Stream, Providers,
  Breakers, ask, ask_stream, stream_each,
}
use ai_chatbot_platform.Llm.FallbackProvider.Failover.{
  candidates, first_returned, HasBreakers, ask_first,
}

abbrev failing : Error
failing = record { name = "ConnectionError"; text = [] }

abbrev fresh_breaker : ProviderBreaker
fresh_breaker = record {
  failure_threshold = 3;
  recovery_timeout = 60;
  failure_count = 0;
  last_failure_time = 0;
  state = closed;
}

abbrev breakers : Breakers
breakers = ("primary", fresh_breaker) ∷ ("local", fresh_breaker) ∷ []

abbrev answers : ℕ → String → Outcome String
answers zero p = raised failing
answers (suc i) p = returned "hello"

abbrev streams : ℕ → String → Stream
streams zero p = record { chunks = "he" ∷ []; failure = some failing }
streams (suc i) p = record { chunks = "hel" ∷ "lo" ∷ []; failure = none }

abbrev providers : Providers
providers = record { answer = answers; stream = streams; asked_at = λ i. 100; failed_at = λ i. 101 }

-- What the primary yielded before it failed stays in front of the whole answer of the fallback.
stream_repeats :
    (ask_stream providers "primary" ("local" ∷ []) breakers).0 ≡ some ("he" ∷ "hel" ∷ "lo" ∷ [])
unfolding ask_stream stream_each is_available lookup put provider_failure provider_success
stream_repeats = refl

two_providers : Distinct ("primary" ∷ "local" ∷ [])
two_providers = ((λ e. false≢true ((eq_iff "primary" "local").1 e), tt), (tt, tt))

two_breakers : HasBreakers ("primary" ∷ "local" ∷ []) breakers
unfolding lookup
two_breakers = ((fresh_breaker, refl), ((fresh_breaker, refl), tt))

ask_first_example :
    (ask providers "primary" ("local" ∷ []) breakers).0
    ≡ first_returned providers (candidates providers breakers 0 ("primary" ∷ "local" ∷ []))
ask_first_example = ask_first providers "primary" ("local" ∷ []) breakers two_providers two_breakers
