-- ===== src/Api/TokenBucket/Tests.antt =====
-- A caller of the agents who asks too often, on a Redis that is a dictionary.
use ai_chatbot_platform.Prelude.{
  ◌≡◌, refl, ℕ, ◌+◌, ◌*◌, ◌≤◌, false, none, some, List, [], ◌∷◌, ◌++◌, String, arith, All, Dict,
  str_eq, if◌then◌else◌, lookup, put, lookup-put,
}
use ai_chatbot_platform.Api.TokenBucket.{
  Bucket, token_parts, general_bucket, agent_bucket, consume, Redis, Request, resolve_identity,
  TokenBucketRateLimiter, Arrival, Verdict, allowed, too_many_requests, check, checks,
}
use ai_chatbot_platform.Api.TokenBucket.Rate.{OfTier, count_allowed, duration, checks_rate}
use ai_chatbot_platform.Api.TokenBucket.Patience.{check_patient}

entry-write_lem :
    (k j : String) (b : Bucket) (s : Dict Bucket)
    → lookup j (put k b s) ≡ (if str_eq k j then some b else lookup j s)
entry-write_lem k j b s = lookup-put k j b s

abbrev dictionary : Redis
dictionary = record {
  Store = Dict Bucket;
  entry = lookup;
  write = put;
  entry-write = entry-write_lem;
}

abbrev limiter : TokenBucketRateLimiter
limiter = record { general = general_bucket; agent = agent_bucket }

abbrev ann : Request
ann = record { user_id = some "ann"; api_key = some "0123456789"; client_host = none }

abbrev agent_ask : ℕ → Arrival
agent_ask wait = record { request = ann; bucket_name = "agent"; wait = wait; redis_down = false }

abbrev all_ask : List ℕ → List Arrival
all_ask [] = []
all_ask (w ∷ waits) = agent_ask w ∷ all_ask waits

abbrev waits : List ℕ
waits = 0 ∷ 0 ∷ 0 ∷ 0 ∷ 0 ∷ 0 ∷ 0 ∷ 0 ∷ 0 ∷ 0 ∷ 1 ∷ 60 ∷ []

abbrev many : List Arrival
many = all_ask waits

all_ask-OfTier :
    (ws : List ℕ) → All (OfTier dictionary limiter "rl:agent:user:ann" agent_bucket) (all_ask ws)
all_ask-OfTier [] = tt
all_ask-OfTier (w ∷ ws) = (λ e. refl, all_ask-OfTier ws)

abbrev ten_allowed : List Verdict
ten_allowed =
    allowed ∷ allowed ∷ allowed ∷ allowed ∷ allowed ∷ allowed ∷ allowed ∷ allowed ∷ allowed
    ∷ allowed ∷ []

-- The eleventh is refused, and the one after a minute's tenth is not.
many_verdicts :
    checks dictionary limiter many 0 [] ≡ ten_allowed ++ (too_many_requests ∷ allowed ∷ [])
unfolding checks consume lookup put resolve_identity
many_verdicts = refl

-- Only the end of an API key tells it from another.
abbrev key_only : String → Request
key_only key = record { user_id = none; api_key = some key; client_host = none }

same_ending : resolve_identity (key_only "a-12345678") ≡ resolve_identity (key_only "b-12345678")
unfolding resolve_identity
same_ending = refl

checks_rate_example :
    count_allowed "rl:agent:user:ann" many (checks dictionary limiter many 0 []) * token_parts
    ≤ 10 * token_parts + duration many * 10
unfolding lookup
checks_rate_example =
    checks_rate dictionary limiter "rl:agent:user:ann" agent_bucket many 0 [] (omega arith)
      (all_ask-OfTier waits) refl

check_patient_example :
    (check dictionary limiter
      (agent_ask 0)
      (7 + 60)
      (check dictionary limiter (agent_ask 0) 7 []).1).0
    ≡ allowed
check_patient_example =
    check_patient dictionary limiter (agent_ask 0) (agent_ask 0) 7 60 [] refl refl refl
      (omega arith) (omega arith)
