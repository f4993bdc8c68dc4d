-- ===== src/Api/TokenBucket.antt =====
-- app/api/middleware/token_bucket.py: the token bucket of a user, an API key or an address.
--
-- A tick is a tenth of a second and a token has 600 parts, so the rates of the two tiers are whole
-- numbers of parts in a tick; where the source rounds in floating point, this is exact. Redis is an
-- interface: what is stored under a key, with the time at which it expires, and the law of a write.
mod Expiry
mod Rate
mod Patience
mod Tests
use Prim.Native.String
use ai_chatbot_platform.Prelude.{
  ◌≡◌, ℕ, ◌+◌, ◌-◌, ◌*◌, min, Bool, true, false, Option, none, some, List, [], ◌∷◌, String, ltb,
  str_eq, if◌then◌else◌,
}

abbrev pub token_parts : ℕ
token_parts = 600

pub record BucketConfig : Type 0 where
  pub capacity : ℕ
  -- parts in a tick
  pub refill : ℕ
  -- ticks
  pub ttl : ℕ

abbrev pub general_bucket : BucketConfig
general_bucket = record { capacity = 100; refill = 100; ttl = 1200 }

abbrev pub agent_bucket : BucketConfig
agent_bucket = record { capacity = 10; refill = 10; ttl = 1200 }

-- The hash of a key, and when `EXPIRE` removes it.
pub record Bucket : Type 0 where
  pub tokens : ℕ
  pub last : ℕ
  pub expires : ℕ

-- `HMSET` with `EXPIRE` writes one key and leaves the others.
pub record Redis : Type 1 where
  pub Store : Type 0
  pub entry : String → Store → Option Bucket
  pub write : String → Bucket → Store → Store
  pub entry-write :
      (k j : String) (b : Bucket) (s : Store)
      → entry j (write k b s) ≡ (if str_eq k j then some b else entry j s)

-- `HMGET`: what has expired is not found.
unfoldable pub live : ℕ → Option Bucket → Option Bucket
live now none = none
live now (some b) = if ltb now b.expires then some b else none

-- The tokens after the refill; a bucket that is not there is full.
unfoldable pub refilled : BucketConfig → ℕ → Option Bucket → ℕ
refilled c now none = c.capacity * token_parts
refilled c now (some b) = min (c.capacity * token_parts) (b.tokens + (now - b.last) * c.refill)

abbrev pub kept_bucket : BucketConfig → ℕ → ℕ → Bucket
kept_bucket c now tokens = record { tokens = tokens; last = now; expires = now + c.ttl }

-- The Lua script, with whether a token was consumed.
unfoldable pub consume : BucketConfig → ℕ → Option Bucket → Bool × Bucket
unfolding live refilled
consume c now found =
    let tokens = refilled c now (live now found) in
    if ltb tokens token_parts
    then (false, kept_bucket c now tokens)
    else (true, kept_bucket c now (tokens - token_parts))

pub record Request : Type 0 where
  -- set by the authentication
  pub user_id : Option String
  pub api_key : Option String
  pub client_host : Option String

-- A text that is there and not empty.
abbrev pub present : Option String → Option String
present none = none
present (some String.[]) = none
present (some (String.◌∷◌ c s)) = some (String.◌∷◌ c s)

-- `api_key[-8:]`
abbrev pub last_eight : String → String
last_eight s = String.slice s (String.len s - 8) (String.len s)

abbrev pub host_of : Option String → String
host_of none = "unknown"
host_of (some host) = host

-- The user, else the key, else the address; a key is taken to be of one-byte characters.
unfoldable pub resolve_identity : Request → String
resolve_identity request = elim (present request.user_id) [
  | some user_id ↦ String.◌++◌ "user:" user_id
  | none ↦ elim (present request.api_key) [
    | some api_key ↦ String.◌++◌ "apikey:" (last_eight api_key)
    | none ↦ String.◌++◌ "ip:" (host_of request.client_host)
  ]
]

pub record TokenBucketRateLimiter : Type 0 where
  pub general : BucketConfig
  pub agent : BucketConfig

abbrev pub bucket_of : TokenBucketRateLimiter → String → BucketConfig
bucket_of l bucket_name = if str_eq bucket_name "agent" then l.agent else l.general

abbrev pub key_of : String → Request → String
key_of bucket_name request =
    String.◌++◌ "rl:" (String.◌++◌ bucket_name (String.◌++◌ ":" (resolve_identity request)))

-- Where Redis is not available the request goes on, uncounted.
pub data Verdict : Type 0 where
  allowed too_many_requests unlimited : Verdict

abbrev pub verdict_of : Bool → Verdict
verdict_of true = allowed
verdict_of false = too_many_requests

-- A request to a tier, the ticks since the one before, and whether Redis is down.
pub record Arrival : Type 0 where
  pub request : Request
  pub bucket_name : String
  pub wait : ℕ
  pub redis_down : Bool

module _ (redis : Redis) (l : TokenBucketRateLimiter) where
  unfoldable pub check : Arrival → ℕ → redis.Store → Verdict × redis.Store
  unfolding consume resolve_identity
  check a now s =
      let key = key_of a.bucket_name a.request in
      let (consumed, bucket) = consume (bucket_of l a.bucket_name) now (redis.entry key s) in
      if a.redis_down then (unlimited, s) else (verdict_of consumed, redis.write key bucket s)

  -- The verdicts of a sequence of arrivals, from a time on.
  unfoldable pub checks : List Arrival → ℕ → redis.Store → List Verdict
  unfolding check
  checks [] now s = []
  checks (a ∷ arrivals) now s =
      let (verdict, s') = check a (now + a.wait) s in verdict ∷ checks arrivals (now + a.wait) s'
