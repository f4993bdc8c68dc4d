-- ===== src/Api/TokenBucket/Patience.antt =====
-- A caller who waits gets a token.
use ai_chatbot_platform.Prelude.{
  ◌≡◌, refl, sym, ap, ℕ, ◌+◌, ◌-◌, ◌*◌, ◌≤◌, true, false, inl, inr, Option, some, arith, eq_iff,
  ltb, Bool-cases,
}
use ai_chatbot_platform.Api.TokenBucket.{
  BucketConfig, Bucket, token_parts, live, refilled, consume, Redis, TokenBucketRateLimiter,
  Arrival, allowed, bucket_of, key_of, check,
}

consume-last : (c : BucketConfig) (now : ℕ) (o : Option Bucket) → (consume c now o).1.last ≡ now
unfolding consume
consume-last c now o = elim (Bool-cases (ltb (refilled c now (live now o)) token_parts)) [
  | inl few ↦ rw (few, consume) refl
  | inr enough ↦ rw (enough, consume) refl
]

refilled-patient :
    (c : BucketConfig) (now d : ℕ) (b : Bucket)
    → 1 ≤ c.capacity
    → token_parts ≤ d * c.refill
    → b.last ≡ now
    → token_parts ≤ refilled c (now + d) (live (now + d) (some b))
unfolding refilled live
refilled-patient c now d b one long e = elim (Bool-cases (ltb (now + d) b.expires)) [
  | inl here ↦
      let same : (now + d - b.last) * c.refill ≡ d * c.refill =
        ap (λ t. t * c.refill) (omega (arith, e)) in
      rw here (omega (arith, same))
  | inr gone ↦ rw gone (omega arith)
]

consume-patient :
    (c : BucketConfig) (now : ℕ) (o : Option Bucket)
    → token_parts ≤ refilled c now (live now o)
    → (consume c now o).0 ≡ true
unfolding consume
consume-patient c now o h =
    let enough : ltb (refilled c now (live now o)) token_parts ≡ false = ground arith in
    rw (enough, consume) refl

module _ (redis : Redis) (l : TokenBucketRateLimiter) where
  entry-check :
      (a : Arrival) (now : ℕ) (s : redis.Store)
      → a.redis_down ≡ false
      → (b : Bucket) × redis.entry (key_of a.bucket_name a.request) (check redis l a now s).1
          ≡ some b
        × b.last ≡ now
  unfolding check
  entry-check a now s up =
      let k = key_of a.bucket_name a.request in
      let b = (consume (bucket_of l a.bucket_name) now (redis.entry k s)).1 in
      (
        b,
        rw (check, up, redis.entry-write k k b s, (eq_iff k k).1 refl) refl,
        consume-last (bucket_of l a.bucket_name) now (redis.entry k s),
      )

  check-allowed :
      (a : Arrival) (now : ℕ) (s : redis.Store)
      → a.redis_down ≡ false
      → token_parts
        ≤ refilled
            (bucket_of l a.bucket_name)
            now
            (live now (redis.entry (key_of a.bucket_name a.request) s))
      → (check redis l a now s).0 ≡ allowed
  unfolding check
  check-allowed a now s up h =
      rw
        (
          check,
          up,
          consume-patient (bucket_of l a.bucket_name) now
              (redis.entry (key_of a.bucket_name a.request) s) h,
        )
        refl

-- Whatever is stored, and whether a request got a token or not: a request of the same key that comes
-- after it, with no check between them and Redis up at both, and so many ticks later that they refill one
-- token, is let through, if its tier has a capacity of at least one. So it is where the bucket has
-- expired in the meantime.
pub check_patient :
    (redis : Redis) (l : TokenBucketRateLimiter) (first second : Arrival) (now d : ℕ)
    (s : redis.Store)
    → first.redis_down ≡ false
    → second.redis_down ≡ false
    → key_of first.bucket_name first.request ≡ key_of second.bucket_name second.request
    → 1 ≤ (bucket_of l second.bucket_name).capacity
    → token_parts ≤ d * (bucket_of l second.bucket_name).refill
    → (check redis l second (now + d) (check redis l first now s).1).0 ≡ allowed
check_patient redis l first second now d s up up' same one long =
    let (b, found, last) = entry-check redis l first now s up in
    check-allowed redis l second (now + d) (check redis l first now s).1 up' (
      rw (sym same, found)
        (refilled-patient (bucket_of l second.bucket_name) now d b one long last))
