-- ===== src/Api/TokenBucket/Rate.antt =====
-- How many requests a bucket lets through in a time, whatever else arrives.
use ai_chatbot_platform.Prelude.{
  ◌≡◌, ℕ, ◌+◌, ◌*◌, ◌≤◌, Bool, true, false, inl, inr, none, some, List, [], ◌∷◌, String, arith,
  str_eq, eq_iff, All, if◌then◌else◌, Bool-cases,
}
use native.Mathlib.Nat.{add-mul}
use ai_chatbot_platform.Api.TokenBucket.{
  BucketConfig, Bucket, token_parts, Redis, TokenBucketRateLimiter, Arrival, Verdict, allowed,
  too_many_requests, unlimited, verdict_of, bucket_of, key_of, check, checks,
}
use ai_chatbot_platform.Api.TokenBucket.Expiry.{
  IsKept, Refills, available, available-le, available-later, later-IsKept, consume-available,
}

-- Whether an arrival got a token of a key's bucket.
abbrev pub takes : String → Arrival → Verdict → ℕ
takes k a allowed = if str_eq (key_of a.bucket_name a.request) k then 1 else 0
takes k a too_many_requests = 0
takes k a unlimited = 0

-- How many of the arrivals got a token of a key's bucket.
unfoldable pub count_allowed : String → List Arrival → List Verdict → ℕ
count_allowed k [] vs = 0
count_allowed k (a ∷ arrivals) [] = 0
count_allowed k (a ∷ arrivals) (v ∷ vs) = takes k a v + count_allowed k arrivals vs

-- The ticks from the start to the last arrival.
unfoldable pub duration : List Arrival → ℕ
duration [] = 0
duration (a ∷ arrivals) = a.wait + duration arrivals

module _ (redis : Redis) (l : TokenBucketRateLimiter) (k : String) (c : BucketConfig) where
  -- The arrivals at the key's bucket are of its tier.
  abbrev pub OfTier : Arrival → Type 0
  OfTier a = key_of a.bucket_name a.request ≡ k → bucket_of l a.bucket_name ≡ c

  -- What one check does to what is available.
  abbrev Charged : Arrival → ℕ → redis.Store → Verdict × redis.Store → Type 0
  Charged a now s (v, s') =
      (available c now (redis.entry k s') + takes k a v * token_parts
        ≤ available c now (redis.entry k s))
      × IsKept c now (redis.entry k s')

  counted-Charged :
      (a : Arrival) (now : ℕ) (s : redis.Store) (b : Bool × Bucket)
      → key_of a.bucket_name a.request ≡ k
      → (available c now (some b.1) + (if b.0 then token_parts else 0)
          ≤ available c now (redis.entry k s))
        × IsKept c now (some b.1)
      → Charged a now s (verdict_of b.0, redis.write (key_of a.bucket_name a.request) b.1 s)
  counted-Charged a now s (true, b) same h =
      let hit : str_eq (key_of a.bucket_name a.request) k ≡ true = (eq_iff _ _).1 same in
      rw (redis.entry-write (key_of a.bucket_name a.request) k b s, hit) (omega (arith, h.0), h.1)
  counted-Charged a now s (false, b) same h =
      let hit : str_eq (key_of a.bucket_name a.request) k ≡ true = (eq_iff _ _).1 same in
      rw (redis.entry-write (key_of a.bucket_name a.request) k b s, hit) (omega (arith, h.0), h.1)

  -- Another key's bucket is left alone.
  other-Charged :
      (a : Arrival) (now : ℕ) (s : redis.Store) (b : Bool × Bucket)
      → str_eq (key_of a.bucket_name a.request) k ≡ false
      → IsKept c now (redis.entry k s)
      → Charged a now s (verdict_of b.0, redis.write (key_of a.bucket_name a.request) b.1 s)
  other-Charged a now s (true, b) other h =
      rw (redis.entry-write (key_of a.bucket_name a.request) k b s, other) (omega arith, h)
  other-Charged a now s (false, b) other h =
      rw (redis.entry-write (key_of a.bucket_name a.request) k b s, other) (omega arith, h)

  check-Charged :
      (a : Arrival) (now : ℕ) (s : redis.Store)
      → Refills c
      → OfTier a
      → IsKept c now (redis.entry k s)
      → Charged a now s (check redis l a now s)
  unfolding check
  check-Charged a now s full tier h = elim (Bool-cases a.redis_down) [
    | inl down ↦ rw (check, down) (omega arith, h)
    | inr up ↦ elim (Bool-cases (str_eq (key_of a.bucket_name a.request) k)) [
      | inl hit ↦
          let same = (eq_iff (key_of a.bucket_name a.request) k).0 hit in
          rw (check, up)
            (counted-Charged a now s _ same
              (rw (same, tier same) (consume-available c now (redis.entry k s) full)))
      | inr other ↦ rw (check, up) (other-Charged a now s _ other h)
    ]
  ]

  -- The tokens that are given are paid from what is available and what the ticks refill.
  checks-available :
      (arrivals : List Arrival) (now : ℕ) (s : redis.Store)
      → Refills c
      → All OfTier arrivals
      → IsKept c now (redis.entry k s)
      → count_allowed k arrivals (checks redis l arrivals now s) * token_parts
        ≤ available c now (redis.entry k s) + duration arrivals * c.refill
  unfolding count_allowed checks duration
  checks-available [] now s full tiers h = omega arith
  checks-available (a ∷ arrivals) now s full tiers h =
      let here = check redis l a (now + a.wait) s in
      let kept_then = later-IsKept c now a.wait (redis.entry k s) h in
      let step = check-Charged a (now + a.wait) s full tiers.0 kept_then in
      let rest = checks-available arrivals (now + a.wait) here.1 full tiers.1 step.1 in
      omega (
        arith,
        step.0,
        rest,
        available-later c now a.wait (redis.entry k s) full h,
        add-mul a.wait (duration arrivals) c.refill,
        add-mul (takes k a here.0)
            (count_allowed k arrivals (checks redis l arrivals (now + a.wait) here.1)) token_parts,
      )

-- For a tier whose buckets would be full again by the time at which they expire: of any sequence of
-- arrivals, at a bucket of it and at others, with Redis down at some of them or not, those that get a
-- token of the bucket are at most its capacity and one for each 600 parts that the ticks from the start
-- to the last arrival refill, if nothing was stored for it and the time does not run backwards.
pub checks_rate :
    (redis : Redis) (l : TokenBucketRateLimiter) (k : String) (c : BucketConfig)
    (arrivals : List Arrival) (now : ℕ) (s : redis.Store)
    → Refills c
    → All (OfTier redis l k c) arrivals
    → redis.entry k s ≡ none
    → count_allowed k arrivals (checks redis l arrivals now s) * token_parts
      ≤ c.capacity * token_parts + duration arrivals * c.refill
checks_rate redis l k c arrivals now s full tiers fresh =
    let kept_now : IsKept c now (redis.entry k s) = rw fresh tt in
    omega (
      arith,
      checks-available redis l k c arrivals now s full tiers kept_now,
      available-le c now (redis.entry k s),
    )
