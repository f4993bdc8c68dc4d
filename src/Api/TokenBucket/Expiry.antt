-- ===== src/Api/TokenBucket/Expiry.antt =====
-- What is available in a bucket as time goes by, whether it has expired or not.
use ai_chatbot_platform.Prelude.{
  ◌≡◌, refl, ap, ◌∙◌, ℕ, ◌+◌, ◌-◌, ◌*◌, ◌≤◌, false, inl, inr, Option, none, some, arith, ltb,
  if◌then◌else◌, Bool-cases,
}
use native.Mathlib.Nat.{mul-le-mul_right, add-mul}
use ai_chatbot_platform.Api.TokenBucket.{
  BucketConfig, Bucket, token_parts, live, refilled, kept_bucket, consume,
}

-- A bucket of the past that expires in its time.
abbrev pub IsKept : BucketConfig → ℕ → Option Bucket → Type 0
IsKept c now none = Unit
IsKept c now (some b) = (b.last ≤ now) × (b.expires ≡ b.last + c.ttl)

abbrev pub available : BucketConfig → ℕ → Option Bucket → ℕ
available c now o = refilled c now (live now o)

-- A bucket that is not read until it expires would be full by then.
abbrev pub Refills : BucketConfig → Type 0
Refills c = c.capacity * token_parts ≤ c.ttl * c.refill

pub available-le :
    (c : BucketConfig) (now : ℕ) (o : Option Bucket) → available c now o ≤ c.capacity * token_parts
unfolding refilled live
available-le c now none = omega arith
available-le c now (some b) = ground arith

pub later-IsKept :
    (c : BucketConfig) (now d : ℕ) (o : Option Bucket) → IsKept c now o → IsKept c (now + d) o
later-IsKept c now d none h = tt
later-IsKept c now d (some b) h = (omega (arith, h.0), h.1)

-- In parts: what `d` more ticks refill, before the bucket is capped.
refill-add : (r now last d : ℕ) → last ≤ now → (now + d - last) * r ≡ (now - last) * r + d * r
refill-add r now last d h =
    ap (λ t. t * r) {x = now + d - last} {y = (now - last) + d} (omega arith)
    ∙ add-mul (now - last) d r

expired-full :
    (c : BucketConfig) (now d last : ℕ)
    → Refills c
    → last ≤ now
    → last + c.ttl ≤ now + d
    → c.capacity * token_parts ≤ (now - last) * c.refill + d * c.refill
expired-full c now d last full past over =
    let long : c.ttl * c.refill ≤ (now + d - last) * c.refill =
      mul-le-mul_right c.refill (omega arith) in
    omega (arith, full, long, refill-add c.refill now last d past)

-- A wait refills no more than its ticks do, also where the bucket expires in it.
pub available-later :
    (c : BucketConfig) (now d : ℕ) (o : Option Bucket)
    → Refills c
    → IsKept c now o
    → available c (now + d) o ≤ available c now o + d * c.refill
unfolding refilled live
available-later c now d none full h = omega arith
available-later c now d (some b) full (past, until) = elim (Bool-cases (ltb now b.expires)) [
  | inl here ↦ elim (Bool-cases (ltb (now + d) b.expires)) [
    | inl still ↦ rw (here, still) (omega (arith, refill-add c.refill now b.last d past))
    | inr over ↦
        let full_then = expired-full c now d b.last full past (ground (arith, until)) in
        rw (here, over) (omega (arith, full_then))
  ]
  | inr gone ↦
      let gone_too : ltb (now + d) b.expires ≡ false = ground arith in
      rw (gone, gone_too) (omega arith)
]

available-kept_bucket :
    (c : BucketConfig) (now t : ℕ) → Refills c → available c now (some (kept_bucket c now t)) ≤ t
unfolding refilled live
available-kept_bucket c now t full = elim (Bool-cases (ltb now (now + c.ttl))) [
  | inl here ↦
      let nothing : (now - now) * c.refill ≡ 0 * c.refill = ap (λ d. d * c.refill) (omega arith) in
      rw here (omega (arith, nothing))
  | inr gone ↦
      let no_time : c.ttl ≤ 0 = ground arith in
      let none_at_all : c.ttl * c.refill ≤ 0 * c.refill = mul-le-mul_right c.refill no_time in
      rw gone (omega (arith, full, none_at_all))
]

-- What a request takes is no longer available, and a bucket is kept.
pub consume-available :
    (c : BucketConfig) (now : ℕ) (o : Option Bucket)
    → Refills c
    → (available c now (some (consume c now o).1) + (if (consume c now o).0 then token_parts else 0)
        ≤ available c now o)
      × IsKept c now (some (consume c now o).1)
unfolding consume
consume-available c now o full = elim (Bool-cases (ltb (available c now o) token_parts)) [
  | inl few ↦
      rw (few, consume)
        (omega (arith, available-kept_bucket c now (available c now o) full), (omega arith, refl))
  | inr enough ↦
      rw (enough, consume)
        (
          ground (arith, available-kept_bucket c now (available c now o - token_parts) full),
          (omega arith, refl),
        )
]
