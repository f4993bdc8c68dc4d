-- ===== src/Reliability/LoadGuard.antt =====
-- app/reliability/load_guard.py: admission control and the swarm throttle.
--
-- The value of the `asyncio.Semaphore` is the field `permits`. `wait_for(semaphore.acquire(), …)` is
-- one step, at the time when the wait ends: it takes a permit if there is one by then, and times out
-- if there is none. A utilization is a fraction, and the throttle computes with exact fractions.
mod Slots
mod Throttle
mod Tests
use ai_chatbot_platform.Prelude.{
  ℕ, zero, suc, ◌+◌, ◌-◌, ◌*◌, ◌/◌, max, Bool, true, false, Option, none, some, ltb, leb,
  if◌then◌else◌,
}
use ai_chatbot_platform.Reliability.CircuitBreaker.{Outcome}

pub record RequestQueueLimiter : Type 0 where
  pub max_concurrent : ℕ
  pub permits : ℕ
  pub active : ℕ
  pub total_rejected : ℕ

pub record AgentExecutionLimiter : Type 0 where
  pub max_agents : ℕ
  pub permits : ℕ
  pub active : ℕ

-- `rejected` is `LoadGuardRejectionError` with its `current` and `limit`.
pub data Guarded {ℓ} (A : Type ℓ) : Type ℓ where
  ran : Outcome A → Guarded A
  rejected : ℕ → ℕ → Guarded A

pub new_requests : ℕ → RequestQueueLimiter
new_requests n = record { max_concurrent = n; permits = n; active = 0; total_rejected = 0 }

pub new_agents : ℕ → AgentExecutionLimiter
new_agents n = record { max_agents = n; permits = n; active = 0 }

pub acquire : RequestQueueLimiter → RequestQueueLimiter × Bool
acquire l =
    if ltb 0 l.permits
    then (record l { permits = l.permits - 1; active = l.active + 1 }, true)
    else (record l { total_rejected = l.total_rejected + 1 }, false)

-- `max(0, active - 1)` is the subtraction that stops at 0.
pub release : RequestQueueLimiter → RequestQueueLimiter
release l = record l { permits = l.permits + 1; active = l.active - 1 }

pub enter_agent : AgentExecutionLimiter → AgentExecutionLimiter × Bool
enter_agent l =
    if ltb 0 l.permits
    then (record l { permits = l.permits - 1; active = l.active + 1 }, true)
    else (l, false)

pub leave_agent : AgentExecutionLimiter → AgentExecutionLimiter
leave_agent l = record l { permits = l.permits + 1; active = l.active - 1 }

module _ {ℓ} {A : Type ℓ} (run : Outcome A) where
  -- `during` is what the other tasks do to the limiter while the coroutine runs.
  pub execute :
      (RequestQueueLimiter → RequestQueueLimiter)
      → RequestQueueLimiter
      → RequestQueueLimiter × Guarded A
  unfolding acquire release
  execute during l =
      let (l', acquired) = acquire l in
      if acquired
      then (release (during l'), ran run)
      else (l', rejected l'.active l'.max_concurrent)

  pub execute_agent :
      (AgentExecutionLimiter → AgentExecutionLimiter)
      → AgentExecutionLimiter
      → AgentExecutionLimiter × Guarded A
  unfolding enter_agent leave_agent
  execute_agent during l =
      let (l', entered) = enter_agent l in
      if entered then (leave_agent (during l'), ran run) else (l', rejected l'.active l'.max_agents)

-- `num / den`
pub record Fraction : Type 0 where
  pub num : ℕ
  pub den : ℕ

abbrev pub zero_fraction : Fraction
zero_fraction = record { num = 0; den = 1 }

abbrev pub leb_fraction : Fraction → Fraction → Bool
leb_fraction a b = leb (a.num * b.den) (b.num * a.den)

abbrev max_fraction : Fraction → Fraction → Fraction
max_fraction a b = if leb_fraction a b then b else a

abbrev ratio : ℕ → ℕ → Fraction
ratio active limit = if ltb 0 limit then record { num = active; den = limit } else zero_fraction

pub utilization : RequestQueueLimiter → Fraction
utilization l = ratio l.active l.max_concurrent

pub record SwarmThrottle : Type 0 where
  pub request_limiter : Option RequestQueueLimiter
  pub agent_limiter : Option AgentExecutionLimiter
  pub pressure_threshold : Fraction

pub total_utilization : SwarmThrottle → Fraction
unfolding utilization
total_utilization s =
    let requests : Fraction = elim s.request_limiter [
      | none ↦ zero_fraction
      | some l ↦ max_fraction zero_fraction (utilization l)
    ] in
    elim s.agent_limiter [
      | none ↦ requests
      | some l ↦ max_fraction requests (ratio l.active l.max_agents)
    ]

-- The factor at utilization `u` over the threshold `t`. With `excess = part / whole`, the ramp
-- `1.0 - excess * 0.9` is `(10 * whole - 9 * part) / (10 * whole)`, and 0.1 is `whole` over the same.
pub factor_at : Fraction → Fraction → Fraction
factor_at t u =
    let part = u.num * t.den - t.num * u.den in
    let whole = u.den * (t.den - t.num) in
    if leb_fraction u t
    then record { num = 1; den = 1 }
    else record { num = max whole (10 * whole - 9 * part); den = 10 * whole }

pub throttle_factor : SwarmThrottle → Fraction
throttle_factor s = factor_at s.pressure_threshold (total_utilization s)

-- `max(1, int(base_parallel * factor))`
abbrev pub scale : ℕ → Fraction → ℕ
scale base f = max 1 (base * f.num / f.den)

pub get_effective_parallelism : SwarmThrottle → ℕ → ℕ
unfolding throttle_factor
get_effective_parallelism s base = scale base (throttle_factor s)
