-- ===== src/Reliability/CircuitBreaker.antt =====
-- app/reliability/circuit_breaker.py: the three-state circuit breaker over a failure tracker.
--
-- A handler reads the clock once: `now` stands for each `time.monotonic()` of that handler. The
-- coroutine that is protected, and the fallback, are other code: a call takes what they end with.
-- `now - opened_at >= recovery_timeout` is written without a subtraction, so that it is exact.
pub mod Admission
pub mod Calls
pub mod Trip
mod Lockout
mod Interleavings
mod Tests
use ai_chatbot_platform.Prelude.{
  ℕ, suc, ◌+◌, ◌-◌, Bool, true, false, Option, none, some, List, [], ◌∷◌, leb, if◌then◌else◌,
}
use ai_chatbot_platform.Reliability.FailureTracker
use ai_chatbot_platform.Reliability.FailureTracker.{
  Error, FailureTracker, record_failure, record_success, get_stats, reset,
}

pub data CircuitState : Type 0 where
  closed opened half_open : CircuitState

pub record CircuitBreaker : Type 0 where
  pub failure_threshold : ℕ
  pub recovery_timeout : ℕ
  pub half_open_max_calls : ℕ
  pub tracker : FailureTracker
  pub state : CircuitState
  pub opened_at : ℕ
  pub half_open_calls : ℕ

-- How the awaited code ends.
pub data Outcome {ℓ} (A : Type ℓ) : Type ℓ where
  returned : A → Outcome A
  raised : Error → Outcome A

-- `circuit_open` is `CircuitOpenError` with its `retry_after`.
pub data CallResult {ℓ} (A : Type ℓ) : Type ℓ where
  done : Outcome A → CallResult A
  circuit_open : ℕ → CallResult A

unfoldable pub init : ℕ → ℕ → ℕ → FailureTracker → CircuitBreaker
init failure_threshold recovery_timeout half_open_max_calls tracker = record {
  failure_threshold = failure_threshold;
  recovery_timeout = recovery_timeout;
  half_open_max_calls = half_open_max_calls;
  tracker = tracker;
  state = closed;
  opened_at = 0;
  half_open_calls = 0;
}

pub transition : ℕ → CircuitState → CircuitBreaker → CircuitBreaker
transition now opened b = record b { state = opened; opened_at = now }
transition now half_open b = record b { state = half_open; half_open_calls = 0 }
transition now closed b = record b { state = closed }

-- The property `state`: the breaker after the automatic transition, whose state is returned.
unfoldable pub observe : ℕ → CircuitBreaker → CircuitBreaker
unfolding transition
observe now b = elim b.state [
  | opened ↦ if leb (b.opened_at + b.recovery_timeout) now then transition now half_open b else b
  | _ ↦ b
]

admit_as : CircuitState → CircuitBreaker → CircuitBreaker × Bool
admit_as opened b = (b, false)
admit_as half_open b =
    if leb b.half_open_max_calls b.half_open_calls
    then (b, false)
    else (record b { half_open_calls = b.half_open_calls + 1 }, true)
admit_as closed b = (b, true)

-- The part of `call` before the coroutine is awaited: whether it is awaited at all.
pub admit : ℕ → CircuitBreaker → CircuitBreaker × Bool
unfolding observe admit_as
admit now b = let b' = observe now b in admit_as b'.state b'

pub on_success : ℕ → CircuitBreaker → CircuitBreaker
unfolding transition
on_success now b =
    let b' = record b { tracker = record_success now b.tracker } in
    elim b.state [ half_open ↦ transition now closed b' | _ ↦ b' ]

unfoldable pub on_failure : ℕ → Error → CircuitBreaker → CircuitBreaker
unfolding transition
on_failure now e b =
    let b' = record b { tracker = record_failure now e b.tracker } in
    let trips = leb b.failure_threshold (get_stats b'.tracker now).window_failures in
    elim b.state [ opened ↦ b' | _ ↦ if trips then transition now opened b' else b' ]

pub force_open : ℕ → CircuitBreaker → CircuitBreaker
unfolding transition
force_open now b = transition now opened b

pub force_close : ℕ → CircuitBreaker → CircuitBreaker
unfolding transition
force_close now b = let b' = transition now closed b in record b' { tracker = reset b'.tracker }

module _ {ℓ} {A : Type ℓ} where
  -- `max(recovery_timeout - (now - opened_at), 0.0)`
  pub handle_open : Option (Outcome A) → ℕ → CircuitBreaker → CallResult A
  handle_open none now b = circuit_open (b.opened_at + b.recovery_timeout - now)
  handle_open (some fallback) now b = done fallback

  -- The part of `call` after the coroutine has ended.
  pub settle : ℕ → Outcome A → CircuitBreaker → CircuitBreaker
  unfolding on_success on_failure
  settle now (returned a) b = on_success now b
  settle now (raised e) b = on_failure now e b

  finish_call :
      Option (Outcome A) → ℕ → ℕ → Outcome A → CircuitBreaker → Bool → CircuitBreaker × CallResult A
  unfolding settle handle_open
  finish_call fallback start end run b true = (settle end run b, done run)
  finish_call fallback start end run b false = (b, handle_open fallback start b)

  -- A call that starts at `start`, with a coroutine that would end at `end` as `run`.
  unfoldable pub call :
      Option (Outcome A) → ℕ → ℕ → Outcome A → CircuitBreaker → CircuitBreaker × CallResult A
  unfolding admit finish_call
  call fallback start end run b =
      let (b', awaited) = admit start b in finish_call fallback start end run b' awaited

-- One caller's calls, one after the other, each with its two times and its outcome.
pub record Attempt {ℓ} (A : Type ℓ) : Type ℓ where
  pub start : ℕ
  pub end : ℕ
  pub run : Outcome A

module _ {ℓ} {A : Type ℓ} (fallback : Option (Outcome A)) where
  pub calls : List (Attempt A) → CircuitBreaker → CircuitBreaker × List (CallResult A)
  calls [] b = (b, [])
  calls (a ∷ as') b =
      let (b', r) = call fallback a.start a.end a.run b in
      let (b'', rs) = calls as' b' in (b'', r ∷ rs)
