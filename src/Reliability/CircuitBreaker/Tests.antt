-- ===== src/Reliability/CircuitBreaker/Tests.antt =====
-- Runs of the circuit breaker with the default limits, at one tick to the second.
use ai_chatbot_platform.Prelude.{
  ℕ, ◌+◌, ◌-◌, ◌≡◌, refl, none, List, [], ◌∷◌, map, min, append_bounded, arith,
}
use ai_chatbot_platform.Reliability.FailureTracker
use ai_chatbot_platform.Reliability.FailureTracker.{
  Error, FailureTracker, make_record, record_failure, get_stats, record_success,
}
use ai_chatbot_platform.Reliability.CircuitBreaker.{
  closed, opened, half_open, CircuitBreaker, returned, raised, done, circuit_open, Attempt, init,
  admit, on_failure, call, calls,
}
use ai_chatbot_platform.Reliability.CircuitBreaker.Admission.{burst, burst-half_open, call-recovery}
use ai_chatbot_platform.Reliability.CircuitBreaker.Trip.{calls_trip}
use ai_chatbot_platform.Reliability.CircuitBreaker.Lockout.{lockout}
use ai_chatbot_platform.Reliability.CircuitBreaker.Interleavings.{
  World, Reach, here, next, start, fail, wait, IsSound, Reach-init,
}

program : Unit {0}
unfolding call calls record_failure record_success make_record append_bounded get_stats on_failure
program = tt

abbrev lost : Error
lost = record { name = "ConnectionError"; text = [] }

abbrev fresh : CircuitBreaker
fresh = record {
  failure_threshold = 5;
  recovery_timeout = 30;
  half_open_max_calls = 3;
  tracker = record {
    window_seconds = 60;
    max_records = 1000;
    failures = [];
    success_timestamps = [];
    total_failures = 0;
    total_successes = 0;
  };
  state = closed;
  opened_at = 0;
  half_open_calls = 0;
}

abbrev started : CircuitBreaker
started = init 5 30 3 (FailureTracker.init 60 1000)

started-fresh : started ≡ fresh
unfolding init FailureTracker.init
started-fresh = refl

abbrev fails : ℕ → Attempt ℕ
fails t = record { start = t; end = t; run = raised lost }

abbrev succeeds : ℕ → Attempt ℕ
succeeds t = record { start = t; end = t; run = returned 7 }

abbrev record_failures : List ℕ → FailureTracker → FailureTracker
record_failures [] t = t
record_failures (now ∷ nows) t = record_failures nows (record_failure now lost t)

-- Five failures in the first minute open the circuit at 60.
abbrev outage : List (Attempt ℕ)
outage = map fails (0 ∷ 1 ∷ 2 ∷ 3 ∷ 60 ∷ [])

abbrev down : CircuitBreaker
down = record fresh {
  tracker = record_failures (0 ∷ 1 ∷ 2 ∷ 3 ∷ 60 ∷ []) fresh.tracker;
  state = opened;
  opened_at = 60;
}

abbrev probing : CircuitBreaker
probing = record down { state = half_open }

outage_opens : (calls none outage fresh).0 ≡ down
unfolding program
outage_opens = refl

burst-half_open_example :
    ((burst (90 ∷ 90 ∷ 91 ∷ 92 ∷ []) probing).1 ≡ min 4 (3 - 0))
    × ((burst (90 ∷ 90 ∷ 91 ∷ 92 ∷ []) probing).0
        ≡ record probing { half_open_calls = 0 + (burst (90 ∷ 90 ∷ 91 ∷ 92 ∷ []) probing).1 })
burst-half_open_example = burst-half_open (90 ∷ 90 ∷ 91 ∷ 92 ∷ []) probing refl (omega arith)

call-recovery_example :
    ((call none 90 90 (succeeds 90).run down).1 ≡ done (returned 7))
    × ((call none 90 90 (succeeds 90).run down).0.state ≡ closed)
call-recovery_example = call-recovery (succeeds 90) down refl (omega arith) (omega arith)

calls_trip_example :
    ((calls none outage started).0.state ≡ opened)
    × ((calls none outage started).1 ≡ map (λ a. done a.run) outage)
calls_trip_example = calls_trip 0 outage 5 30 3 60 1000 (omega arith) (omega arith) (omega arith) (
  (lost, refl),
  omega arith,
  omega arith,
  (
    (lost, refl),
    omega arith,
    omega arith,
    (
      (lost, refl),
      omega arith,
      omega arith,
      ((lost, refl), omega arith, omega arith, ((lost, refl), omega arith, omega arith, tt)),
    ),
  ),
)

abbrev probes : List (Attempt ℕ)
probes = map fails (90 ∷ 91 ∷ 92 ∷ [])

-- The failures of the outage have left the window when the probes fail.
lockout_example :
    ((calls none probes probing).0.state ≡ half_open)
    × (calls none (succeeds 1000 ∷ []) (calls none probes probing).0
        ≡ ((calls none probes probing).0, circuit_open 0 ∷ []))
unfolding program
lockout_example =
    lockout probes (succeeds 1000 ∷ []) probing refl refl
      (lost, refl, omega arith, (lost, refl, omega arith, (lost, refl, omega arith, tt)))

abbrev at_first : World
at_first = record { now = 7; breaker = init 1 30 3 (FailureTracker.init 60 1000) }

abbrev called_once : World
called_once = record at_first { breaker = (admit 7 at_first.breaker).0 }

abbrev failed_once : World
failed_once = record called_once { breaker = on_failure 7 lost called_once.breaker }

abbrev recovering : World
recovering = record failed_once { now = 40 }

abbrev probed : World
probed = record recovering { breaker = (admit 40 recovering.breaker).0 }

abbrev probed_twice : World
probed_twice = record probed { breaker = (admit 40 probed.breaker).0 }

-- A call fails and opens the circuit, and two calls probe it after the recovery timeout.
probed_steps : Reach at_first probed_twice
probed_steps =
    next
      (next
        (next (next (next here (start at_first)) (fail called_once lost))
          (wait failed_once 40 (omega arith)))
        (start recovering))
      (start probed)

-- They interleave: the first one is still awaited when the second one starts.
probed_counts :
    (failed_once.breaker.state ≡ opened)
    × (probed_twice.breaker.state ≡ half_open)
    × (probed_twice.breaker.half_open_calls ≡ 2)
unfolding init admit on_failure get_stats record_failure append_bounded FailureTracker.init
    make_record
probed_counts = (refl, refl, refl)

Reach-init_example : IsSound 3 30 probed_twice
Reach-init_example = Reach-init 1 30 3 7 (FailureTracker.init 60 1000) probed_steps
