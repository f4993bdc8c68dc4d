-- ===== src/Reliability/CircuitBreaker/Lockout.antt =====
-- A HALF_OPEN breaker whose probes have been used up without a decision.
use ai_chatbot_platform.Prelude.{
  ℕ, ◌+◌, ◌-◌, ◌≤◌, ◌<◌, ◌≡◌, refl, none, List, [], ◌∷◌, map, arith, length,
}
use ai_chatbot_platform.Reliability.FailureTracker.{
  Error, FailureTracker, record_failure, get_stats,
}
use ai_chatbot_platform.Reliability.CircuitBreaker.{
  half_open, CircuitBreaker, raised, circuit_open, Attempt, on_failure, handle_open, settle, call,
  calls,
}
use ai_chatbot_platform.Reliability.CircuitBreaker.Admission.{admit_exhausted, admit_probe}

on_failure_probe :
    (now : ℕ) (e : Error) (b : CircuitBreaker)
    → b.state ≡ half_open
    → (get_stats (record_failure now e b.tracker) now).window_failures < b.failure_threshold
    → on_failure now e b ≡ record b { tracker = record_failure now e b.tracker }
unfolding on_failure
on_failure_probe now e b s h = ground arith

module _ {ℓ} {A : Type ℓ} where
  -- Attempts whose coroutines all raise, while the window never holds as many failures as the
  -- threshold.
  abbrev pub StayBelow : ℕ → FailureTracker → List (Attempt A) → Type ℓ
  StayBelow n t [] = Unit
  StayBelow n t (a ∷ as') =
      (e : Error) × (a.run ≡ raised e)
      × ((get_stats (record_failure a.end e t) a.end).window_failures < n)
      × StayBelow n (record_failure a.end e t) as'

  -- A HALF_OPEN breaker whose probes are used up rejects all later calls, however late they come
  -- and whatever their coroutines would do, and never changes again.
  locked_out :
      (as' : List (Attempt A)) (b : CircuitBreaker)
      → b.state ≡ half_open
      → b.half_open_max_calls ≤ b.half_open_calls
      → calls none as' b
        ≡ (b, map (λ a. circuit_open (b.opened_at + b.recovery_timeout - a.start)) as')
  unfolding calls call handle_open
  locked_out [] b s h = refl
  locked_out (a ∷ as') b s h =
      rw (admit_exhausted a.start b s h) (ground (arith, locked_out as' b s h))

  probes_fail :
      (as' : List (Attempt A)) (b : CircuitBreaker)
      → b.state ≡ half_open
      → b.half_open_calls + length as' ≤ b.half_open_max_calls
      → StayBelow b.failure_threshold b.tracker as'
      → ((calls none as' b).0.state ≡ half_open)
        × ((calls none as' b).0.half_open_calls ≡ b.half_open_calls + length as')
        × ((calls none as' b).0.half_open_max_calls ≡ b.half_open_max_calls)
        × ((calls none as' b).0.opened_at ≡ b.opened_at)
        × ((calls none as' b).0.recovery_timeout ≡ b.recovery_timeout)
  unfolding calls call settle
  probes_fail [] b s h k = (s, omega arith, refl, refl, refl)
  probes_fail (a ∷ as') b s h (e, f, below, k) =
      let b' = record b { half_open_calls = b.half_open_calls + 1 } in
      rw (admit_probe a.start b s (omega arith), f, on_failure_probe a.end e b' s below)
        (ground (
          arith,
          probes_fail as' (record b' { tracker = record_failure a.end e b.tracker }) s (omega arith)
              k,
        ))

  -- From a HALF_OPEN breaker with no fallback, if as many calls as there are probes left all fail
  -- while the window stays below the threshold, then the breaker stays HALF_OPEN and every later
  -- sequence of calls is rejected and leaves it unchanged, however late the calls come and
  -- whatever their coroutines would do.
  pub lockout :
      (probes later : List (Attempt A)) (b : CircuitBreaker)
      → b.state ≡ half_open
      → b.half_open_calls + length probes ≡ b.half_open_max_calls
      → StayBelow b.failure_threshold b.tracker probes
      → let b' = (calls none probes b).0 in
        (b'.state ≡ half_open)
        × (calls none later b'
            ≡ (b', map (λ a. circuit_open (b.opened_at + b.recovery_timeout - a.start)) later))
  lockout probes later b s h k =
      let (state, n, m, at, timeout) = probes_fail probes b s (omega arith) k in
      (state, ground (arith, locked_out later (calls none probes b).0 state (omega arith)))
