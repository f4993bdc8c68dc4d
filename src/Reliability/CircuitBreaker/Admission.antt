-- ===== src/Reliability/CircuitBreaker/Admission.antt =====
-- Which calls the breaker lets through.
use ai_chatbot_platform.Prelude.{
  ℕ, suc, ◌+◌, ◌-◌, ◌≤◌, ◌<◌, min, ◌≡◌, refl, true, false, none, List, [], ◌∷◌, map, arith, leb,
  length, if◌then◌else◌,
}
use native.Mathlib.Decide.{dec_lt}
use ai_chatbot_platform.Reliability.FailureTracker.{record_failure, get_stats}
use ai_chatbot_platform.Reliability.CircuitBreaker.{
  closed, opened, half_open, CircuitBreaker, returned, raised, done, circuit_open, Attempt, admit,
  handle_open, call, calls,
}

pub admit_probe :
    (t : ℕ) (b : CircuitBreaker)
    → b.state ≡ half_open
    → b.half_open_calls < b.half_open_max_calls
    → admit t b ≡ (record b { half_open_calls = b.half_open_calls + 1 }, true)
unfolding admit
admit_probe t b s h = ground arith

pub admit_exhausted :
    (t : ℕ) (b : CircuitBreaker)
    → b.state ≡ half_open
    → b.half_open_max_calls ≤ b.half_open_calls
    → admit t b ≡ (b, false)
unfolding admit
admit_exhausted t b s h = ground arith

pub admit_opened :
    (t : ℕ) (b : CircuitBreaker)
    → b.state ≡ opened
    → t < b.opened_at + b.recovery_timeout
    → admit t b ≡ (b, false)
unfolding admit
admit_opened t b s h = ground arith

-- Calls that start one after the other while none has ended yet.
unfoldable pub burst : List ℕ → CircuitBreaker → CircuitBreaker × ℕ
burst [] b = (b, 0)
burst (start ∷ starts) b =
    let (b', awaited) = admit start b in
    let (b'', n) = burst starts b' in (b'', if awaited then suc n else n)

-- In HALF_OPEN with no more probes counted than half_open_max_calls, however many calls start before the
-- first one ends, exactly the unused probes are let through, and the breaker changes only in
-- counting that many more probes.
pub burst-half_open :
    (starts : List ℕ) (b : CircuitBreaker)
    → b.state ≡ half_open
    → b.half_open_calls ≤ b.half_open_max_calls
    → ((burst starts b).1 ≡ min (length starts) (b.half_open_max_calls - b.half_open_calls))
      × ((burst starts b).0 ≡ record b { half_open_calls = b.half_open_calls + (burst starts b).1 })
unfolding burst
burst-half_open [] b s h = ground arith
burst-half_open (t ∷ ts) b s h = elim (dec_lt b.half_open_calls b.half_open_max_calls) [
  | yes more ↦
      let b' = record b { half_open_calls = b.half_open_calls + 1 } in
      rw (admit_probe t b s more) (ground (arith, burst-half_open ts b' s (omega arith)))
  | no full ↦ rw (admit_exhausted t b s (omega arith)) (ground (arith, burst-half_open ts b s h))
]

module _ {ℓ} {A : Type ℓ} where
  -- The attempts start before `limit`.
  abbrev pub StartBefore : ℕ → List (Attempt A) → Type 0
  StartBefore limit [] = Unit
  StartBefore limit (a ∷ as') = (a.start < limit) × StartBefore limit as'

  call_opened :
      (a : Attempt A) (b : CircuitBreaker)
      → b.state ≡ opened
      → a.start < b.opened_at + b.recovery_timeout
      → call none a.start a.end a.run b
        ≡ (b, circuit_open (b.opened_at + b.recovery_timeout - a.start))
  unfolding call handle_open
  call_opened a b s h = rw (admit_opened a.start b s h)

  -- While the recovery timeout of an OPEN breaker with no fallback has not passed, any sequence
  -- of calls is rejected, each with the time that is left and whatever its coroutine would do,
  -- and the breaker does not change.
  pub calls-opened :
      (as' : List (Attempt A)) (b : CircuitBreaker)
      → b.state ≡ opened
      → StartBefore (b.opened_at + b.recovery_timeout) as'
      → calls none as' b
        ≡ (b, map (λ a. circuit_open (b.opened_at + b.recovery_timeout - a.start)) as')
  unfolding calls
  calls-opened [] b s h = refl
  calls-opened (a ∷ as') b s h =
      rw (call_opened a b s h.0) (ground (arith, calls-opened as' b s h.1))

  -- From the recovery timeout on, the next call of an OPEN breaker that allows at least one probe
  -- is awaited and its result passed on; a success closes the circuit, and a failure opens it
  -- again exactly if the window then holds at least the threshold of failures, and leaves it
  -- HALF_OPEN otherwise.
  pub call-recovery :
      (a : Attempt A) (b : CircuitBreaker)
      → b.state ≡ opened
      → 0 < b.half_open_max_calls
      → b.opened_at + b.recovery_timeout ≤ a.start
      → ((call none a.start a.end a.run b).1 ≡ done a.run)
        × ((call none a.start a.end a.run b).0.state ≡ elim a.run [
          | returned _ ↦ closed
          | raised e ↦
              if leb b.failure_threshold
                (get_stats (record_failure a.end e b.tracker) a.end).window_failures
              then opened
              else half_open
        ])
  unfolding call
  call-recovery a b s p h = ground arith
