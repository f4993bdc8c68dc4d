-- ===== src/Reliability/CircuitBreaker/Interleavings.antt =====
-- Calls of many tasks on one breaker, interleaved at their awaits.
use ai_chatbot_platform.Prelude.{ℕ, ◌+◌, ◌≤◌, ◌≡◌, refl, ◌⊎◌, inl, inr, arith}
use ai_chatbot_platform.Reliability.FailureTracker.{Error, FailureTracker}
use ai_chatbot_platform.Reliability.CircuitBreaker.{
  opened, half_open, CircuitBreaker, init, observe, admit, on_success, on_failure, force_open,
  force_close,
}

-- The breaker and the clock.
pub record World : Type 0 where
  pub now : ℕ
  pub breaker : CircuitBreaker

-- What the tasks and the clock can do: look at the state, start a call, end a coroutine that was
-- awaited, or use the manual controls.
pub data Step : World → World → Type 0 where
  wait : (w : World) (t : ℕ) → w.now ≤ t → Step w (record w { now = t })
  look : (w : World) → Step w (record w { breaker = observe w.now w.breaker })
  start : (w : World) → Step w (record w { breaker = (admit w.now w.breaker).0 })
  succeed : (w : World) → Step w (record w { breaker = on_success w.now w.breaker })
  fail : (w : World) (e : Error) → Step w (record w { breaker = on_failure w.now e w.breaker })
  trip : (w : World) → Step w (record w { breaker = force_open w.now w.breaker })
  untrip : (w : World) → Step w (record w { breaker = force_close w.now w.breaker })

pub data Reach (w : World) : World → Type 0 where
  here : Reach w w
  next : {u v : World} → Reach w u → Step u v → Reach w v

pub record IsSound (probes timeout : ℕ) (w : World) : Type 0 where
  pub half_open_max_calls : w.breaker.half_open_max_calls ≡ probes
  pub recovery_timeout : w.breaker.recovery_timeout ≡ timeout
  pub within : w.breaker.half_open_calls ≤ probes
  pub not_ahead : w.breaker.opened_at ≤ w.now

Step-IsSound :
    {probes timeout : ℕ} {w w' : World}
    → Step w w'
    → IsSound probes timeout w
    → IsSound probes timeout w'
unfolding observe admit on_success on_failure force_open force_close
Step-IsSound (wait w t h) s = ground arith
Step-IsSound (look w) s = ground arith
Step-IsSound (start w) s = ground arith
Step-IsSound (succeed w) s = ground arith
Step-IsSound (fail w e) s = ground arith
Step-IsSound (trip w) s = ground arith
Step-IsSound (untrip w) s = ground arith

Reach-IsSound :
    {probes timeout : ℕ} {w w' : World}
    → IsSound probes timeout w
    → Reach w w'
    → IsSound probes timeout w'
Reach-IsSound s here = s
Reach-IsSound s (next r st) = Step-IsSound st (Reach-IsSound s r)

-- In every interleaving of looks, call starts, successes, failures and manual controls on a new
-- breaker, with a clock that never runs back, the calls counted in HALF_OPEN never pass the
-- limit, the opening time is not in the future, and the two limits stay as they were set.
pub Reach-init :
    (n timeout probes now : ℕ) (t : FailureTracker) {w : World}
    → Reach (record { now = now; breaker = init n timeout probes t }) w
    → IsSound probes timeout w
unfolding init
Reach-init n timeout probes now t r =
    Reach-IsSound
      (record {
        half_open_max_calls = refl;
        recovery_timeout = refl;
        within = omega arith;
        not_ahead = omega arith;
      })
      r

-- Each step from an OPEN circuit leaves it OPEN since the same time, or takes it to HALF_OPEN
-- with at most one probe counted, its recovery timeout having passed, or is one of the two manual
-- controls.
pub Step-opened :
    {w w' : World}
    → Step w w'
    → w.breaker.state ≡ opened
    → ((w'.breaker.state ≡ opened) × (w'.breaker.opened_at ≡ w.breaker.opened_at))
      ⊎ ((w'.breaker.state ≡ half_open)
          × (w'.breaker.half_open_calls ≤ 1)
          × (w.breaker.opened_at + w.breaker.recovery_timeout ≤ w.now))
      ⊎ ((w'.breaker ≡ force_open w.now w.breaker) ⊎ (w'.breaker ≡ force_close w.now w.breaker))
unfolding observe admit on_success on_failure
Step-opened (wait w t h) s = ground arith
Step-opened (look w) s = ground arith
Step-opened (start w) s = ground arith
Step-opened (succeed w) s = ground arith
Step-opened (fail w e) s = ground arith
Step-opened (trip w) s = inr (inr (inl refl))
Step-opened (untrip w) s = inr (inr (inr refl))
