-- ===== src/Reliability/RetryPolicy/Delays.antt =====
-- The delays between attempts.
use ai_chatbot_platform.Prelude.{
  ℕ, zero, suc, ◌+◌, ◌*◌, ◌≤◌, Option, none, some, List, [], ◌∷◌, arith, ltb, Bool-cases, inl, inr,
}
use ai_chatbot_platform.Reliability.FailureTracker.{Error, FailureTracker, record_failure}
use ai_chatbot_platform.Reliability.RetryPolicy.Attempts.{Outcome-cases}
use ai_chatbot_platform.Reliability.RetryPolicy.{
  RetryPolicy, Environment, next_delay, rounds, execute,
}

module _ {ℓ} {A : Type ℓ} (p : RetryPolicy) (env : Environment A) where
  -- Each delay lies between the two limits, and is at most three times the one before it.
  abbrev pub Spaced : ℕ → List ℕ → Type 0
  Spaced previous [] = Unit
  Spaced previous (d ∷ ds) =
      (p.base_delay ≤ d) × (d ≤ p.max_delay) × (d ≤ previous * 3) × Spaced d ds

  -- `random.uniform(low, high)` lies between its bounds.
  abbrev pub IsUniform : Type 0
  IsUniform =
      (i low high : ℕ)
      → low ≤ high
      → (low ≤ env.uniform i low high) × (env.uniform i low high ≤ high)

  module _ (uniform : IsUniform) (limits : p.base_delay ≤ p.max_delay) where
    next_delay_bounds :
        (i delay : ℕ)
        → p.base_delay ≤ delay
        → (p.base_delay ≤ next_delay p env i delay)
          × (next_delay p env i delay ≤ p.max_delay)
          × (next_delay p env i delay ≤ delay * 3)
    unfolding next_delay
    next_delay_bounds i delay h = omega (arith, uniform i p.base_delay (delay * 3) (omega arith))

    rounds-Spaced :
        (left attempt delay : ℕ) (last : Option Error) (t : FailureTracker)
        → p.base_delay ≤ delay
        → Spaced delay (rounds p env left attempt delay last t).sleeps
    unfolding rounds
    rounds-Spaced zero attempt delay last t h = tt
    rounds-Spaced (suc left) attempt delay last t h =
        let d = next_delay p env attempt delay in
        let (low, high, near) = next_delay_bounds attempt delay h in
        let later = λ (x : Error).
          rounds-Spaced left (attempt + 1) d (some x) (record_failure (env.clock attempt) x t)
            low in
        elim (Outcome-cases (env.run attempt)) [
          | inl (a, e) ↦ rw (e, rounds) tt
          | inr (x, e) ↦
              rw (e, rounds)
                (elim (Bool-cases (p.retryable x)) [
                  | inl r ↦ rw r (elim (Bool-cases (ltb p.max_retries attempt)) [
                    | inl done ↦ rw done tt
                    | inr more ↦ rw more (low, high, near, later x)
                  ])
                  | inr r ↦ rw r tt
                ])
        ]

    -- If `random.uniform` keeps to its bounds and the base delay is at most the maximal one, then
    -- every sleep lies between these two, and none is more than three times the one before it, the
    -- first being at most three times the base delay.
    pub execute-Spaced : Spaced p.base_delay (execute p env).sleeps
    unfolding execute
    execute-Spaced = rounds-Spaced (p.max_retries + 1) 1 p.base_delay none p.tracker (omega arith)
