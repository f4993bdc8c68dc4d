-- ===== src/Reliability/RetryPolicy/Attempts.antt =====
-- How many attempts an execution makes, and with which result it ends.
use native.Mathlib.Numerals.{add-one}
use ai_chatbot_platform.Prelude.{
  ℕ, zero, suc, ◌+◌, ◌≤◌, ◌<◌, ◌≡◌, refl, ap, true, false, Option, none, some, [], ◌∷◌, arith,
  length, if◌then◌else◌, ◌⊎◌, lt→ltb, le→ltb, inl, inr, Bool-cases,
}
use ai_chatbot_platform.Reliability.FailureTracker.{
  Error, FailureTracker, record_failure, record_success,
}
use ai_chatbot_platform.Reliability.CircuitBreaker.{Outcome, returned, raised}
use ai_chatbot_platform.Reliability.RetryPolicy.{
  RetryPolicy, Environment, RetryResult, result, reraised, retry_exhausted, Execution, exhausted,
  next_delay, rounds, execute,
}

pub Outcome-cases {ℓ} :
    {A : Type ℓ} (o : Outcome A) → ((a : A) × (o ≡ returned a)) ⊎ ((e : Error) × (o ≡ raised e))
Outcome-cases (returned a) = inl (a, refl)
Outcome-cases (raised e) = inr (e, refl)

module _ {ℓ} {A : Type ℓ} (p : RetryPolicy) (env : Environment A) where
  -- Attempts `from`, …, `from + n - 1` raise errors that may be retried.
  abbrev pub FailFrom : ℕ → ℕ → Type ℓ
  FailFrom from zero = Unit
  FailFrom from (suc n) =
      ((e : Error) × (env.run from ≡ raised e) × (p.retryable e ≡ true)) × FailFrom (from + 1) n

  -- Attempt `m` ends the execution: it is the last one, or it did not fail with such an error.
  abbrev pub Decides : ℕ → Outcome A → Type 0
  Decides m (returned a) = Unit
  Decides m (raised e) = (m ≡ p.max_retries + 1) ⊎ (p.retryable e ≡ false)

  abbrev pub verdict : Outcome A → RetryResult A
  verdict (returned a) = result a
  verdict (raised e) = if p.retryable e then retry_exhausted (p.max_retries + 1) e else reraised e

  abbrev pub failures_in : Outcome A → ℕ
  failures_in (returned a) = 0
  failures_in (raised e) = 1

  -- What `n` failed attempts from `from` on and the deciding attempt `m` make of an execution that
  -- begins with the tracker `t`.
  pub record Follows (from n m : ℕ) (t : FailureTracker) (x : Execution A) : Type ℓ where
    pub deciding : m ≡ from + n
    pub in_limit : m ≤ p.max_retries + 1
    pub failed : FailFrom from n
    pub decided : Decides m (env.run m)
    pub outcome : x.outcome ≡ verdict (env.run m)
    pub slept : length x.sleeps ≡ n
    pub failures : x.tracker.total_failures ≡ t.total_failures + n + failures_in (env.run m)
    pub successes : x.tracker.total_successes + failures_in (env.run m) ≡ t.total_successes + 1

  rounds_returned :
      (left m delay : ℕ) (last : Option Error) (t : FailureTracker) (a : A)
      → env.run m ≡ returned a
      → rounds p env (suc left) m delay last t
        ≡ record { outcome = result a; tracker = record_success (env.clock m) t; sleeps = [] }
  unfolding rounds
  rounds_returned left m delay last t a h = rw (h, rounds)

  rounds_reraised :
      (left m delay : ℕ) (last : Option Error) (t : FailureTracker) (e : Error)
      → env.run m ≡ raised e
      → p.retryable e ≡ false
      → rounds p env (suc left) m delay last t
        ≡ record { outcome = reraised e; tracker = record_failure (env.clock m) e t; sleeps = [] }
  unfolding rounds
  rounds_reraised left m delay last t e h r = rw (h, rounds) (rw r)

  rounds_exhausted :
      (left m delay : ℕ) (last : Option Error) (t : FailureTracker) (e : Error)
      → env.run m ≡ raised e
      → p.retryable e ≡ true
      → p.max_retries < m
      → rounds p env (suc left) m delay last t ≡ record {
        outcome = retry_exhausted (p.max_retries + 1) e;
        tracker = record_failure (env.clock m) e t;
        sleeps = [];
      }
  unfolding rounds exhausted
  rounds_exhausted left m delay last t e h r lt = rw (h, rounds) (rw (r, lt→ltb _ _ lt))

  rounds_retried :
      (left m delay : ℕ) (last : Option Error) (t : FailureTracker) (e : Error)
      → env.run m ≡ raised e
      → p.retryable e ≡ true
      → m ≤ p.max_retries
      → rounds p env (suc left) m delay last t ≡ (
          let x =
            rounds p env left
              (m + 1)
              (next_delay p env m delay)
              (some e)
              (record_failure (env.clock m) e t) in
          record x { sleeps = next_delay p env m delay ∷ x.sleeps })
  unfolding rounds
  rounds_retried left m delay last t e h r le = rw (h, rounds) (rw (r, le→ltb _ _ le))

  -- The execution ends with its first attempt.
  ends_at :
      (m : ℕ) (t : FailureTracker) (o : Outcome A)
      → env.run m ≡ o
      → m ≤ p.max_retries + 1
      → Decides m o
      → Follows m 0 m t (record {
        outcome = verdict o;
        tracker = elim o [
          | returned a ↦ record_success (env.clock m) t
          | raised e ↦ record_failure (env.clock m) e t
        ];
        sleeps = [];
      })
  unfolding record_failure record_success
  ends_at m t (returned a) h le d = record {
    deciding = omega arith;
    in_limit = le;
    failed = tt;
    decided = rw h d;
    outcome = rw h;
    slept = refl;
    failures = rw h (omega arith);
    successes = rw h (omega arith);
  }
  ends_at m t (raised e) h le d = record {
    deciding = omega arith;
    in_limit = le;
    failed = tt;
    decided = rw h d;
    outcome = rw h;
    slept = refl;
    failures = rw h (omega arith);
    successes = rw h (omega arith);
  }

  after_retry :
      {n m' : ℕ} (m : ℕ) (t : FailureTracker) (e : Error) (delay : ℕ) (x : Execution A)
      → env.run m ≡ raised e
      → p.retryable e ≡ true
      → Follows (m + 1) n m' (record_failure (env.clock m) e t) x
      → Follows m (suc n) m' t (record x { sleeps = delay ∷ x.sleeps })
  unfolding record_failure
  after_retry m t e delay x h r f = record {
    deciding = omega (arith, f.deciding);
    in_limit = f.in_limit;
    failed = ((e, h, r), f.failed);
    decided = f.decided;
    outcome = f.outcome;
    slept = ap suc f.slept;
    failures = omega (arith, f.failures);
    successes = f.successes;
  }

  module _ (left m delay : ℕ) (last : Option Error) (t : FailureTracker) where
    Decided : Type ℓ
    Decided = (n m' : ℕ) × Follows m n m' t (rounds p env (suc left) m delay last t)

    decided_returned : (a : A) → env.run m ≡ returned a → m ≤ p.max_retries + 1 → Decided
    unfolding Decided
    decided_returned a h le =
        (0, m, rw (rounds_returned left m delay last t a h) (ends_at m t (returned a) h le tt))

    decided_reraised :
        (e : Error) → env.run m ≡ raised e → p.retryable e ≡ false → m ≤ p.max_retries + 1 → Decided
    unfolding Decided
    decided_reraised e h r le =
        let f = ends_at m t (raised e) h le (inr r) in
        (0, m, rw (rounds_reraised left m delay last t e h r) (rw r at f))

    decided_exhausted :
        (e : Error) → env.run m ≡ raised e → p.retryable e ≡ true → m ≡ p.max_retries + 1 → Decided
    unfolding Decided
    decided_exhausted e h r q =
        let f = ends_at m t (raised e) h (omega arith) (inl q) in
        (0, m, rw (rounds_exhausted left m delay last t e h r (omega arith)) (rw r at f))

  rounds-Follows :
      (left m delay : ℕ) (last : Option Error) (t : FailureTracker)
      → left + m ≡ p.max_retries + 1
      → Decided left m delay last t
  unfolding Decided
  rounds-Follows zero m delay last t h = elim (Outcome-cases (env.run m)) [
    | inl (a, e) ↦ decided_returned zero m delay last t a e (omega arith)
    | inr (x, e) ↦ elim (Bool-cases (p.retryable x)) [
      | inl r ↦ decided_exhausted zero m delay last t x e r (omega arith)
      | inr r ↦ decided_reraised zero m delay last t x e r (omega arith)
    ]
  ]
  rounds-Follows (suc left) m delay last t h =
      let t' = λ (x : Error). record_failure (env.clock m) x t in
      let next = λ (x : Error).
        rounds-Follows left (m + 1) (next_delay p env m delay) (some x) (t' x) (omega arith) in
      elim (Outcome-cases (env.run m)) [
        | inl (a, e) ↦ decided_returned (suc left) m delay last t a e (omega arith)
        | inr (x, e) ↦ elim (Bool-cases (p.retryable x)) [
          | inl r ↦
              let (n, m', f) = next x in
              (
                suc n,
                m',
                rw (rounds_retried (suc left) m delay last t x e r (omega arith))
                    (after_retry m t x (next_delay p env m delay) _ e r f),
              )
          | inr r ↦ decided_reraised (suc left) m delay last t x e r (omega arith)
        ]
      ]

  -- Every execution makes `n` attempts that fail with errors that may be retried, `n` at most
  -- `max_retries`, and one deciding attempt, which is the last one that is allowed, or succeeds, or
  -- fails with an error that may not be retried. Its result is the deciding attempt's value or error,
  -- or `RetryExhaustedError` for an error that may be retried; it sleeps `n` times, and the tracker
  -- counts each failure, and one success exactly if there was one.
  pub execute-Follows : (n m : ℕ) × Follows 1 n m p.tracker (execute p env)
  unfolding execute Decided
  execute-Follows = rw add-one (rounds-Follows p.max_retries 1 p.base_delay none p.tracker refl)
