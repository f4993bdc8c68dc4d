-- ===== src/Orchestrator/SafeLlm/Asks.antt =====
-- What one call of the model comes to, and a series of calls while the model is down.
use ai_chatbot_platform.Prelude.{
  ◌≡◌, refl, sym, ap, ◌∙◌, ℕ, suc, ◌+◌, ◌≤◌, ◌<◌, true, false, ◌⊎◌, inl, inr, List, [], ◌∷◌, String,
  arith, length, Bool-cases,
}
use ai_chatbot_platform.Reliability.FailureTracker
use ai_chatbot_platform.Reliability.FailureTracker.{Error, FailureTracker}
use ai_chatbot_platform.Reliability.CircuitBreaker.{
  Outcome, returned, raised, opened, Attempt, init, admit, settle, calls,
}
use ai_chatbot_platform.Reliability.CircuitBreaker.Calls.{
  call_rejected, call_awaited, calls-nil, calls-cons,
}
use ai_chatbot_platform.Reliability.CircuitBreaker.Admission.{admit_opened}
use ai_chatbot_platform.Reliability.CircuitBreaker.Trip.{FailWithin, calls_trip_from}
use ai_chatbot_platform.Reliability.RetryPolicy
use ai_chatbot_platform.Reliability.RetryPolicy.{RetryPolicy, Environment}
use ai_chatbot_platform.Reliability.RetryPolicy.Attempts.{verdict, Follows, execute-Follows}
use ai_chatbot_platform.Reliability.TimeoutController
use ai_chatbot_platform.Reliability.TimeoutController.{TimeoutController}
use ai_chatbot_platform.Orchestrator.SafeLlm.{
  LlmGuards, Asking, fallback_text, llm_fallback, timed_ask, ending, retried_ask, safe_llm_ask,
  asks,
}

rejected_call :
    (q : Asking) (g : LlmGuards)
    → (admit q.start g.circuit).1 ≡ false
    → safe_llm_ask q g
      ≡ (record g { circuit = (admit q.start g.circuit).0 }, returned fallback_text)
unfolding safe_llm_ask
rejected_call q g h =
    rw
      (
        call_rejected (returned fallback_text) (ending g.exhausted_text (retried_ask g q).outcome)
            q.start q.end g.circuit h,
        h,
      )
      refl

awaited_call :
    (q : Asking) (g : LlmGuards)
    → (admit q.start g.circuit).1 ≡ true
    → let x = retried_ask g q in
      let run = ending g.exhausted_text x.outcome in
      safe_llm_ask q g ≡ (
        record g {
          circuit = settle q.end run (admit q.start g.circuit).0;
          retry = record (g.retry) { tracker = x.tracker };
        },
        run,
      )
unfolding safe_llm_ask
awaited_call q g h =
    rw
      (
        call_awaited llm_fallback (ending g.exhausted_text (retried_ask g q).outcome) q.start q.end
            g.circuit h,
        h,
      )
      refl

-- The number of the attempt that decides, and what a call that is awaited leaves and answers.
abbrev pub Awaited : Asking → LlmGuards → Type 0
Awaited q g =
    let env = timed_ask g.timeout q.attempts in
    (n : ℕ) × (m : ℕ) × Follows g.retry env 1 n m g.retry.tracker (retried_ask g q)
    × (let run = ending g.exhausted_text (verdict g.retry env (env.run m)) in
        safe_llm_ask q g ≡ (
          record g {
            circuit = settle q.end run (admit q.start g.circuit).0;
            retry = record (g.retry) { tracker = (retried_ask g q).tracker };
          },
          run,
        ))

-- A call of the model. Where the breaker does not admit it, the model is not asked: the tracker of the
-- retries stays, and the answer is the text of the fallback. Where it does, attempt 1 + `n` decides after
-- `n` attempts that may be retried, there are at most `max_retries` + 1, the answer is what that attempt
-- comes to, and the breaker counts one success or one failure, however many attempts there were.
pub safe_llm_ask_cases :
    (q : Asking) (g : LlmGuards)
    → (((admit q.start g.circuit).1 ≡ false)
        × (safe_llm_ask q g
            ≡ (record g { circuit = (admit q.start g.circuit).0 }, returned fallback_text)))
      ⊎ (((admit q.start g.circuit).1 ≡ true) × Awaited q g)
unfolding retried_ask
safe_llm_ask_cases q g = elim (Bool-cases (admit q.start g.circuit).1) [
  | inr no' ↦ inl (no', rejected_call q g no')
  | inl yes' ↦
      let (n, m, follows) = execute-Follows g.retry (timed_ask g.timeout q.attempts) in
      inr (
        yes',
        (
          n,
          m,
          follows,
          awaited_call q g yes'
              ∙ ap
                  (λ (o : RetryPolicy.RetryResult String). (
                    record g {
                      circuit =
                          settle q.end (ending g.exhausted_text o) (admit q.start g.circuit).0;
                      retry = record (g.retry) { tracker = (retried_ask g q).tracker };
                    },
                    ending g.exhausted_text o,
                  ))
                  follows.outcome,
        ),
      )
]

-- Each attempt of each call raises, and the calls end between two times.
abbrev pub Down : ℕ → ℕ → List Asking → Type 0
Down from to [] = Unit
Down from to (q ∷ qs) =
    ((k : ℕ) → (e : Error) × (q.attempts.run k ≡ raised e))
    × (from ≤ q.end)
    × (q.end ≤ to)
    × Down from to qs

-- What the breaker sees of the calls.
unfoldable seen : List Asking → LlmGuards → List (Attempt String)
unfolding retried_ask safe_llm_ask
seen [] g = []
seen (q ∷ qs) g =
    record { start = q.start; end = q.end; run = ending g.exhausted_text (retried_ask g q).outcome }
    ∷ seen qs (safe_llm_ask q g).0

asks-calls :
    (qs : List Asking) (g : LlmGuards)
    → (asks qs g).0.circuit ≡ (calls llm_fallback (seen qs g) g.circuit).0
unfolding asks seen
asks-calls [] g = sym (calls-nil llm_fallback g.circuit)
asks-calls (q ∷ qs) g =
    asks-calls qs (safe_llm_ask q g).0
    ∙ sym (calls-cons llm_fallback _ (seen qs (safe_llm_ask q g).0) g.circuit)

raised_verdict :
    (text : ℕ → Error → List ℕ) (p : RetryPolicy) (env : Environment String) (o : Outcome String)
    (e : Error)
    → o ≡ raised e
    → (e' : Error) × (ending text (verdict p env o) ≡ raised e')
raised_verdict text p env o e h = elim (Bool-cases (p.retryable e)) [
  | inl yes' ↦ rw (h, yes') (_, refl)
  | inr no' ↦ rw (h, no') (_, refl)
]

timed_raised :
    (c : TimeoutController) (o : Outcome String) (e : Error)
    → o ≡ raised e
    → (e' : Error) × (TimeoutController.execute c o ≡ raised e')
timed_raised c o e h = elim (Bool-cases (c.is_builtin_timeout e)) [
  | inl yes' ↦ rw (h, yes') (_, refl)
  | inr no' ↦ rw (h, no') (_, refl)
]

ask_raises :
    (q : Asking) (g : LlmGuards)
    → ((k : ℕ) → (e : Error) × (q.attempts.run k ≡ raised e))
    → (e : Error) × (ending g.exhausted_text (retried_ask g q).outcome ≡ raised e)
unfolding retried_ask
ask_raises q g down =
    let env = timed_ask g.timeout q.attempts in
    let (n, m, follows) = execute-Follows g.retry env in
    let (e, r) = down m in
    let (e', r') = timed_raised g.timeout (q.attempts.run m) e r in
    let (e'', v) = raised_verdict g.exhausted_text g.retry env (env.run m) e' r' in
    (e'', ap (λ o. ending g.exhausted_text o) follows.outcome ∙ v)

seen-FailWithin :
    (from to : ℕ) (qs : List Asking) (g : LlmGuards)
    → Down from to qs
    → FailWithin from to (seen qs g)
unfolding seen
seen-FailWithin from to [] g h = tt
seen-FailWithin from to (q ∷ qs) g (down, ge, le, rest) =
    (ask_raises q g down, ge, le, seen-FailWithin from to qs (safe_llm_ask q g).0 rest)

length-seen : (qs : List Asking) (g : LlmGuards) → length (seen qs g) ≡ length qs
unfolding seen
length-seen [] g = refl
length-seen (q ∷ qs) g = ap suc (length-seen qs (safe_llm_ask q g).0)

-- With a new breaker of the positive threshold `n`, which fits its record limit: after `n` calls while
-- each attempt raises, which end within one window, the breaker is OPEN; and a call that starts before
-- its recovery timeout is over is answered with the text of the fallback, without the model being asked
-- and without a change to the breaker or to the retries.
pub asks_outage :
    (since n timeout probes window records : ℕ) (qs : List Asking) (q : Asking) (g : LlmGuards)
    → g.circuit ≡ init n timeout probes (FailureTracker.init window records)
    → 0 < n
    → n ≤ records
    → length qs ≡ n
    → Down since (since + window) qs
    → q.start < (asks qs g).0.circuit.opened_at + (asks qs g).0.circuit.recovery_timeout
    → ((asks qs g).0.circuit.state ≡ opened)
      × (safe_llm_ask q (asks qs g).0 ≡ ((asks qs g).0, returned fallback_text))
asks_outage since n timeout probes window records qs q g new pos fits many down soon =
    let n' = length-seen qs g in
    let trip =
      calls_trip_from llm_fallback since (seen qs g) n timeout probes window records pos fits
        (omega (arith, n', many)) (seen-FailWithin since (since + window) qs g down) in
    let is_open : (asks qs g).0.circuit.state ≡ opened =
      ap (λ b. b.state) (asks-calls qs g ∙ ap (λ b. (calls llm_fallback (seen qs g) b).0) new)
      ∙ ground (arith, trip, n', many) in
    let shut = admit_opened q.start (asks qs g).0.circuit is_open soon in
    (
      is_open,
      rejected_call q (asks qs g).0 (ap (λ r. r.1) shut)
          ∙ ap (λ b. (record ((asks qs g).0) { circuit = b }, returned fallback_text))
              (ap (λ r. r.0) shut),
    )
