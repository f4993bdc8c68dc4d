-- ===== src/Reliability/CircuitBreaker/Trip.antt =====
-- When failures open a CLOSED circuit.
use ai_chatbot_platform.Prelude.{
  ℕ, ◌+◌, ◌≤◌, ◌<◌, ◌≡◌, refl, Option, none, List, [], ◌∷◌, ◌++◌, map, arith, leb, ◌==◌, le→leb,
  length, count-All, All, All-append, All-map, append_bounded_of_lt, length-append, if◌then◌else◌,
}
use ai_chatbot_platform.Reliability.FailureTracker
use ai_chatbot_platform.Reliability.FailureTracker.{
  Error, FailureRecord, FailureTracker, make_record, record_failure, in_window, get_stats,
}
use ai_chatbot_platform.Reliability.CircuitBreaker.{
  closed, opened, CircuitBreaker, Outcome, raised, done, Attempt, init, admit, on_failure, settle,
  call, calls,
}

-- Every failure that the tracker holds is of the time `since` or later.
abbrev Since : ℕ → FailureTracker → Type 0
Since since t = All (λ (r : FailureRecord). since ≤ r.timestamp) t.failures

module _ (since : ℕ) (t : FailureTracker) (now : ℕ) (e : Error) where
  window-record_failure :
      length t.failures < t.max_records
      → Since since t
      → since ≤ now
      → now ≤ since + t.window_seconds
      → ((get_stats (record_failure now e t) now).window_failures ≡ length t.failures + 1)
        × (length (record_failure now e t).failures ≡ length t.failures + 1)
        × Since since (record_failure now e t)
  unfolding get_stats record_failure make_record
  window-record_failure room recent le near =
      let r = make_record now e in
      let held =
        All-append (λ (x : FailureRecord). since ≤ x.timestamp) t.failures (r ∷ []) recent
          (le, tt) in
      let seen =
        All-map (λ x h. le→leb now (x.timestamp + t.window_seconds) (omega arith))
          (t.failures ++ r ∷ []) held in
      let n = length-append t.failures (r ∷ []) in
      rw (append_bounded_of_lt t.max_records t.failures r room) (
        omega (
          arith,
          n,
          count-All (λ x. in_window t.window_seconds now x.timestamp) (t.failures ++ r ∷ []) seen,
        ),
        omega (arith, n),
        held,
      )

on_failure_closed :
    (now : ℕ) (e : Error) (b : CircuitBreaker)
    → b.state ≡ closed
    → on_failure now e b ≡ (
        let t = record_failure now e b.tracker in
        if leb b.failure_threshold (get_stats t now).window_failures
        then record b { tracker = t; state = opened; opened_at = now }
        else record b { tracker = t })
unfolding on_failure
on_failure_closed now e b s = ground arith

on_failure_below :
    (now : ℕ) (e : Error) (b : CircuitBreaker)
    → b.state ≡ closed
    → (get_stats (record_failure now e b.tracker) now).window_failures < b.failure_threshold
    → on_failure now e b ≡ record b { tracker = record_failure now e b.tracker }
on_failure_below now e b s h = rw (on_failure_closed now e b s) (ground arith)

module _ {ℓ} {A : Type ℓ} where
  -- Attempts whose coroutines all raise, and end between two times.
  abbrev pub FailWithin : ℕ → ℕ → List (Attempt A) → Type ℓ
  FailWithin from to [] = Unit
  FailWithin from to (a ∷ as') =
      ((e : Error) × (a.run ≡ raised e)) × (from ≤ a.end) × (a.end ≤ to) × FailWithin from to as'

  call_closed :
      (fallback : Option (Outcome A)) (a : Attempt A) (e : Error) (b : CircuitBreaker)
      → b.state ≡ closed
      → a.run ≡ raised e
      → call fallback a.start a.end a.run b ≡ (on_failure a.end e b, done a.run)
  unfolding call admit settle
  call_closed fallback a e b s r = ground arith

  trip_from :
      (fallback : Option (Outcome A)) (since : ℕ) (as' : List (Attempt A)) (b : CircuitBreaker)
      → b.state ≡ closed
      → b.failure_threshold ≤ b.tracker.max_records
      → length b.tracker.failures < b.failure_threshold
      → Since since b.tracker
      → FailWithin since (since + b.tracker.window_seconds) as'
      → length b.tracker.failures + length as' ≤ b.failure_threshold
      → ((calls fallback as' b).0.state ≡ (
          if length b.tracker.failures + length as' == b.failure_threshold then opened else closed))
        × ((calls fallback as' b).1 ≡ map (λ a. done a.run) as')
  unfolding calls record_failure
  trip_from fallback since [] b s m lt r f le = ground arith
  trip_from fallback since (a ∷ []) b s m lt r ((e, f), ge, near, rest) le =
      let (seen, _, _) = window-record_failure since b.tracker a.end e (omega arith) r ge near in
      rw (call_closed fallback a e b s f, on_failure_closed a.end e b s) (ground (arith, seen))
  trip_from fallback since (a ∷ (a' ∷ as')) b s m lt r ((e, f), ge, near, rest) le =
      let t = record_failure a.end e b.tracker in
      let (seen, n, held) = window-record_failure since b.tracker a.end e (omega arith) r ge near in
      let kept =
        trip_from fallback since (a' ∷ as') (record b { tracker = t }) s m (omega (arith, n)) held
          rest (omega (arith, n)) in
      rw (call_closed fallback a e b s f, on_failure_below a.end e b s (omega (arith, seen)))
        (ground (arith, kept, n))

  -- `calls_trip` for a breaker with a fallback.
  pub calls_trip_from :
      (fallback : Option (Outcome A)) (since : ℕ) (as' : List (Attempt A))
      (n timeout probes window records : ℕ)
      → 0 < n
      → n ≤ records
      → length as' ≤ n
      → FailWithin since (since + window) as'
      → ((calls fallback as' (init n timeout probes (FailureTracker.init window records))).0.state
          ≡ (if length as' == n then opened else closed))
        × ((calls fallback as' (init n timeout probes (FailureTracker.init window records))).1
            ≡ map (λ a. done a.run) as')
  unfolding init FailureTracker.init
  calls_trip_from fallback since as' n timeout probes window records pos fits le f =
      let b = init n timeout probes (FailureTracker.init window records) in
      ground (arith, trip_from fallback since as' b refl fits pos tt f (omega arith))

  -- A new breaker with a positive threshold that fits the record limit, whose calls all fail
  -- within one window of its tracker and are at most as many as the threshold, is OPEN after them
  -- exactly if they are as many as the threshold, and CLOSED otherwise; every one of these calls
  -- is awaited and its error passed on.
  pub calls_trip :
      (since : ℕ) (as' : List (Attempt A)) (n timeout probes window records : ℕ)
      → 0 < n
      → n ≤ records
      → length as' ≤ n
      → FailWithin since (since + window) as'
      → ((calls none as' (init n timeout probes (FailureTracker.init window records))).0.state
          ≡ (if length as' == n then opened else closed))
        × ((calls none as' (init n timeout probes (FailureTracker.init window records))).1
            ≡ map (λ a. done a.run) as')
  calls_trip since as' n timeout probes window records pos fits le f =
      calls_trip_from none since as' n timeout probes window records pos fits le f
