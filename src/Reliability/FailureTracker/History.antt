-- ===== src/Reliability/FailureTracker/History.antt =====
-- The tracker against an unbounded history of the events since the last reset.
use ai_chatbot_platform.Prelude.{
  ℕ, ◌≤◌, min, ◌≡◌, refl, sym, List, [], ◌∷◌, ◌++◌, arith, length, drop-nil, last_n, count,
  append_bounded-last_n, length-append,
}
use ai_chatbot_platform.Reliability.FailureTracker.Ascending.{
  Ascending, Ascending-later, Ascending-append, count-last_n,
}
use ai_chatbot_platform.Reliability.FailureTracker.{
  Error, FailureRecord, FailureTracker, init, make_record, record_failure, record_success,
  in_window, get_stats, reset,
}

-- What happened to a tracker, oldest first.
pub data Event : Type 0 where
  failed : ℕ → Error → Event
  succeeded : ℕ → Event
  cleared : Event

pub step : FailureTracker → Event → FailureTracker
step t (failed now e) = record_failure now e t
step t (succeeded now) = record_success now t
step t cleared = reset t

unfoldable pub replay : FailureTracker → List Event → FailureTracker
unfolding step
replay t [] = t
replay t (e ∷ es) = replay (step t e) es

-- The history keeps everything since the last reset.
pub record History : Type 0 where
  pub failures : List FailureRecord
  pub successes : List ℕ

abbrev pub empty : History
empty = record { failures = []; successes = [] }

pub note : History → Event → History
note h (failed now e) = record h { failures = h.failures ++ make_record now e ∷ [] }
note h (succeeded now) = record h { successes = h.successes ++ now ∷ [] }
note h cleared = empty

unfoldable pub history : History → List Event → History
unfolding note
history h [] = h
history h (e ∷ es) = history (note h e) es

-- The tracker holds the last `max_records` entries of each kind, and exact totals.
pub record Tracks (w m : ℕ) (t : FailureTracker) (h : History) : Type 0 where
  pub window_seconds : t.window_seconds ≡ w
  pub max_records : t.max_records ≡ m
  pub failures : t.failures ≡ last_n m h.failures
  pub successes : t.success_timestamps ≡ last_n m h.successes
  pub total_failures : t.total_failures ≡ length h.failures
  pub total_successes : t.total_successes ≡ length h.successes

module _ {w m : ℕ} where
  step-Tracks :
      {t : FailureTracker} {h : History} (e : Event)
      → Tracks w m t h
      → Tracks w m (step t e) (note h e)
  unfolding step note record_failure record_success reset
  step-Tracks {t} {h} (failed now e) k = record {
    window_seconds = k.window_seconds;
    max_records = k.max_records;
    failures =
        rw (k.failures, k.max_records) (append_bounded-last_n m h.failures (make_record now e));
    successes = k.successes;
    total_failures =
        omega (arith, length-append h.failures (make_record now e ∷ []), k.total_failures);
    total_successes = k.total_successes;
  }
  step-Tracks {t} {h} (succeeded now) k = record {
    window_seconds = k.window_seconds;
    max_records = k.max_records;
    failures = k.failures;
    successes = rw (k.successes, k.max_records) (append_bounded-last_n m h.successes now);
    total_failures = k.total_failures;
    total_successes = omega (arith, length-append h.successes (now ∷ []), k.total_successes);
  }
  step-Tracks cleared k = record {
    window_seconds = k.window_seconds;
    max_records = k.max_records;
    failures = sym (drop-nil _);
    successes = sym (drop-nil _);
    total_failures = refl;
    total_successes = refl;
  }

  replay-Tracks :
      (es : List Event) {t : FailureTracker} {h : History}
      → Tracks w m t h
      → Tracks w m (replay t es) (history h es)
  unfolding replay history
  replay-Tracks [] k = k
  replay-Tracks (e ∷ es) k = replay-Tracks es (step-Tracks e k)

init-Tracks : (w m : ℕ) → Tracks w m (init w m) empty
unfolding init
init-Tracks w m = record {
  window_seconds = refl;
  max_records = refl;
  failures = sym (drop-nil _);
  successes = sym (drop-nil _);
  total_failures = refl;
  total_successes = refl;
}

-- The clock never runs back: the events after `now` are in order, and the last is at `end`.
abbrev pub InOrder : ℕ → List Event → ℕ → Type 0
InOrder now [] end = now ≤ end
InOrder now (failed t e ∷ es) end = (now ≤ t) × InOrder t es end
InOrder now (succeeded t ∷ es) end = (now ≤ t) × InOrder t es end
InOrder now (cleared ∷ es) end = InOrder now es end

abbrev stamp : FailureRecord → ℕ
stamp r = r.timestamp

record IsOrdered (h : History) (now : ℕ) : Type 0 where
  failures : Ascending stamp 0 h.failures now
  successes : Ascending (λ t. t) 0 h.successes now

empty-IsOrdered : IsOrdered empty 0
empty-IsOrdered = record { failures = omega arith; successes = omega arith }

history-IsOrdered :
    (es : List Event) (now end : ℕ) {h : History}
    → IsOrdered h now
    → InOrder now es end
    → IsOrdered (history h es) end
unfolding history note make_record
history-IsOrdered [] now end {h} k o = record {
  failures = Ascending-later stamp 0 now end h.failures o k.failures;
  successes = Ascending-later (λ t. t) 0 now end h.successes o k.successes;
}
history-IsOrdered (failed t e ∷ es) now end {h} k o =
    history-IsOrdered es t end
      (record {
        failures = Ascending-append stamp 0 now h.failures (make_record t e) o.0 k.failures;
        successes = Ascending-later (λ t. t) 0 now t h.successes o.0 k.successes;
      })
      o.1
history-IsOrdered (succeeded t ∷ es) now end {h} k o =
    history-IsOrdered es t end
      (record {
        failures = Ascending-later stamp 0 now t h.failures o.0 k.failures;
        successes = Ascending-append (λ t. t) 0 now h.successes t o.0 k.successes;
      })
      o.1
history-IsOrdered (cleared ∷ es) now end k o =
    history-IsOrdered es now end (record { failures = omega arith; successes = omega arith }) o

-- The tracker after some events, and the unbounded history of the same events.
module _ (w m : ℕ) (es : List Event) where
  abbrev pub tracked : FailureTracker
  tracked = replay (init w m) es

  abbrev pub recorded : History
  recorded = history empty es

  -- For a clock that never runs back, a snapshot of a new tracker after any failures, successes
  -- and resets counts exactly the failures and the successes since the last reset that lie in the
  -- window, up to `max_records` of each, and the totals are exact.
  pub get_stats-replay :
      (end now : ℕ)
      → InOrder 0 es end
      → ((get_stats tracked now).window_failures
          ≡ min m (count (λ r. in_window w now r.timestamp) recorded.failures))
        × ((get_stats tracked now).window_successes
            ≡ min m (count (in_window w now) recorded.successes))
        × ((get_stats tracked now).total_failures ≡ length recorded.failures)
        × ((get_stats tracked now).total_successes ≡ length recorded.successes)
  unfolding get_stats
  get_stats-replay end now o =
      let k = replay-Tracks {w = w} {m = m} es (init-Tracks w m) in
      let a = history-IsOrdered es 0 end {h = empty} empty-IsOrdered o in
      (
        rw (k.failures, k.window_seconds)
            (count-last_n stamp w now 0 end m recorded.failures a.failures),
        rw (k.successes, k.window_seconds)
            (count-last_n (λ t. t) w now 0 end m recorded.successes a.successes),
        k.total_failures,
        k.total_successes,
      )
