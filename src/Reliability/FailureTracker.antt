-- ===== src/Reliability/FailureTracker.antt =====
-- app/reliability/failure_tracker.py: sliding-window failure accounting.
--
-- Clock readings (`time.monotonic()`) are arguments, in ticks. A text is its list of code points.
-- `cutoff = now - window_seconds` may be negative, so `t >= cutoff` is written `now ≤ t + window`.
-- A rate is kept as its numerator and denominator. The lock makes each method one step.
mod Ascending
mod History
mod Tests
use ai_chatbot_platform.Prelude.{
  ℕ, zero, suc, ◌+◌, String, Bool, Option, none, some, List, [], ◌∷◌, leb, take, count,
  append_bounded, if◌then◌else◌, ltb, ◌≤◌,
}

abbrev pub Text : Type 0
Text = List ℕ

-- `type(error).__name__` and `str(error)`.
pub record Error : Type 0 where
  pub name : String
  pub text : Text

pub record FailureRecord : Type 0 where
  pub timestamp : ℕ
  pub error_type : String
  pub message : Text

pub record Rate : Type 0 where
  pub num : ℕ
  pub den : ℕ

pub record FailureStats : Type 0 where
  pub total_failures : ℕ
  pub total_successes : ℕ
  pub failure_rate : Rate
  pub last_failure_time : Option ℕ
  pub last_failure_type : Option String
  pub window_failures : ℕ
  pub window_successes : ℕ

pub record FailureTracker : Type 0 where
  pub window_seconds : ℕ
  pub max_records : ℕ
  pub failures : List FailureRecord
  pub success_timestamps : List ℕ
  pub total_failures : ℕ
  pub total_successes : ℕ

unfoldable pub init : ℕ → ℕ → FailureTracker
init window_seconds max_records = record {
  window_seconds = window_seconds;
  max_records = max_records;
  failures = [];
  success_timestamps = [];
  total_failures = 0;
  total_successes = 0;
}

unfoldable pub make_record : ℕ → Error → FailureRecord
make_record now e = record { timestamp = now; error_type = e.name; message = take 256 e.text }

unfoldable pub record_failure : ℕ → Error → FailureTracker → FailureTracker
record_failure now e t = record t {
  failures = append_bounded t.max_records t.failures (make_record now e);
  total_failures = t.total_failures + 1;
}

unfoldable pub record_success : ℕ → FailureTracker → FailureTracker
record_success now t = record t {
  success_timestamps = append_bounded t.max_records t.success_timestamps now;
  total_successes = t.total_successes + 1;
}

-- `timestamp >= now - window_seconds`
abbrev pub in_window : ℕ → ℕ → ℕ → Bool
in_window window now t = leb now (t + window)

pub last {ℓ} : {A : Type ℓ} → List A → Option A
last [] = none
last (x ∷ []) = some x
last (x ∷ y ∷ xs) = last (y ∷ xs)

abbrev pub window_failures_of : FailureTracker → ℕ → ℕ
window_failures_of t now = count (λ r. in_window t.window_seconds now r.timestamp) t.failures

abbrev pub window_successes_of : FailureTracker → ℕ → ℕ
window_successes_of t now = count (in_window t.window_seconds now) t.success_timestamps

abbrev rate : ℕ → ℕ → Rate
rate num den = if ltb 0 den then record { num = num; den = den } else record { num = 0; den = 1 }

unfoldable pub get_stats : FailureTracker → ℕ → FailureStats
unfolding last
get_stats t now = record {
  total_failures = t.total_failures;
  total_successes = t.total_successes;
  failure_rate =
      rate (window_failures_of t now) (window_failures_of t now + window_successes_of t now);
  last_failure_time = elim (last t.failures) [ none ↦ none | some r ↦ some r.timestamp ];
  last_failure_type = elim (last t.failures) [ none ↦ none | some r ↦ some r.error_type ];
  window_failures = window_failures_of t now;
  window_successes = window_successes_of t now;
}

unfoldable pub reset : FailureTracker → FailureTracker
reset t = record t {
  failures = [];
  success_timestamps = [];
  total_failures = 0;
  total_successes = 0;
}
