-- ===== src/Reliability/FailureTracker/Tests.antt =====
-- Runs of the failure tracker on concrete events.
use ai_chatbot_platform.Prelude.{
  ◌≡◌, refl, some, List, [], ◌∷◌, min, count, append_bounded, length, arith,
}
use ai_chatbot_platform.Reliability.FailureTracker.{
  Error, init, make_record, record_failure, record_success, in_window, get_stats, reset,
}
use ai_chatbot_platform.Reliability.FailureTracker.History.{
  Event, failed, succeeded, cleared, replay, history, get_stats-replay, tracked, recorded,
}

abbrev lost : Error
lost = record { name = "ConnectionError"; text = 104 ∷ 105 ∷ [] }

abbrev events : List Event
events =
    failed 1 lost
    ∷ cleared
    ∷ failed 5 lost
    ∷ succeeded 9
    ∷ failed 20 lost
    ∷ failed 70 lost
    ∷ failed 71 lost
    ∷ []

program : Unit {0}
unfolding replay history get_stats record_failure record_success make_record init reset
    append_bounded
program = tt

-- The oldest failure in the window, at 20, is lost: only two records are kept.
two_kept : (get_stats (replay (init 60 2) events) 72).window_failures ≡ 2
unfolding program
two_kept = refl

last_seen : (get_stats (replay (init 60 2) events) 72).last_failure_time ≡ some 71
unfolding program
last_seen = refl

get_stats-replay_example :
    ((get_stats (tracked 60 2 events) 72).window_failures
      ≡ min 2 (count (λ r. in_window 60 72 r.timestamp) (recorded 60 2 events).failures))
    × ((get_stats (tracked 60 2 events) 72).window_successes
        ≡ min 2 (count (in_window 60 72) (recorded 60 2 events).successes))
    × ((get_stats (tracked 60 2 events) 72).total_failures ≡ length (recorded 60 2 events).failures)
    × ((get_stats (tracked 60 2 events) 72).total_successes
        ≡ length (recorded 60 2 events).successes)
get_stats-replay_example = get_stats-replay 60 2 events 71 72 (omega arith)
