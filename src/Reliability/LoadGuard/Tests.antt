-- ===== src/Reliability/LoadGuard/Tests.antt =====
-- A limiter of two requests and one agent, and a throttle under pressure.
use ai_chatbot_platform.Prelude.{ℕ, ◌≤◌, ◌≡◌, refl, false, some, ◌↔◌}
use ai_chatbot_platform.Reliability.CircuitBreaker.{Outcome, returned}
use ai_chatbot_platform.Reliability.LoadGuard.{
  RequestQueueLimiter, AgentExecutionLimiter, SwarmThrottle, acquire, enter_agent, new_requests,
  factor_at, total_utilization, get_effective_parallelism,
}
use ai_chatbot_platform.Reliability.LoadGuard.Slots.{
  Load, Reach, idle, here, next, ask, Reach-slots,
}

abbrev busy : Load
busy = record (idle 2 1) {
  requests = record { max_concurrent = 2; permits = 1; active = 1; total_rejected = 0 };
  running = 1;
}

one_request : Reach (idle 2 1) busy
unfolding acquire new_requests
one_request = next here (ask (idle 2 1))

Reach-slots_example :
    (1 ≤ 2)
    × (0 ≤ 1)
    × (busy.requests.active ≡ 1)
    × (busy.agents.active ≡ 0)
    × (((acquire busy.requests).1 ≡ false) ↔ (busy.running ≡ 2))
    × (((enter_agent busy.agents).1 ≡ false) ↔ (busy.looping ≡ 1))
Reach-slots_example = Reach-slots 2 1 one_request

-- All twenty agents run: a tenth of the parallelism is left.
abbrev pressed : SwarmThrottle
pressed = record {
  request_limiter =
      some (record { max_concurrent = 100; permits = 50; active = 50; total_rejected = 0 });
  agent_limiter = some (record { max_agents = 20; permits = 0; active = 20 });
  pressure_threshold = record { num = 7; den = 10 };
}

pressed_parallelism : get_effective_parallelism pressed 30 ≡ 3
unfolding get_effective_parallelism total_utilization factor_at
pressed_parallelism = refl

abbrev one_left : RequestQueueLimiter
one_left = record { max_concurrent = 2; permits = 1; active = 1; total_rejected = 0 }

abbrev agents_full : AgentExecutionLimiter
agents_full = record { max_agents = 1; permits = 0; active = 1 }

abbrev five : Outcome ℕ
five = returned 5
