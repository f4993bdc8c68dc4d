-- ===== src/Reliability/LoadGuard/Slots.antt =====
-- No more work runs at once than there are slots.
use ai_chatbot_platform.Prelude.{ℕ, suc, ◌+◌, ◌≤◌, ◌≡◌, refl, false, arith, ltb, if◌then◌else◌, ◌↔◌}
use ai_chatbot_platform.Reliability.CircuitBreaker.{Outcome}
use ai_chatbot_platform.Reliability.LoadGuard.{
  RequestQueueLimiter, AgentExecutionLimiter, ran, rejected, new_requests, new_agents, acquire,
  release, enter_agent, leave_agent, execute, execute_agent,
}

-- The limiters, and how many coroutines run under each at the moment.
pub record Load : Type 0 where
  pub requests : RequestQueueLimiter
  pub running : ℕ
  pub agents : AgentExecutionLimiter
  pub looping : ℕ

-- A task asks for a slot, or one that runs ends, by a result or by an exception.
pub data Step : Load → Load → Type 0 where
  ask :
      (w : Load)
      → Step w (record w {
        requests = (acquire w.requests).0;
        running = if (acquire w.requests).1 then w.running + 1 else w.running;
      })
  finish :
      (w : Load) (n : ℕ)
      → w.running ≡ suc n
      → Step w (record w { requests = release w.requests; running = n })
  ask_agent :
      (w : Load)
      → Step w (record w {
        agents = (enter_agent w.agents).0;
        looping = if (enter_agent w.agents).1 then w.looping + 1 else w.looping;
      })
  finish_agent :
      (w : Load) (n : ℕ)
      → w.looping ≡ suc n
      → Step w (record w { agents = leave_agent w.agents; looping = n })

pub data Reach (w : Load) : Load → Type 0 where
  here : Reach w w
  next : {u v : Load} → Reach w u → Step u v → Reach w v

pub record IsSafe (n m : ℕ) (w : Load) : Type 0 where
  pub max_concurrent : w.requests.max_concurrent ≡ n
  pub max_agents : w.agents.max_agents ≡ m
  pub active : w.requests.active ≡ w.running
  pub active_agents : w.agents.active ≡ w.looping
  pub slots : w.requests.permits + w.running ≡ n
  pub agent_slots : w.agents.permits + w.looping ≡ m

Step-IsSafe : {n m : ℕ} {w w' : Load} → Step w w' → IsSafe n m w → IsSafe n m w'
unfolding acquire release enter_agent leave_agent
Step-IsSafe (ask w) s = ground arith
Step-IsSafe (finish w k h) s = ground arith
Step-IsSafe (ask_agent w) s = ground arith
Step-IsSafe (finish_agent w k h) s = ground arith

Reach-IsSafe : {n m : ℕ} {w w' : Load} → IsSafe n m w → Reach w w' → IsSafe n m w'
Reach-IsSafe s here = s
Reach-IsSafe s (next r st) = Step-IsSafe st (Reach-IsSafe s r)

abbrev pub idle : ℕ → ℕ → Load
idle n m = record { requests = new_requests n; running = 0; agents = new_agents m; looping = 0 }

-- In every interleaving of arrivals and ends, no more requests and agents run at once than the two
-- limits, the counters `active` are exactly the numbers that run, and a new request is turned away
-- exactly if the limit is reached.
pub Reach-slots :
    (n m : ℕ) {w : Load}
    → Reach (idle n m) w
    → (w.running ≤ n)
      × (w.looping ≤ m)
      × (w.requests.active ≡ w.running)
      × (w.agents.active ≡ w.looping)
      × (((acquire w.requests).1 ≡ false) ↔ (w.running ≡ n))
      × (((enter_agent w.agents).1 ≡ false) ↔ (w.looping ≡ m))
unfolding new_requests new_agents acquire enter_agent
Reach-slots n m r =
    let s : IsSafe n m _ =
      Reach-IsSafe
        (record {
          max_concurrent = refl;
          max_agents = refl;
          active = refl;
          active_agents = refl;
          slots = omega arith;
          agent_slots = omega arith;
        })
        r in
    ground arith

-- While the other tasks leave the limiters as they find them, an execution that gets a slot gives it
-- back whatever its coroutine ends with, and one that is rejected runs nothing and only counts.
pub execute-restores :
    {A : Type 0} (run : Outcome A) (l : RequestQueueLimiter) (a : AgentExecutionLimiter)
    → (execute run (λ x. x) l ≡ (
        if ltb 0 l.permits then (l, ran run) else (
          record l { total_rejected = l.total_rejected + 1 },
          rejected l.active l.max_concurrent,
        )))
      × (execute_agent run (λ x. x) a
          ≡ (if ltb 0 a.permits then (a, ran run) else (a, rejected a.active a.max_agents)))
unfolding execute execute_agent
execute-restores run l a = (ground arith, ground arith)
