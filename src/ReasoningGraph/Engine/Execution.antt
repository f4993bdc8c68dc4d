-- ===== src/ReasoningGraph/Engine/Execution.antt =====
-- The engine keeps the contract of the strategies, and with the swarm it always comes to an end.
use ai_chatbot_platform.Prelude.{
  suc, ◌+◌, ◌<◌, ◌≡◌, refl, false, none, some, [], arith, keys, Distinct, ◌⊎◌, Bool-cases, inl, inr,
}
use ai_chatbot_platform.Reliability.CircuitBreaker.{raised}
use ai_chatbot_platform.Watchdog.{AgentExecutionContext, in_budget, record_iteration, check}
use ai_chatbot_platform.Watchdog.Budget.{check_exact}
use ai_chatbot_platform.ReasoningGraph.{ReasoningNode, ReasoningGraph, running, is_pending}
use ai_chatbot_platform.ReasoningGraph.Strategies.{World, Swarm, swarm}
use ai_chatbot_platform.ReasoningGraph.Strategies.Progress.{pending_count, Settles}
use ai_chatbot_platform.ReasoningGraph.Strategies.Swarming.{EndsCalm, swarm-EndsCalm}
use ai_chatbot_platform.ReasoningGraph.Engine.{
  Services, Session, Work, worked, crashed, over_budget, spend, do_work, conclude, execute_node,
  budget_error,
}

module _ (sv : Services) where
  conclude-settles :
      (n : ReasoningNode) (w : Work) (s : Session) → is_pending (conclude sv n w s).1.status ≡ false
  unfolding conclude
  conclude-settles n (worked r v) s = refl
  conclude-settles n (crashed e) s = refl
  conclude-settles n over_budget s = refl

  -- The engine's executor leaves no node pending.
  pub execute_node-Settles : Settles (execute_node sv)
  unfolding execute_node
  execute_node-Settles n g s =
      let n' = record n { status = running } in
      let (ok, s') = spend sv record_iteration s in
      let (w, s'') = do_work sv n' g s' in
      elim (Bool-cases ok) [
        | inl yes' ↦ rw (yes', execute_node) (conclude-settles n' w s'')
        | inr no' ↦ rw (no', execute_node) (conclude-settles n' over_budget s')
      ]

  -- Whatever the services do, a run of the engine with the swarm that no one cancels comes to an end on every graph in which no key
  -- stands twice: with a graph that is complete or has no ready node, or with the `KeyError` of a missing
  -- dependency. It never passes on that the budget is exceeded.
  pub execute_ends :
      (w : World Session) (c : Swarm)
      → Distinct (keys w.graph.nodes)
      → EndsCalm
          (execute_node sv)
          c.active_agents
          (swarm (execute_node sv) (suc (pending_count w.graph)) none [] c w)
  execute_ends w c d = swarm-EndsCalm (execute_node sv) w c execute_node-Settles d

  -- The first budget check of a node.
  spend_iteration :
      (s : Session) (c : AgentExecutionContext)
      → s.exec_ctx ≡ some c
      → ((check (sv.clock s.readings) (record_iteration c)).0 ≡ in_budget)
        ⊎ (((spend sv record_iteration s).0 ≡ false)
            × ((spend sv record_iteration s).1.state ≡ s.state))
  unfolding spend
  spend_iteration s c e = ground arith

  execute_node_stops :
      (n : ReasoningNode) (g : ReasoningGraph) (s : Session)
      → (spend sv record_iteration s).0 ≡ false
      → execute_node sv n g s
        ≡ (raised budget_error, record n { status = running }, (spend sv record_iteration s).1)
  unfolding execute_node conclude
  execute_node_stops n g s e = rw (e, execute_node)

  -- Under a watchdog context, a node is worked on only if the execution is not cancelled, counting this
  -- node keeps it below its limit of iterations, and the tool calls and the time are below theirs;
  -- otherwise the budget exception is raised, the node is left RUNNING, and the agent state is as before.
  pub execute_node_budget :
      (n : ReasoningNode) (g : ReasoningGraph) (s : Session) (c : AgentExecutionContext)
      → s.exec_ctx ≡ some c
      → ((c.is_cancelled ≡ false)
          × (c.iteration_count + 1 < c.max_iterations)
          × (c.tool_call_count < c.max_tool_calls)
          × (sv.clock s.readings < c.start_time + c.max_runtime_seconds))
        ⊎ (((execute_node sv n g s).0 ≡ raised budget_error)
            × ((execute_node sv n g s).1.status ≡ running)
            × ((execute_node sv n g s).2.state ≡ s.state))
  unfolding record_iteration
  execute_node_budget n g s c e = elim (spend_iteration s c e) [
    | inl passed ↦ inl (
        (check_exact (sv.clock s.readings)
            (record c { iteration_count = c.iteration_count + 1 })).0.0
          passed)
    | inr (stops, same) ↦ rw (execute_node_stops n g s stops) (inr (refl, refl, same))
  ]
