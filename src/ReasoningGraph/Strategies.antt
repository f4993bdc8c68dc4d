-- ===== src/ReasoningGraph/Strategies.antt =====
-- app/swarm/execution.py: the two strategies that run a graph.
--
-- An executor is the node's code: from the node, the graph and the agent state it gives how it ends,
-- the node as it leaves it, and the state. It writes no other node, as `_execute_node` does not. The
-- coroutines of one swarm batch run one after the other here, which is one of their interleavings.
-- Fuel counts the rounds of the `while` loop. A cancellation of the task strikes while it awaits a batch;
-- what the coroutines of that batch leave behind is then a parameter.
pub mod Progress
pub mod Endings
pub mod Swarming
use ai_chatbot_platform.Prelude.{
  ℕ, zero, suc, ◌+◌, ◌-◌, min, Bool, true, false, Option, none, some, List, [], ◌∷◌, ◌++◌, String,
  leb, length, take, if◌then◌else◌, lookup, put,
}
use ai_chatbot_platform.Reliability.FailureTracker.{Error}
use ai_chatbot_platform.Reliability.CircuitBreaker.{Outcome, returned, raised}
use ai_chatbot_platform.ReasoningGraph.{ReasoningNode, ReasoningGraph, get_ready_nodes, is_complete}

pub record World (S : Type 0) : Type 0 where
  pub graph : ReasoningGraph
  pub state : S

abbrev pub Executor : Type 0 → Type 0 → Type 0
Executor S V = ReasoningNode → ReasoningGraph → S → Outcome V × ReasoningNode × S

pub data Ended (V : Type 0) : Type 0 where
  finished : List V → Ended V
  stopped : Error → Ended V
  -- with `CancelledError`
  cancelled : Ended V
  out_of_fuel : Ended V

abbrev pub key_error : Error
key_error = record { name = "KeyError"; text = [] }

module _ {S V : Type 0} (exec : Executor S V) where
  -- One call of `executor_fn` on a node of the graph.
  unfoldable pub run_node : String → World S → Outcome V × World S
  run_node id w = elim (lookup id w.graph.nodes) [
    | none ↦ (raised key_error, w)
    | some n ↦
        let (o, n', s) = exec n w.graph w.state in
        (o, record { graph = record (w.graph) { nodes = put id n' w.graph.nodes }; state = s })
  ]

  -- The `for` loop of `SequentialExecution`: an exception ends it.
  unfoldable pub run_each : List String → World S → Outcome (List V) × World S
  run_each [] w = (returned [], w)
  run_each (id ∷ ids) w =
      let (o, w') = run_node id w in
      let (os, w'') = run_each ids w' in
      elim o [
        | raised e ↦ (raised e, w')
        | returned v ↦ elim os [
          | raised e ↦ (raised e, w'')
          | returned vs ↦ (returned (v ∷ vs), w'')
        ]
      ]

  -- `asyncio.gather(…, return_exceptions=True)`, and the results that are no exceptions.
  unfoldable pub gather : List String → World S → List V × World S
  gather [] w = ([], w)
  gather (id ∷ ids) w =
      let (o, w') = run_node id w in
      let (vs, w'') = gather ids w' in (elim o [ raised e ↦ vs | returned v ↦ v ∷ vs ], w'')

  unfoldable pub sequential : ℕ → List V → World S → Ended V × World S
  sequential zero acc w = (out_of_fuel, w)
  sequential (suc fuel) acc w = elim (is_complete w.graph) [
    | true ↦ (finished acc, w)
    | false ↦ elim (get_ready_nodes w.graph) [
      | none ↦ (stopped key_error, w)
      | some [] ↦ (finished acc, w)
      | some (id ∷ ids) ↦
          let (o, w') = run_each (id ∷ ids) w in
          elim o [ raised e ↦ (stopped e, w') | returned vs ↦ sequential fuel (acc ++ vs) w' ]
    ]
  ]

-- The limits of a `SwarmExecution`, and the agents that run.
pub record Swarm : Type 0 where
  pub max_agents : ℕ
  pub max_parallel : ℕ
  pub active_agents : ℕ

-- `min(len(ready), max_parallel, max_agents - active)`, or 1 where that is not positive.
unfoldable pub batch_size : Swarm → ℕ → ℕ
batch_size c ready =
    let size = min ready (min c.max_parallel (c.max_agents - c.active_agents)) in
    if leb size 0 then 1 else size

-- When the task is cancelled, if at all: the round, counted from the next one, whose batch is awaited,
-- and the world that the coroutines of the batch leave.
abbrev pub Cancellation : Type 0 → Type 0
Cancellation S = Option (ℕ × World S)

abbrev pub struck : {S : Type 0} → Cancellation S → Option (World S)
struck none = none
struck (some (zero, left)) = some left
struck (some (suc k, left)) = none

-- The same cancellation, seen from one round later.
abbrev pub later : {S : Type 0} → Cancellation S → Cancellation S
later none = none
later (some (k, left)) = some (k - 1, left)

module _ {S V : Type 0} (exec : Executor S V) where
  unfoldable pub swarm : ℕ → Cancellation S → List V → Swarm → World S → Ended V × Swarm × World S
  swarm zero cancel acc c w = (out_of_fuel, c, w)
  swarm (suc fuel) cancel acc c w = elim (is_complete w.graph) [
    | true ↦ (finished acc, c, w)
    | false ↦ elim (get_ready_nodes w.graph) [
      | none ↦ (stopped key_error, c, w)
      | some [] ↦ (finished acc, c, w)
      | some (id ∷ ids) ↦
          let batch = take (batch_size c (length (id ∷ ids))) (id ∷ ids) in
          let during = record c { active_agents = c.active_agents + length batch } in
          let (vs, w') = gather exec batch w in
          elim (struck cancel) [
            | some left ↦ (cancelled, during, left)
            | none ↦
                swarm fuel (later cancel) (acc ++ vs)
                  (record during { active_agents = during.active_agents - length batch }) w'
          ]
    ]
  ]
