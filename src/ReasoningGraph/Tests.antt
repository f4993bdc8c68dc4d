-- ===== src/ReasoningGraph/Tests.antt =====
-- A graph of three nodes: `a` is completed, `b` waits for `a`, and `c` for `b`.
use text.Mathlib.TextEquality.{eq_iff}
use mathlib.Core.Bool.{false≢true}
use ai_chatbot_platform.Prelude.{
  ◌≡◌, ◌≢◌, refl, none, some, List, [], ◌∷◌, String, ◌↔◌, Distinct, lookup, put,
}
use ai_chatbot_platform.ReasoningGraph.{
  NodeStatus, pending, completed, reasoning, ReasoningNode, ReasoningGraph, added, add_node,
  get_ready_nodes, deps_met, max_dep_depth,
}
use ai_chatbot_platform.ReasoningGraph.Ready.{IsRunnable, Elem, get_ready_nodes-IsRunnable}

abbrev node : String → List String → NodeStatus → ReasoningNode
node id dependencies status = record {
  id = id;
  type = reasoning;
  task = "think";
  dependencies = dependencies;
  result = none;
  status = status;
  depth = 1;
  agent = none;
}

abbrev graph : ReasoningGraph
graph = record {
  nodes =
      ("a", node "a" [] completed)
      ∷ ("b", node "b" ("a" ∷ []) pending)
      ∷ ("c", node "c" ("b" ∷ []) pending)
      ∷ [];
  max_nodes = 50;
  max_depth = 10;
}

graph_ready : get_ready_nodes graph ≡ some ("b" ∷ [])
unfolding get_ready_nodes deps_met lookup
graph_ready = refl

ab : ◌≢◌ {A = String} "a" "b"
ab e = false≢true ((eq_iff "a" "b").1 e)

ac : ◌≢◌ {A = String} "a" "c"
ac e = false≢true ((eq_iff "a" "c").1 e)

bc : ◌≢◌ {A = String} "b" "c"
bc e = false≢true ((eq_iff "b" "c").1 e)

get_ready_nodes-IsRunnable_example :
    (Elem "b" ("b" ∷ []) ↔ IsRunnable graph.nodes "b") × Distinct ("b" ∷ [])
get_ready_nodes-IsRunnable_example =
    get_ready_nodes-IsRunnable graph ("b" ∷ []) "b" ((ab, (ac, tt)), ((bc, tt), (tt, tt)))
      graph_ready

abbrev grown : ReasoningGraph
grown = record graph {
  nodes =
      ("a", node "a" [] completed)
      ∷ ("b", node "b" ("a" ∷ []) pending)
      ∷ ("c", node "c" ("b" ∷ []) pending)
      ∷ ("d", record (node "d" ("c" ∷ []) pending) { depth = 2 })
      ∷ [];
}

graph_grows : add_node graph (node "d" ("c" ∷ []) pending) ≡ added grown
unfolding add_node max_dep_depth lookup put
graph_grows = refl
