-- ===== src/ReasoningGraph.antt =====
-- app/reasoning_graph/models.py: the graph of reasoning steps.
--
-- A node's result is a text; of its metadata the engine reads the key `agent` alone. `raised` cases
-- are Python's exceptions: `max()` of nothing and a missing key of a `dict` among them.
pub mod Bounds
pub mod Ready
pub mod Strategies
pub mod Engine
mod Tests
use ai_chatbot_platform.Prelude.{
  ℕ, zero, suc, ◌+◌, max, Bool, true, false, not, ◌&&◌, Option, none, some, List, [], ◌∷◌, String,
  ltb, leb, length, if◌then◌else◌, Dict, lookup, put,
}

pub data NodeStatus : Type 0 where
  pending running completed failed : NodeStatus

pub data NodeType : Type 0 where
  reasoning tool_call memory_lookup : NodeType

pub record ReasoningNode : Type 0 where
  pub id : String
  pub type : NodeType
  pub task : String
  pub dependencies : List String
  pub result : Option String
  pub status : NodeStatus
  pub depth : ℕ
  pub agent : Option String

pub record ReasoningGraph : Type 0 where
  pub nodes : Dict ReasoningNode
  pub max_nodes : ℕ
  pub max_depth : ℕ

pub data AddError : Type 0 where
  too_many_nodes no_known_dependency too_deep : AddError

pub data Added : Type 0 where
  added : ReasoningGraph → Added
  refused : AddError → Added

abbrev pub is_pending : NodeStatus → Bool
is_pending pending = true
is_pending running = false
is_pending completed = false
is_pending failed = false

abbrev pub is_completed : NodeStatus → Bool
is_completed completed = true
is_completed pending = false
is_completed running = false
is_completed failed = false

-- `max(self.nodes[d].depth for d in dependencies if d in self.nodes)`; `none` if there is none.
pub max_dep_depth : Dict ReasoningNode → List String → Option ℕ
max_dep_depth nodes [] = none
max_dep_depth nodes (d ∷ ds) =
    let rest = max_dep_depth nodes ds in
    elim (lookup d nodes) [
      | none ↦ rest
      | some n ↦ elim rest [ none ↦ some n.depth | some m ↦ some (max n.depth m) ]
    ]

depth_of : Dict ReasoningNode → List String → Option ℕ
depth_of nodes [] = some 1
depth_of nodes (d ∷ ds) = elim (max_dep_depth nodes (d ∷ ds)) [
  | none ↦ none
  | some m ↦ some (m + 1)
]

pub add_node : ReasoningGraph → ReasoningNode → Added
unfolding depth_of
add_node g node =
    if leb g.max_nodes (length g.nodes)
    then refused too_many_nodes
    else elim (depth_of g.nodes node.dependencies) [
      | none ↦ refused no_known_dependency
      | some depth ↦
          if ltb g.max_depth depth
          then refused too_deep
          else added (record g { nodes = put node.id (record node { depth = depth }) g.nodes })
    ]

-- `all(self.nodes[dep].status == COMPLETED for dep in dependencies)`, which looks no further than
-- the first one that is not completed; `none` is a `KeyError`.
unfoldable pub deps_met : Dict ReasoningNode → List String → Option Bool
deps_met nodes [] = some true
deps_met nodes (d ∷ ds) =
    let rest = deps_met nodes ds in
    elim (lookup d nodes) [
      | none ↦ none
      | some n ↦ if is_completed n.status then rest else some false
    ]

-- The keys of the ready nodes among some entries of the graph, in the order of the `dict`.
unfoldable pub ready_among : Dict ReasoningNode → Dict ReasoningNode → Option (List String)
ready_among nodes [] = some []
ready_among nodes ((k, n) ∷ rest) =
    let later = ready_among nodes rest in
    if is_pending n.status
    then elim (deps_met nodes n.dependencies) [
      | none ↦ none
      | some met ↦ if met then elim later [ none ↦ none | some ids ↦ some (k ∷ ids) ] else later
    ]
    else later

unfoldable pub get_ready_nodes : ReasoningGraph → Option (List String)
unfolding ready_among
get_ready_nodes g = ready_among g.nodes g.nodes

unfoldable pub all_completed : Dict ReasoningNode → Bool
all_completed [] = true
all_completed ((k, n) ∷ rest) = is_completed n.status && all_completed rest

unfoldable pub is_complete : ReasoningGraph → Bool
unfolding all_completed
is_complete g = all_completed g.nodes
