-- ===== src/ReasoningGraph/Bounds.antt =====
-- The complexity limits of a graph that is built by `add_node`.
use ai_chatbot_platform.Prelude.{
  ℕ, ◌≤◌, ◌<◌, ◌≡◌, refl, some, List, [], ◌∷◌, String, arith, length, All, leb, ltb, Dict, put,
  length-put-le, str_eq, Bool-cases, inl, inr, Option-cases,
}
use ai_chatbot_platform.ReasoningGraph.{ReasoningNode, ReasoningGraph, added, add_node, depth_of}

pub record IsBounded (g : ReasoningGraph) : Type 0 where
  pub size : length g.nodes ≤ g.max_nodes
  pub depths : All (λ e. (1 ≤ e.1.depth) × (e.1.depth ≤ g.max_depth)) g.nodes

module _ (P : ReasoningNode → Type 0) where
  pub All-put :
      (k : String) (n : ReasoningNode) (d : Dict ReasoningNode)
      → P n
      → All (λ e. P e.1) d
      → All (λ e. P e.1) (put k n d)
  unfolding put
  All-put k n [] h a = (h, tt)
  All-put k n ((j, m) ∷ d) h a = elim (Bool-cases (str_eq j k)) [
    | inl same ↦ rw same (h, a.1)
    | inr other ↦ rw other (a.0, All-put k n d h a.1)
  ]

depth_of_pos : (d : Dict ReasoningNode) (ds : List String) (k : ℕ) → depth_of d ds ≡ some k → 1 ≤ k
unfolding depth_of
depth_of_pos d [] k h = ground arith
depth_of_pos d (e ∷ ds) k h = ground arith

grown :
    (g : ReasoningGraph) (n : ReasoningNode) (k : ℕ)
    → IsBounded g
    → length g.nodes < g.max_nodes
    → 1 ≤ k
    → k ≤ g.max_depth
    → IsBounded (record g { nodes = put n.id (record n { depth = k }) g.nodes })
grown g n k b lt pos le = record {
  size = omega (arith, length-put-le n.id (record n { depth = k }) g.nodes);
  depths =
      All-put (λ m. (1 ≤ m.depth) × (m.depth ≤ g.max_depth)) n.id (record n { depth = k }) g.nodes
        (pos, le) b.depths;
}

-- `add_node` keeps a graph within its limits of nodes and of depth, and leaves the limits alone.
pub add_node-IsBounded :
    (g g' : ReasoningGraph) (n : ReasoningNode)
    → IsBounded g
    → add_node g n ≡ added g'
    → IsBounded g' × (g'.max_nodes ≡ g.max_nodes) × (g'.max_depth ≡ g.max_depth)
unfolding add_node
add_node-IsBounded g g' n b h = elim (Bool-cases (leb g.max_nodes (length g.nodes))) [
  | inl full ↦ ground arith
  | inr room ↦ elim (Option-cases (depth_of g.nodes n.dependencies)) [
    | inl unknown ↦ ground arith
    | inr (k, e) ↦ elim (Bool-cases (ltb g.max_depth k)) [
      | inl deep ↦ ground arith
      | inr fits ↦
          let pos = depth_of_pos g.nodes n.dependencies k e in
          let q : record g { nodes = put n.id (record n { depth = k }) g.nodes } ≡ g' =
            ground arith in
          rw (← q) (grown g n k b (ground arith) pos (ground arith), refl, refl)
    ]
  ]
]
