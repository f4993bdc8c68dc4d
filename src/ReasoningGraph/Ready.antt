-- ===== src/ReasoningGraph/Ready.antt =====
-- What `get_ready_nodes` returns.
use ai_chatbot_platform.Prelude.{
  ◌≡◌, ◌≢◌, refl, true, false, some, List, [], ◌∷◌, String, arith, All, Dict, lookup, put, keys,
  Distinct, lookup_entries, lookup-put_ne, lookup-put, str_eq, eq_iff, Bool-cases, Option-cases,
  inl, inr, ◌⊎◌, ◌↔◌, ◌∙◌,
}
use ai_chatbot_platform.ReasoningGraph.{
  NodeStatus, pending, completed, ReasoningNode, ReasoningGraph, is_pending, deps_met, ready_among,
  get_ready_nodes,
}

-- A pending node all of whose dependencies are completed.
pub record IsReady (nodes : Dict ReasoningNode) (id : String) : Type 0 where
  pub node : ReasoningNode
  pub found : lookup id nodes ≡ some node
  pub waiting : node.status ≡ pending
  pub met : deps_met nodes node.dependencies ≡ some true

pub deps_met-completed :
    (nodes : Dict ReasoningNode) (ds : List String)
    → deps_met nodes ds ≡ some true
    → All (λ d. (n : ReasoningNode) × (lookup d nodes ≡ some n) × (n.status ≡ completed)) ds
unfolding deps_met
deps_met-completed nodes [] h = tt
deps_met-completed nodes (d ∷ ds) h = elim (Option-cases (lookup d nodes)) [
  | inl missing ↦ ground arith
  | inr (n, e) ↦ ((n, e, ground arith), deps_met-completed nodes ds (ground arith))
]

is_pending→pending : (s : NodeStatus) → is_pending s ≡ true → s ≡ pending
is_pending→pending s h = ground arith

-- The first entry is ready, or the result is that of the other entries.
ready_among-cons :
    (nodes : Dict ReasoningNode) (k : String) (n : ReasoningNode) (rest : Dict ReasoningNode)
    (ids : List String)
    → ready_among nodes ((k, n) ∷ rest) ≡ some ids
    → ((later : List String) × (is_pending n.status ≡ true)
        × (deps_met nodes n.dependencies ≡ some true)
        × (ready_among nodes rest ≡ some later)
        × (ids ≡ k ∷ later))
      ⊎ ((ready_among nodes rest ≡ some ids)
          × ((is_pending n.status ≡ false) ⊎ (deps_met nodes n.dependencies ≡ some false)))
unfolding ready_among
ready_among-cons nodes k n rest ids h = ground arith

ready_among-IsReady :
    (nodes rest : Dict ReasoningNode) (ids : List String)
    → All (λ e. lookup e.0 nodes ≡ some e.1) rest
    → ready_among nodes rest ≡ some ids
    → All (IsReady nodes) ids
unfolding ready_among
ready_among-IsReady nodes [] ids a h = let q : [] ≡ ids = ground arith in rw (← q) tt
ready_among-IsReady nodes ((k, n) ∷ rest) ids a h = elim (ready_among-cons nodes k n rest ids h) [
  | inl (later, p, m, e, q) ↦ rw q (
    record { node = n; found = a.0; waiting = is_pending→pending n.status p; met = m },
    ready_among-IsReady nodes rest later a.1 e,
  )
  | inr (e, _) ↦ ready_among-IsReady nodes rest ids a.1 e
]

-- The ready keys are some of the entries' keys, in their order.
ready_among_other :
    (nodes rest : Dict ReasoningNode) (ids : List String) (x : String)
    → All (λ j. x ≢ j) (keys rest)
    → ready_among nodes rest ≡ some ids
    → All (λ j. x ≢ j) ids
unfolding ready_among
ready_among_other nodes [] ids x a h = let q : [] ≡ ids = ground arith in rw (← q) tt
ready_among_other nodes ((k, n) ∷ rest) ids x a h = elim (ready_among-cons nodes k n rest ids h) [
  | inl (later, p, m, e, q) ↦ rw q (a.0, ready_among_other nodes rest later x a.1 e)
  | inr (e, _) ↦ ready_among_other nodes rest ids x a.1 e
]

ready_among-Distinct :
    (nodes rest : Dict ReasoningNode) (ids : List String)
    → Distinct (keys rest)
    → ready_among nodes rest ≡ some ids
    → Distinct ids
unfolding ready_among
ready_among-Distinct nodes [] ids a h = let q : [] ≡ ids = ground arith in rw (← q) tt
ready_among-Distinct nodes ((k, n) ∷ rest) ids a h = elim (ready_among-cons nodes k n rest ids h) [
  | inl (later, p, m, e, q) ↦
      rw q (ready_among_other nodes rest later k a.0 e, ready_among-Distinct nodes rest later a.1 e)
  | inr (e, _) ↦ ready_among-Distinct nodes rest ids a.1 e
]

abbrev pub Elem : String → List String → Type 0
Elem x [] = ⊥
Elem x (y ∷ ys) = (x ≡ y) ⊎ Elem x ys

ready_among-Elem :
    (nodes rest : Dict ReasoningNode) (ids : List String) (id : String) (node : ReasoningNode)
    → lookup id rest ≡ some node
    → node.status ≡ pending
    → deps_met nodes node.dependencies ≡ some true
    → ready_among nodes rest ≡ some ids
    → Elem id ids
unfolding lookup
ready_among-Elem nodes [] ids id node f w m h = ground arith
ready_among-Elem nodes ((k, n) ∷ rest) ids id node f w m h =
    elim (ready_among-cons nodes k n rest ids h) [
      | inl (later, p, met, e, q) ↦ elim (Bool-cases (str_eq k id)) [
        | inl same ↦ rw q (inl (ground (arith, eq_iff k id)))
        | inr other ↦ rw q (inr (ready_among-Elem nodes rest later id node (ground arith) w m e))
      ]
      | inr (e, skipped) ↦ elim (Bool-cases (str_eq k id)) [
        | inl same ↦ ground arith
        | inr other ↦ ready_among-Elem nodes rest ids id node (ground arith) w m e
      ]
    ]

Elem-IsReady :
    (nodes : Dict ReasoningNode) (id : String) (ids : List String)
    → All (IsReady nodes) ids
    → Elem id ids
    → IsReady nodes id
Elem-IsReady nodes id [] a m = absurd m
Elem-IsReady nodes id (j ∷ ids) a (inl e) = rw e a.0
Elem-IsReady nodes id (j ∷ ids) a (inr m) = Elem-IsReady nodes id ids a.1 m

-- What follows from a successful call on a graph in which no key stands twice.
pub get_ready_nodes_sound :
    (g : ReasoningGraph) (ids : List String)
    → Distinct (keys g.nodes)
    → get_ready_nodes g ≡ some ids
    → All (IsReady g.nodes) ids × Distinct ids
unfolding get_ready_nodes
get_ready_nodes_sound g ids d h = (
  ready_among-IsReady g.nodes g.nodes ids (lookup_entries g.nodes d) h,
  ready_among-Distinct g.nodes g.nodes ids d h,
)

-- A node that may run: it is pending, and each of its dependencies is in the graph and completed.
pub record IsRunnable (nodes : Dict ReasoningNode) (id : String) : Type 0 where
  pub node : ReasoningNode
  pub found : lookup id nodes ≡ some node
  pub waiting : node.status ≡ pending
  pub done :
      All
        (λ d. (n : ReasoningNode) × (lookup d nodes ≡ some n) × (n.status ≡ completed))
        node.dependencies

completed-deps_met :
    (nodes : Dict ReasoningNode) (ds : List String)
    → All (λ d. (n : ReasoningNode) × (lookup d nodes ≡ some n) × (n.status ≡ completed)) ds
    → deps_met nodes ds ≡ some true
unfolding deps_met
completed-deps_met nodes [] a = refl
completed-deps_met nodes (d ∷ ds) ((n, found, done), rest) =
    rw (found, done, deps_met) (completed-deps_met nodes ds rest)

-- If no key stands twice and `get_ready_nodes` meets no missing dependency, it returns a node exactly
-- if that is in the graph and pending and each of its dependencies is in the graph and completed, and it
-- returns none twice.
pub get_ready_nodes-IsRunnable :
    (g : ReasoningGraph) (ids : List String) (id : String)
    → Distinct (keys g.nodes)
    → get_ready_nodes g ≡ some ids
    → (Elem id ids ↔ IsRunnable g.nodes id) × Distinct ids
unfolding get_ready_nodes
get_ready_nodes-IsRunnable g ids id d h =
    let sound = get_ready_nodes_sound g ids d h in
    (
      (
        λ m.
            let r = Elem-IsReady g.nodes id ids sound.0 m in
            record {
              node = r.node;
              found = r.found;
              waiting = r.waiting;
              done = deps_met-completed g.nodes r.node.dependencies r.met;
            },
        λ r.
            ready_among-Elem g.nodes g.nodes ids id r.node r.found r.waiting
              (completed-deps_met g.nodes r.node.dependencies r.done) h,
      ),
      sound.1,
    )

-- The node of a key changes, and the dependencies of another node stay met.
deps_met-put :
    (nodes : Dict ReasoningNode) (id : String) (n n' : ReasoningNode) (ds : List String)
    → lookup id nodes ≡ some n
    → n.status ≡ pending
    → deps_met nodes ds ≡ some true
    → deps_met (put id n' nodes) ds ≡ some true
unfolding deps_met
deps_met-put nodes id n n' [] f w h = refl
deps_met-put nodes id n n' (d ∷ ds) f w h = elim (Option-cases (lookup d nodes)) [
  | inl missing ↦ ground arith
  | inr (m, e) ↦
      ground (arith, eq_iff id d, lookup-put id d n' nodes, deps_met-put nodes id n n' ds f w)
]

-- Ready nodes stay ready while another pending node is worked on.
pub IsReady-put :
    (nodes : Dict ReasoningNode) (id j : String) (n n' : ReasoningNode)
    → lookup id nodes ≡ some n
    → n.status ≡ pending
    → id ≢ j
    → IsReady nodes j
    → IsReady (put id n' nodes) j
IsReady-put nodes id j n n' f w ne r = record {
  node = r.node;
  found = lookup-put_ne id j n' nodes ne ∙ r.found;
  waiting = r.waiting;
  met = deps_met-put nodes id n n' r.node.dependencies f w r.met;
}
