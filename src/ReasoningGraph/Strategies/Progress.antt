-- ===== src/ReasoningGraph/Strategies/Progress.antt =====
-- What one round of a strategy does to the graph.
use ai_chatbot_platform.Prelude.{
  ℕ, ◌+◌, ◌≤◌, ◌<◌, ◌≡◌, ◌≢◌, refl, Bool, true, false, some, List, [], ◌∷◌, String, arith, All,
  count, Dict, lookup, put, keys, keys-put, Distinct, str_eq, Bool-cases, inl, inr, ◌⊎◌, ◌∙◌,
}
use ai_chatbot_platform.ReasoningGraph.{ReasoningNode, ReasoningGraph, is_pending}
use ai_chatbot_platform.ReasoningGraph.Ready.{IsReady, IsReady-put}
use ai_chatbot_platform.ReasoningGraph.Strategies.{World, Executor, run_node, run_each, gather}

abbrev waits : String × ReasoningNode → Bool
waits e = is_pending e.1.status

-- How many nodes are pending.
abbrev pub pending_count : ReasoningGraph → ℕ
pending_count g = count waits g.nodes

count-put :
    (k : String) (n n' : ReasoningNode) (d : Dict ReasoningNode)
    → lookup k d ≡ some n
    → is_pending n.status ≡ true
    → is_pending n'.status ≡ false
    → count waits (put k n' d) + 1 ≡ count waits d
unfolding lookup put
count-put k n n' [] f p s = ground arith
count-put k n n' ((j, m) ∷ d) f p s = elim (Bool-cases (str_eq j k)) [
  | inl same ↦ rw same (ground arith)
  | inr other ↦ rw other (omega (arith, count-put k n n' d (ground arith) p s))
]

module _ {S V : Type 0} (exec : Executor S V) where
  -- A node that has been executed is not pending any more.
  abbrev pub Settles : Type 0
  Settles =
      (n : ReasoningNode) (g : ReasoningGraph) (s : S) → is_pending (exec n g s).1.status ≡ false

  run_node_ready :
      (id : String) (w : World S) (n : ReasoningNode)
      → lookup id w.graph.nodes ≡ some n
      → run_node exec id w ≡ (
        (exec n w.graph w.state).0,
        record {
          graph = record (w.graph) { nodes = put id (exec n w.graph w.state).1 w.graph.nodes };
          state = (exec n w.graph w.state).2;
        },
      )
  unfolding run_node
  run_node_ready id w n f = rw (f, run_node)

  module _ (settles : Settles) where
    -- Executing a ready node leaves one pending node less, the same keys, and other ready nodes ready.
    record Advances (id : String) (w w' : World S) : Type 0 where
      fewer : pending_count w'.graph + 1 ≡ pending_count w.graph
      same_keys : keys w'.graph.nodes ≡ keys w.graph.nodes
      others : (j : String) → id ≢ j → IsReady w.graph.nodes j → IsReady w'.graph.nodes j

    run_node-Advances :
        (id : String) (w : World S)
        → IsReady w.graph.nodes id
        → Advances id w (run_node exec id w).1
    run_node-Advances id w r =
        let n' = (exec r.node w.graph w.state).1 in
        rw (run_node_ready id w r.node r.found) (record {
          fewer =
              count-put id r.node n' w.graph.nodes r.found (ground (arith, r.waiting))
                (settles r.node w.graph w.state);
          same_keys = keys-put id n' r.node w.graph.nodes r.found;
          others = λ j ne k. IsReady-put w.graph.nodes id j r.node n' r.found r.waiting ne k;
        })

    others-IsReady :
        (id : String) (ids : List String) (w w' : World S)
        → Advances id w w'
        → All (λ j. id ≢ j) ids
        → All (IsReady w.graph.nodes) ids
        → All (IsReady w'.graph.nodes) ids
    others-IsReady id [] w w' a d r = tt
    others-IsReady id (j ∷ ids) w w' a d r =
        (a.others j d.0 r.0, others-IsReady id ids w w' a d.1 r.1)

    record Worked (w w' : World S) : Type 0 where
      no_more : pending_count w'.graph ≤ pending_count w.graph
      kept_keys : keys w'.graph.nodes ≡ keys w.graph.nodes

    gather-Worked :
        (ids : List String) (w : World S)
        → Distinct ids
        → All (IsReady w.graph.nodes) ids
        → Worked w (gather exec ids w).1
    unfolding gather
    gather-Worked [] w d r = record { no_more = omega arith; kept_keys = refl }
    gather-Worked (id ∷ ids) w d r =
        let w' = (run_node exec id w).1 in
        let a = run_node-Advances id w r.0 in
        let b = gather-Worked ids w' d.1 (others-IsReady id ids w w' a d.0 r.1) in
        record {
          no_more = omega (arith, a.fewer, b.no_more);
          kept_keys = b.kept_keys ∙ a.same_keys;
        }

    -- A batch that is not empty leaves fewer pending nodes.
    pub gather_fewer :
        (id : String) (ids : List String) (w : World S)
        → Distinct (id ∷ ids)
        → All (IsReady w.graph.nodes) (id ∷ ids)
        → (pending_count (gather exec (id ∷ ids) w).1.graph < pending_count w.graph)
          × (keys (gather exec (id ∷ ids) w).1.graph.nodes ≡ keys w.graph.nodes)
    unfolding gather
    gather_fewer id ids w d r =
        let w' = (run_node exec id w).1 in
        let a = run_node-Advances id w r.0 in
        let b = gather-Worked ids w' d.1 (others-IsReady id ids w w' a d.0 r.1) in
        (omega (arith, a.fewer, b.no_more), b.kept_keys ∙ a.same_keys)

    -- The loop over the ready nodes stops behind the first, or goes on to the others.
    run_each-cons :
        (id : String) (ids : List String) (w : World S)
        → ((run_each exec (id ∷ ids) w).1 ≡ (run_node exec id w).1)
          ⊎ ((run_each exec (id ∷ ids) w).1 ≡ (run_each exec ids (run_node exec id w).1).1)
    unfolding run_each
    run_each-cons id ids w = ground arith

    run_each-Worked :
        (ids : List String) (w : World S)
        → Distinct ids
        → All (IsReady w.graph.nodes) ids
        → Worked w (run_each exec ids w).1
    run_each-Worked [] w d r = unfold run_each in record { no_more = omega arith; kept_keys = refl }
    run_each-Worked (id ∷ ids) w d r =
        let w' = (run_node exec id w).1 in
        let a = run_node-Advances id w r.0 in
        let b = run_each-Worked ids w' d.1 (others-IsReady id ids w w' a d.0 r.1) in
        elim (run_each-cons id ids w) [
          | inl e ↦ rw e (record { no_more = omega (arith, a.fewer); kept_keys = a.same_keys })
          | inr e ↦ rw e (record {
            no_more = omega (arith, a.fewer, b.no_more);
            kept_keys = b.kept_keys ∙ a.same_keys;
          })
        ]

    pub run_each_fewer :
        (id : String) (ids : List String) (w : World S)
        → Distinct (id ∷ ids)
        → All (IsReady w.graph.nodes) (id ∷ ids)
        → (pending_count (run_each exec (id ∷ ids) w).1.graph < pending_count w.graph)
          × (keys (run_each exec (id ∷ ids) w).1.graph.nodes ≡ keys w.graph.nodes)
    run_each_fewer id ids w d r =
        let w' = (run_node exec id w).1 in
        let a = run_node-Advances id w r.0 in
        let b = run_each-Worked ids w' d.1 (others-IsReady id ids w w' a d.0 r.1) in
        elim (run_each-cons id ids w) [
          | inl e ↦ rw e (omega (arith, a.fewer), a.same_keys)
          | inr e ↦ rw e (omega (arith, a.fewer, b.no_more), b.kept_keys ∙ a.same_keys)
        ]
