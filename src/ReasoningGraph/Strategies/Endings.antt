-- ===== src/ReasoningGraph/Strategies/Endings.antt =====
-- Both strategies come to an end, and where they end.
use ai_chatbot_platform.Prelude.{
  ℕ, zero, suc, ◌<◌, ◌≡◌, refl, true, false, none, some, List, [], ◌∷◌, ◌++◌, String, arith, keys,
  Distinct, Bool-cases, Option-cases, List-cases, inl, inr, ◌⊎◌,
}
use ai_chatbot_platform.Reliability.FailureTracker.{Error}
use ai_chatbot_platform.Reliability.CircuitBreaker.{returned, raised}
use ai_chatbot_platform.Reliability.RetryPolicy.Attempts.{Outcome-cases}
use ai_chatbot_platform.ReasoningGraph.{ReasoningGraph, get_ready_nodes, is_complete}
use ai_chatbot_platform.ReasoningGraph.Ready.{get_ready_nodes_sound}
use ai_chatbot_platform.ReasoningGraph.Strategies.{
  World, Executor, Ended, finished, stopped, key_error, run_each, sequential,
}
use ai_chatbot_platform.ReasoningGraph.Strategies.Progress.{pending_count, Settles, run_each_fewer}

-- Nothing is left that could run: the graph is complete, or no node is ready.
abbrev pub IsQuiet : ReasoningGraph → Type 0
IsQuiet g = (is_complete g ≡ true) ⊎ (get_ready_nodes g ≡ some [])

-- What the next round of a strategy finds.
pub data Round (g : ReasoningGraph) : Type 0 where
  quiet : is_complete g ≡ true → Round g
  missing : is_complete g ≡ false → get_ready_nodes g ≡ none → Round g
  idle : is_complete g ≡ false → get_ready_nodes g ≡ some [] → Round g
  work :
      (id : String) (ids : List String)
      → is_complete g ≡ false
      → get_ready_nodes g ≡ some (id ∷ ids)
      → Round g

pub round : (g : ReasoningGraph) → Round g
round g = elim (Bool-cases (is_complete g)) [
  | inl all ↦ quiet all
  | inr more ↦ elim (Option-cases (get_ready_nodes g)) [
    | inl e ↦ missing more e
    | inr (ids, e) ↦ elim (List-cases ids) [
      | inl q ↦ idle more (rw q at e)
      | inr (id, ids', q) ↦ work id ids' more (rw q at e)
    ]
  ]
]

module _ {S V : Type 0} (exec : Executor S V) (settles : Settles exec) where
  -- The run finished with nothing left that could run, or it stopped with an exception.
  abbrev pub EndsQuiet : Ended V × World S → Type 0
  EndsQuiet x =
      ((vs : List V) × (x.0 ≡ finished vs) × IsQuiet x.1.graph) ⊎ ((e : Error) × (x.0 ≡ stopped e))

  sequential_work :
      (fuel : ℕ) (acc : List V) (w : World S) (id : String) (ids : List String)
      → is_complete w.graph ≡ false
      → get_ready_nodes w.graph ≡ some (id ∷ ids)
      → sequential exec (suc fuel) acc w ≡ (
          let (o, w') = run_each exec (id ∷ ids) w in
          elim o [ raised e ↦ (stopped e, w') | returned vs ↦ sequential exec fuel (acc ++ vs) w' ])
  unfolding sequential
  sequential_work fuel acc w id ids more e = rw (more, sequential) (rw e)

  sequential_quiet :
      (fuel : ℕ) (acc : List V) (w : World S)
      → is_complete w.graph ≡ true
      → sequential exec (suc fuel) acc w ≡ (finished acc, w)
  unfolding sequential
  sequential_quiet fuel acc w all = rw (all, sequential)

  sequential_missing :
      (fuel : ℕ) (acc : List V) (w : World S)
      → is_complete w.graph ≡ false
      → get_ready_nodes w.graph ≡ none
      → sequential exec (suc fuel) acc w ≡ (stopped key_error, w)
  unfolding sequential
  sequential_missing fuel acc w more e = rw (more, sequential) (rw e)

  sequential_idle :
      (fuel : ℕ) (acc : List V) (w : World S)
      → is_complete w.graph ≡ false
      → get_ready_nodes w.graph ≡ some []
      → sequential exec (suc fuel) acc w ≡ (finished acc, w)
  unfolding sequential
  sequential_idle fuel acc w more e = rw (more, sequential) (rw e)

  sequential-EndsQuiet :
      (fuel : ℕ) (acc : List V) (w : World S)
      → pending_count w.graph < fuel
      → Distinct (keys w.graph.nodes)
      → EndsQuiet (sequential exec fuel acc w)
  sequential-EndsQuiet zero acc w lt d = absurd (omega arith)
  sequential-EndsQuiet (suc fuel) acc w lt d = elim (round w.graph) [
    | quiet all ↦ rw (sequential_quiet fuel acc w all) (inl (acc, refl, inl all))
    | missing more e ↦ rw (sequential_missing fuel acc w more e) (inr (key_error, refl))
    | idle more e ↦ rw (sequential_idle fuel acc w more e) (inl (acc, refl, inr e))
    | work id ids more e ↦
        let (ready, once) = get_ready_nodes_sound w.graph (id ∷ ids) d e in
        let (fewer, same) = run_each_fewer exec settles id ids w once ready in
        let (o, w') = run_each exec (id ∷ ids) w in
        rw (sequential_work fuel acc w id ids more e) (elim (Outcome-cases o) [
          | inl (vs, q) ↦ rw q (sequential-EndsQuiet fuel (acc ++ vs) w' (omega arith) (rw same d))
          | inr (x, q) ↦ rw q (inr (x, refl))
        ])
  ]

  -- `SequentialExecution` comes to an end on every graph in which no key stands twice, in at most one
  -- round for each pending node and one more: it finishes with a graph that is complete or has no
  -- ready node, or stops with an exception.
  pub sequential_ends :
      (w : World S)
      → Distinct (keys w.graph.nodes)
      → EndsQuiet (sequential exec (suc (pending_count w.graph)) [] w)
  sequential_ends w d = sequential-EndsQuiet (suc (pending_count w.graph)) [] w (omega arith) d
