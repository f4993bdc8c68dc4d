-- ===== src/ReasoningGraph/Strategies/Swarming.antt =====
-- The swarm keeps its limits, comes to an end, cancelled or not, and lets no exception of an executor out.
use ai_chatbot_platform.Prelude.{
  ℕ, zero, suc, ◌+◌, ◌-◌, ◌≤◌, ◌<◌, ◌≡◌, refl, true, false, none, some, List, [], ◌∷◌, ◌++◌, String,
  arith, All-take, length, take, keys, Distinct, Distinct-take, inl, inr, ◌⊎◌, ◌∙◌, ap,
  Option-cases,
}
use ai_chatbot_platform.ReasoningGraph.{get_ready_nodes, is_complete}
use ai_chatbot_platform.ReasoningGraph.Ready.{IsReady, get_ready_nodes_sound}
use ai_chatbot_platform.ReasoningGraph.Strategies.{
  World, Executor, Ended, finished, stopped, cancelled, key_error, gather, Swarm, batch_size,
  Cancellation, struck, later, swarm,
}
use ai_chatbot_platform.ReasoningGraph.Strategies.Progress.{pending_count, Settles, gather_fewer}
use ai_chatbot_platform.ReasoningGraph.Strategies.Endings.{
  IsQuiet, round, quiet, missing, idle, work,
}

-- A batch holds at least one node, and no more than are ready; above one it keeps both limits, also
-- together with the agents that run already.
pub batch_size_bounds :
    (c : Swarm) (ready : ℕ)
    → 0 < ready
    → (0 < batch_size c ready)
      × (batch_size c ready ≤ ready)
      × ((batch_size c ready ≡ 1)
          ⊎ ((batch_size c ready ≤ c.max_parallel)
              × (c.active_agents + batch_size c ready ≤ c.max_agents)))
unfolding batch_size
batch_size_bounds c ready pos = ground arith

batch_size-suc : (c : Swarm) (ready : ℕ) → batch_size c ready ≡ suc (batch_size c ready - 1)
unfolding batch_size
batch_size-suc c ready = ground arith

module _ {S V : Type 0} (exec : Executor S V) where
  -- One round of the swarm on a batch that is awaited to its end.
  abbrev after :
      ℕ → Cancellation S → List V → Swarm → List String → World S → Ended V × Swarm × World S
  after fuel cancel acc c batch w =
      let (vs, w') = gather exec batch w in
      swarm exec fuel (later cancel) (acc ++ vs)
        (record c { active_agents = c.active_agents + length batch - length batch }) w'

  -- The batch of a round.
  abbrev batch_of : Swarm → String → List String → List String
  batch_of c id ids = take (batch_size c (length (id ∷ ids))) (id ∷ ids)

  swarm_work :
      (fuel : ℕ) (cancel : Cancellation S) (acc : List V) (c : Swarm) (w : World S) (id : String)
      (ids : List String)
      → is_complete w.graph ≡ false
      → get_ready_nodes w.graph ≡ some (id ∷ ids)
      → struck cancel ≡ none
      → swarm exec (suc fuel) cancel acc c w ≡ after fuel cancel acc c (batch_of c id ids) w
  unfolding swarm
  swarm_work fuel cancel acc c w id ids more e goes = rw (more, swarm) (rw (e, goes))

  swarm-struck :
      (fuel : ℕ) (cancel : Cancellation S) (acc : List V) (c : Swarm) (w left : World S)
      (id : String) (ids : List String)
      → is_complete w.graph ≡ false
      → get_ready_nodes w.graph ≡ some (id ∷ ids)
      → struck cancel ≡ some left
      → swarm exec (suc fuel) cancel acc c w ≡ (
        cancelled,
        record c { active_agents = c.active_agents + length (batch_of c id ids) },
        left,
      )
  unfolding swarm
  swarm-struck fuel cancel acc c w left id ids more e strikes = rw (more, swarm) (rw (e, strikes))

  swarm_quiet :
      (fuel : ℕ) (cancel : Cancellation S) (acc : List V) (c : Swarm) (w : World S)
      → is_complete w.graph ≡ true
      → swarm exec (suc fuel) cancel acc c w ≡ (finished acc, c, w)
  unfolding swarm
  swarm_quiet fuel cancel acc c w all = rw (all, swarm)

  swarm_missing :
      (fuel : ℕ) (cancel : Cancellation S) (acc : List V) (c : Swarm) (w : World S)
      → is_complete w.graph ≡ false
      → get_ready_nodes w.graph ≡ none
      → swarm exec (suc fuel) cancel acc c w ≡ (stopped key_error, c, w)
  unfolding swarm
  swarm_missing fuel cancel acc c w more e = rw (more, swarm) (rw e)

  swarm_idle :
      (fuel : ℕ) (cancel : Cancellation S) (acc : List V) (c : Swarm) (w : World S)
      → is_complete w.graph ≡ false
      → get_ready_nodes w.graph ≡ some []
      → swarm exec (suc fuel) cancel acc c w ≡ (finished acc, c, w)
  unfolding swarm
  swarm_idle fuel cancel acc c w more e = rw (more, swarm) (rw e)

  -- The run finished with nothing left that could run, or it stopped since `get_ready_nodes` met a
  -- dependency that the graph does not hold; the count of active agents is what it was.
  abbrev pub EndsCalm : ℕ → Ended V × Swarm × World S → Type 0
  EndsCalm active x =
      (((vs : List V) × (x.0 ≡ finished vs) × IsQuiet x.2.graph)
        ⊎ ((x.0 ≡ stopped key_error) × (get_ready_nodes x.2.graph ≡ none)))
      × (x.1.active_agents ≡ active)

  -- The run was cancelled, and the batch it awaited, of one node or more, stays counted as active.
  abbrev pub EndsCancelled : ℕ → Cancellation S → Ended V × Swarm × World S → Type 0
  EndsCancelled active cancel x =
      (¬ (cancel ≡ none))
      × (x.0 ≡ cancelled)
      × ((k : ℕ) × (0 < k) × (x.1.active_agents ≡ active + k))

  abbrev Ends : ℕ → Cancellation S → Ended V × Swarm × World S → Type 0
  Ends active cancel x = EndsCalm active x ⊎ EndsCancelled active cancel x

  struck_lem :
      (cancel : Cancellation S) (left : World S) → struck cancel ≡ some left → ¬ (cancel ≡ none)
  struck_lem none left e q = cc
  struck_lem (some c) left e q = cc

  later_lem : (cancel : Cancellation S) → ¬ (later cancel ≡ none) → ¬ (cancel ≡ none)
  later_lem none given q = given refl
  later_lem (some c) given q = cc

  Ends-later :
      (active active' : ℕ) (cancel : Cancellation S) (x : Ended V × Swarm × World S)
      → active' ≡ active
      → Ends active' (later cancel) x
      → Ends active cancel x
  Ends-later active active' cancel x q (inl (calm, kept)) = inl (calm, kept ∙ q)
  Ends-later active active' cancel x q (inr (is', ended, (k, pos, leaks))) =
      inr (later_lem cancel is', ended, (k, pos, leaks ∙ ap (λ a. a + k) q))

  batch_of-pos : (c : Swarm) (id : String) (ids : List String) → 0 < length (batch_of c id ids)
  batch_of-pos c id ids = rw (batch_size-suc c (length (id ∷ ids))) (omega arith)

  swarm-Ends :
      (settles : Settles exec) (fuel : ℕ) (cancel : Cancellation S) (acc : List V) (c : Swarm)
      (w : World S)
      → pending_count w.graph < fuel
      → Distinct (keys w.graph.nodes)
      → Ends c.active_agents cancel (swarm exec fuel cancel acc c w)
  swarm-Ends settles zero cancel acc c w lt d = absurd (omega arith)
  swarm-Ends settles (suc fuel) cancel acc c w lt d = elim (round w.graph) [
    | quiet all ↦ rw (swarm_quiet fuel cancel acc c w all) (inl (inl (acc, refl, inl all), refl))
    | missing more e ↦ rw (swarm_missing fuel cancel acc c w more e) (inl (inr (refl, e), refl))
    | idle more e ↦ rw (swarm_idle fuel cancel acc c w more e) (inl (inl (acc, refl, inr e), refl))
    | work id ids more e ↦ elim (Option-cases (struck cancel)) [
      | inr (left, strikes) ↦ rw (swarm-struck fuel cancel acc c w left id ids more e strikes) (
          inr (
            struck_lem cancel left strikes,
            refl,
            (length (batch_of c id ids), batch_of-pos c id ids, refl),
          ))
      | inl goes ↦
          let n = batch_size c (length (id ∷ ids)) - 1 in
          let (ready, once) = get_ready_nodes_sound w.graph (id ∷ ids) d e in
          let rest = take n ids in
          let (fewer, same) =
            gather_fewer exec settles id rest w (Distinct-take (suc n) (id ∷ ids) once)
              (All-take (IsReady w.graph.nodes) (suc n) (id ∷ ids) ready) in
          let (vs, w') = gather exec (id ∷ rest) w in
          let c' = record c {
            active_agents = c.active_agents + length (id ∷ rest) - length (id ∷ rest);
          } in
          rw
            (
              swarm_work fuel cancel acc c w id ids more e goes,
              batch_size-suc c (length (id ∷ ids)),
            )
            (Ends-later c.active_agents c'.active_agents cancel
              (swarm exec fuel (later cancel) (acc ++ vs) c' w') (omega arith)
              (swarm-Ends settles fuel (later cancel) (acc ++ vs) c' w' (omega arith) (rw same d)))
    ]
  ]

  -- If every executor leaves its node not pending, `SwarmExecution` comes to an end on every graph in
  -- which no key stands twice, in at most one round for each pending node and one more. A run that is
  -- not cancelled finishes with a graph that is complete or has no ready node, whatever exceptions the
  -- executors raise; the one exception that it can end with is the `KeyError` of a missing dependency.
  -- The count of active agents is then what it was before. A run that is to be cancelled may end the
  -- same way before that; else it ends cancelled, and the count stays too high, by the batch of one
  -- node or more that it awaited.
  pub swarm_ends :
      (cancel : Cancellation S) (w : World S) (c : Swarm)
      → Settles exec
      → Distinct (keys w.graph.nodes)
      → EndsCalm c.active_agents (swarm exec (suc (pending_count w.graph)) cancel [] c w)
        ⊎ EndsCancelled c.active_agents cancel
            (swarm exec (suc (pending_count w.graph)) cancel [] c w)
  swarm_ends cancel w c settles d =
      swarm-Ends settles (suc (pending_count w.graph)) cancel [] c w (omega arith) d

  -- A run that no one cancels.
  pub swarm-EndsCalm :
      (w : World S) (c : Swarm)
      → Settles exec
      → Distinct (keys w.graph.nodes)
      → EndsCalm c.active_agents (swarm exec (suc (pending_count w.graph)) none [] c w)
  swarm-EndsCalm w c settles d = elim (swarm_ends none w c settles d) [
    | inl calm ↦ calm
    | inr (given, ended, leaks) ↦ absurd (given refl)
  ]
