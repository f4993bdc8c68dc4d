-- ===== src/Orchestrator/AgentLoop/Versions.antt =====
-- The versions of prompts that a run of the agents reports.
use ai_chatbot_platform.Prelude.{
  ◌≡◌, refl, ap, ◌∙◌, Bool, ◌⊎◌, inl, inr, some, List, [], ◌∷◌, ◌++◌, String, str_eq, arith, lookup,
  Bool-cases, eq_iff, ℕ,
}
use ai_chatbot_platform.Reliability.RetryPolicy.Attempts.{Outcome-cases}
use ai_chatbot_platform.Watchdog.{
  AgentExecutionContext, Checked, TerminationReason, in_budget, exceeded, record_iteration, check,
}
use ai_chatbot_platform.Watchdog.Monitor
use ai_chatbot_platform.Reliability.CircuitBreaker.{returned}
use ai_chatbot_platform.ReasoningGraph.{ReasoningGraph}
use ai_chatbot_platform.Watchdog.Monitor.{Ending, cancelled_error, budget_exceeded, failed}
use ai_chatbot_platform.Prompts.Evolution.{
  PromptVersion, PromptEvolution, PromptEvolutionManager, initialize_prompt, get_prompt_with_id,
}
use ai_chatbot_platform.Prompts.Evolution.Soundness.{
  IsKept, get_prompt_with_id-Served, initialize_prompt-IsKept, initialize_prompt_known,
}
use ai_chatbot_platform.Orchestrator.SafeLlm.{safe_llm_ask}
use ai_chatbot_platform.Orchestrator.AgentLoop.{
  GraphRun, ran, over_budget, crashed, Evaluation, Agents, LoopState, Looped, default_synthesizer,
  synthesizer, criticized, aggregated, with_prompt, synthesized, executed, completed_nodes,
  graph_versions, run_agent_graph,
}

-- `id` is a version of the prompt of the key.
abbrev pub IsVersion : String → String → PromptEvolutionManager → Type 0
IsVersion key id m =
    (evo : PromptEvolution) × (v : PromptVersion) × (lookup key m.evolutions ≡ some evo)
    × (lookup id evo.versions ≡ some v)

served-IsVersion :
    (lucky : Bool) (key : String) (evo : PromptEvolution) (m : PromptEvolutionManager)
    → IsKept m
    → lookup key m.evolutions ≡ some evo
    → (template : String) × (id : String) × (get_prompt_with_id lucky key m ≡ some (template, id))
      × IsVersion key id m
served-IsVersion lucky key evo m kept found = elim (get_prompt_with_id-Served lucky key m kept) [
  | inl (missing, r) ↦ absurd (ground (arith, missing, found))
  | inr (evo', id, v, known, has, r, which) ↦ (v.template, id, r, (evo', v, known, has))
]

module _ (a : Agents) where
  abbrev Chosen : PromptEvolutionManager → Type 0
  Chosen m =
      (template : String) × (id : String) × (m' : PromptEvolutionManager) × (synthesizer a m
        ≡ (some (template, id), m'))
      × IsKept m'
      × IsVersion "synthesizer" id m'

  read_again :
      (m : PromptEvolutionManager) (id : String)
      → IsKept m
      → get_prompt_with_id a.lucky "synthesizer" m ≡ some ("", id)
      → Chosen m
  unfolding synthesizer
  read_again m id kept r =
      let m' = initialize_prompt a.new_id "synthesizer" default_synthesizer m in
      let kept' = initialize_prompt-IsKept a.new_id "synthesizer" default_synthesizer m kept in
      let (evo, known) = initialize_prompt_known a.new_id "synthesizer" default_synthesizer m in
      let (template, id', again, version) =
        served-IsVersion a.lucky_again "synthesizer" evo m' kept' known in
      (template, id', m', rw (r, synthesizer) (ap (λ x. (x, m')) again), kept', version)

  synthesizer-Chosen : (m : PromptEvolutionManager) → IsKept m → Chosen m
  unfolding synthesizer
  synthesizer-Chosen m kept = elim (get_prompt_with_id-Served a.lucky "synthesizer" m kept) [
    | inl (missing, r) ↦ read_again m "" kept r
    | inr (evo, id, v, known, has, r, which) ↦ elim (Bool-cases (str_eq v.template "")) [
      | inl empty ↦
          let same : v.template ≡ "" = (eq_iff v.template "").0 empty in
          read_again m id kept (r ∙ ap (λ t. some (t, id)) same)
      | inr full ↦ (v.template, id, m, rw (r, synthesizer, full) refl, kept, (evo, v, known, has))
    ]
  ]

  -- The versions of the nodes: those of a run of the engine that came to its end, and else none.
  abbrev pub OfNodes : GraphRun → List (String × String) → Type 0
  OfNodes (ran reported) versions = versions ≡ reported
  OfNodes over_budget versions = versions ≡ []
  OfNodes (crashed e) versions = versions ≡ []

  -- The version that the critic gave with its verdict.
  abbrev pub OfCritic : String → Type 0
  OfCritic version =
      (text : String) × (ev : Evaluation) × (a.evaluate text ≡ returned (ev, version))

  -- The versions of an answer: the planner's, those of the nodes, the synthesizer's and the critic's.
  abbrev pub ReportedBy :
      String → AgentExecutionContext → Ending Looped → PromptEvolutionManager → Type 0
  ReportedBy question ctx (Monitor.returned run) m =
      (graph : ReasoningGraph) × (planner_version : String) × (node_versions : List
        (String × String))
      × (id : String) × (critic_version : String) × (a.plan question
          ≡ returned (graph, planner_version))
      × OfNodes (a.execute_graph graph ctx).run node_versions
      × OfCritic critic_version
      × IsVersion "synthesizer" id m
      × (run.used_versions
          ≡ ("planner_agent", planner_version) ∷ node_versions
            ++ ("synthesizer", id) ∷ ("critic_agent", critic_version) ∷ [])
  ReportedBy question ctx cancelled_error m = Unit
  ReportedBy question ctx budget_exceeded m = Unit
  ReportedBy question ctx (failed e) m = Unit

  append_two :
      (vs : List (String × String)) (x y : String × String)
      → (vs ++ x ∷ []) ++ y ∷ [] ≡ vs ++ x ∷ y ∷ []
  append_two [] x y = refl
  append_two (v ∷ vs) x y = ap (λ ws. v ∷ ws) (append_two vs x y)

  graph_versions-OfNodes : (run : GraphRun) → OfNodes run (graph_versions run)
  graph_versions-OfNodes (ran versions) = refl
  graph_versions-OfNodes over_budget = refl
  graph_versions-OfNodes (crashed e) = refl

  -- A run of the agents whose planner gave a graph and a version.
  module _ (question : String) (ctx : AgentExecutionContext) (graph : ReasoningGraph) (pv : String)
      (planned : a.plan question ≡ returned (graph, pv)) where
    abbrev Reported : Ending Looped × LoopState → Type 0
    Reported r = IsKept r.1.manager × ReportedBy question ctx r.0 r.1.manager

    abbrev vs : List (String × String)
    vs = graph_versions (a.execute_graph graph ctx).run

    criticized-Reported :
        (text id : String) (steps : ℕ) (s : LoopState)
        → IsKept s.manager
        → IsVersion "synthesizer" id s.manager
        → Reported
            (criticized a text steps ((("planner_agent", pv) ∷ vs) ++ ("synthesizer", id) ∷ []) s)
    unfolding criticized
    criticized-Reported text id steps s kept known = elim (Outcome-cases (a.evaluate text)) [
      | inr (e, bad) ↦ rw (bad, criticized) (kept, tt)
      | inl ((ev, cv), ok) ↦
          rw (ok, criticized)
            (
              kept,
              (
                graph,
                pv,
                vs,
                id,
                cv,
                planned,
                graph_versions-OfNodes (a.execute_graph graph ctx).run,
                (text, ev, ok),
                known,
                append_two (("planner_agent", pv) ∷ vs) ("synthesizer", id) ("critic_agent", cv),
              ),
            )
    ]

    aggregated-Reported :
        (prompt template id : String) (steps : ℕ) (s : LoopState)
        → IsKept s.manager
        → IsVersion "synthesizer" id s.manager
        → Reported (aggregated a prompt (template, id) steps (("planner_agent", pv) ∷ vs) s)
    unfolding aggregated
    aggregated-Reported prompt template id steps s kept known =
        let s' = record s { guards = (safe_llm_ask (a.asking prompt template) s.guards).0 } in
        elim (Outcome-cases (safe_llm_ask (a.asking prompt template) s.guards).1) [
          | inr (e, bad) ↦ rw (bad, aggregated) (kept, tt)
          | inl (text, ok) ↦ rw (ok, aggregated) (criticized-Reported text id steps s' kept known)
        ]

    synthesized-Reported :
        (prompt : String) (steps : ℕ) (s : LoopState)
        → IsKept s.manager
        → Reported (synthesized a prompt steps (("planner_agent", pv) ∷ vs) s)
    unfolding synthesized with_prompt
    synthesized-Reported prompt steps s kept =
        let (template, id, m', chosen, kept', known) = synthesizer-Chosen s.manager kept in
        rw (chosen, synthesized, with_prompt)
          (aggregated-Reported prompt template id steps (record s { manager = m' }) kept' known)

  Checked-cases : (c : Checked) → (c ≡ in_budget) ⊎ ((r : TerminationReason) × (c ≡ exceeded r))
  Checked-cases in_budget = inl refl
  Checked-cases (exceeded r) = inr (r, refl)

  -- With a manager whose evolutions are sound and saved, whatever the planner, the engine, the model and
  -- the critic do: a run of the agents leaves such a manager; and if it ends with an answer, the versions
  -- that it reports are, in this order: the one that the planner gave with the graph for the question;
  -- those that the engine reports for this graph on the context after one more iteration, if it comes to
  -- its end, and else none; a version that the manager has for the synthesizer's prompt; and one that the
  -- critic gives with a verdict.
  pub run_agent_graph-versions :
      (question : String) (s : LoopState)
      → IsKept s.manager
      → IsKept (run_agent_graph a question s).1.manager
        × ReportedBy question
            (check a.planned_at (record_iteration s.ctx)).1
            (run_agent_graph a question s).0
            (run_agent_graph a question s).1.manager
  unfolding run_agent_graph executed
  run_agent_graph-versions question s kept = elim (Outcome-cases (a.plan question)) [
    | inr (e, bad) ↦ rw (bad, run_agent_graph) (kept, tt)
    | inl ((graph, pv), ok) ↦
        let ctx = (check a.planned_at (record_iteration s.ctx)).1 in
        let x = a.execute_graph graph ctx in
        let executed' =
          synthesized-Reported question ctx graph pv ok
            (a.aggregation question (completed_nodes x.graph.nodes)) x.steps
            (record s { ctx = x.ctx }) kept in
        elim (Checked-cases (check a.planned_at (record_iteration s.ctx)).0) [
          | inl fine ↦ rw (ok, fine, run_agent_graph, executed) executed'
          | inr (r, over) ↦ rw (ok, over, run_agent_graph) (kept, tt)
        ]
  ]
