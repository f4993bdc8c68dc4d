-- ===== src/Memory/Controller/Failures.antt =====
-- A failing layer keeps none of the others from being written.
use mathlib.Core.Path.{subst}
use ai_chatbot_platform.Prelude.{
  ◌≡◌, refl, ap, ◌∙◌, ◌⊎◌, inl, inr, ◌≤◌, Option, none, some, List, [], ◌∷◌, ◌++◌, String, length,
  arith, Option-cases, length-append,
}
use ai_chatbot_platform.Reliability.FailureTracker.{Error}
use ai_chatbot_platform.Reliability.CircuitBreaker.{Outcome}
use ai_chatbot_platform.Reliability.RetryPolicy.Attempts.{Outcome-cases}
use ai_chatbot_platform.KnowledgeGraph.GraphStore.{Relationship, GraphStore}
use ai_chatbot_platform.Memory.Controller.{Controller, MemoryService, MemoryRetriever, Locks}
use ai_chatbot_platform.Memory.Controller.Storing.{
  Layer, vector_layer, Call, add_message, store_turn, Stored, called, noted, add_messages,
  store_conversation, store_vector, grown_graph, store_interaction,
}

-- Nothing is written yet.
abbrev pub untouched : GraphStore → Stored
untouched kg = record { calls = []; graph = kg; errors = [] }

-- What is known after the conversation's layer: all is written, or one failure is noted.
abbrev Talked : String → String → String → GraphStore → Stored → Type 0
Talked session_id query answer kg s =
    (s.graph ≡ kg)
    × ((s.errors ≡ [])
          × (s.calls
              ≡ add_message session_id "user" query
                ∷ add_message session_id "assistant" answer
                ∷ [])
        ⊎ (length s.errors ≡ 1))

add_messages-Talked :
    (svc : MemoryService) (session_id query answer : String) (kg : GraphStore)
    → Talked session_id query answer kg (add_messages svc session_id query answer (untouched kg))
unfolding add_messages
add_messages-Talked svc session_id query answer kg =
    elim (Option-cases (svc.add_message_raises "user" query)) [
      | inr (e, raises) ↦ rw (raises, add_messages) (refl, inr refl)
      | inl fine ↦ elim (Option-cases (svc.add_message_raises "assistant" answer)) [
        | inr (e, raises) ↦ rw (fine, raises, add_messages) (refl, inr refl)
        | inl good ↦ rw (fine, good, add_messages) (refl, inl (refl, refl))
      ]
    ]

store_conversation-Talked :
    (c : Controller) (make : String → Outcome MemoryService) (session_id query answer : String)
    (kg : GraphStore)
    → c.memory_service_factory ≡ some make
    → Talked session_id query answer kg
        (store_conversation c session_id query answer (untouched kg))
unfolding store_conversation
store_conversation-Talked c make session_id query answer kg has =
    elim (Outcome-cases (make session_id)) [
      | inl (svc, e) ↦
          simp (store_conversation, has, e) (add_messages-Talked svc session_id query answer kg)
      | inr (e, raises) ↦ simp (store_conversation, has, raises) (refl, inr refl)
    ]

-- What holds after the three layers, with the knowledge graph that there is to be.
abbrev pub Written : String → String → String → GraphStore → Stored → Type 0
Written session_id query answer kg s =
    ((before : List Call) × s.calls ≡ before ++ store_turn query answer ∷ [])
    × (s.graph ≡ kg)
    × ((s.errors ≡ [])
          × (s.calls
              ≡ add_message session_id "user" query
                ∷ add_message session_id "assistant" answer
                ∷ store_turn query answer
                ∷ [])
        ⊎ (1 ≤ length s.errors) × (length s.errors ≤ 2))

noted-Written :
    (session_id query answer : String) (kg kg' : GraphStore) (o : Option Error) (s : Stored)
    → Talked session_id query answer kg s
    → Written session_id query answer kg'
        (record (noted vector_layer o (called (store_turn query answer) s)) { graph = kg' })
noted-Written session_id query answer kg kg' none s (g, inl (fine, written)) =
    ((s.calls, refl), refl, inl (fine, ap (λ l. l ++ store_turn query answer ∷ []) written))
noted-Written session_id query answer kg kg' none s (g, inr one) =
    ((s.calls, refl), refl, inr (omega (arith, one), omega (arith, one)))
noted-Written session_id query answer kg kg' (some e) s (g, inl (fine, written)) =
    ((s.calls, refl), refl, inr (rw fine (omega arith), rw fine (omega arith)))
noted-Written session_id query answer kg kg' (some e) s (g, inr one) =
    let two = length-append s.errors ((vector_layer, e) ∷ []) in
    ((s.calls, refl), refl, inr (omega (arith, one, two), omega (arith, one, two)))

store_vector-step :
    (c : Controller) (r : MemoryRetriever) (query answer : String) (s : Stored)
    → c.retriever ≡ some r
    → store_vector c query answer s
      ≡ noted vector_layer (r.store_turn_raises query answer) (called (store_turn query answer) s)
unfolding store_vector
store_vector-step c r query answer s has = simp (store_vector, has) refl

graph-noted :
    (o : Option Error) (layer : Layer) (call : Call) (s : Stored)
    → (noted layer o (called call s)).graph ≡ s.graph
graph-noted none layer call s = refl
graph-noted (some e) layer call s = refl

-- With a service of conversations and a retriever, whichever of the calls raise: the call that writes
-- to the vector memory is made, as the last one; the knowledge graph gets what there is to add to it;
-- and either both messages and the turn are written, in this order, and no failure is noted, or one
-- failure is or two are.
pub store_interaction-Written :
    (c : Controller) (make : String → Outcome MemoryService) (r : MemoryRetriever)
    (session_id query answer : String) (kg_data : Option (List String × List Relationship))
    (kg : GraphStore) (locks : Locks)
    → c.memory_service_factory ≡ some make
    → c.retriever ≡ some r
    → Written session_id query answer
        (grown_graph c kg_data kg)
        (store_interaction c session_id query answer kg_data (untouched kg, locks)).0
unfolding store_interaction
store_interaction-Written c make r session_id query answer kg_data kg locks has has_r =
    let s = store_conversation c session_id query answer (untouched kg) in
    let talked = store_conversation-Talked c make session_id query answer kg has in
    let after =
      noted vector_layer (r.store_turn_raises query answer) (called (store_turn query answer) s) in
    let same =
      graph-noted (r.store_turn_raises query answer) vector_layer (store_turn query answer) s in
    rw (store_vector-step c r query answer s has_r) (
      subst
        (λ g.
          Written session_id query answer (grown_graph c kg_data g)
            (record after { graph = grown_graph c kg_data after.graph }))
        (same ∙ talked.0)
        (noted-Written session_id query answer kg (grown_graph c kg_data after.graph)
          (r.store_turn_raises query answer) s talked))
