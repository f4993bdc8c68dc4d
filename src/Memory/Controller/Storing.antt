-- ===== src/Memory/Controller/Storing.antt =====
-- app/memory/memory_controller.py: `store_interaction`.
--
-- The calls that write to the services are listed in their order, those that raise included.
use ai_chatbot_platform.Prelude.{Option, none, some, List, [], ◌∷◌, ◌++◌, String}
use ai_chatbot_platform.Reliability.FailureTracker.{Error}
use ai_chatbot_platform.Reliability.CircuitBreaker.{returned, raised}
use ai_chatbot_platform.KnowledgeGraph.GraphStore.{Relationship, GraphStore, add_data}
use ai_chatbot_platform.Memory.Controller.{Controller, MemoryService, Locks, get_lock}

pub data Layer : Type 0 where
  conversation_layer vector_layer : Layer

pub data Call : Type 0 where
  -- session, role and content
  add_message : String → String → String → Call
  store_turn : String → String → Call

-- What the calls were, the knowledge graph, and the failures that are logged. Nothing of the graph's
-- `add_data` raises on data of the types.
pub record Stored : Type 0 where
  pub calls : List Call
  pub graph : GraphStore
  pub errors : List (Layer × Error)

abbrev pub called : Call → Stored → Stored
called call s = record s { calls = s.calls ++ call ∷ [] }

abbrev pub failed : Layer → Error → Stored → Stored
failed layer e s = record s { errors = s.errors ++ (layer, e) ∷ [] }

abbrev pub noted : Layer → Option Error → Stored → Stored
noted layer none s = s
noted layer (some e) s = failed layer e s

-- The answer is stored where the query was.
unfoldable pub add_messages : MemoryService → String → String → String → Stored → Stored
add_messages svc session_id query answer s = elim (svc.add_message_raises "user" query) [
  | some e ↦ failed conversation_layer e (called (add_message session_id "user" query) s)
  | none ↦ noted conversation_layer (svc.add_message_raises "assistant" answer) (
      called (add_message session_id "assistant" answer)
        (called (add_message session_id "user" query) s))
]

unfoldable pub store_conversation : Controller → String → String → String → Stored → Stored
unfolding add_messages
store_conversation c session_id query answer s = elim c.memory_service_factory [
  | none ↦ s
  | some make ↦ elim (make session_id) [
    | raised e ↦ failed conversation_layer e s
    | returned svc ↦ add_messages svc session_id query answer s
  ]
]

unfoldable pub store_vector : Controller → String → String → Stored → Stored
store_vector c query answer s = elim c.retriever [
  | none ↦ s
  | some r ↦
      noted vector_layer (r.store_turn_raises query answer) (called (store_turn query answer) s)
]

-- Nothing is added where there are neither entities nor relationships.
unfoldable pub add_kg_data : Controller → List String → List Relationship → GraphStore → GraphStore
add_kg_data c [] [] kg = kg
add_kg_data c (e ∷ es) rels kg = add_data c.texts.lower c.texts.strip (e ∷ es) rels none kg
add_kg_data c [] (r ∷ rs) kg = add_data c.texts.lower c.texts.strip [] (r ∷ rs) none kg

-- `kg_data` of `none` and an empty dictionary are without effect.
unfoldable pub grown_graph :
    Controller → Option (List String × List Relationship) → GraphStore → GraphStore
unfolding add_kg_data
grown_graph c none kg = kg
grown_graph c (some (entities, relationships)) kg = elim c.retriever [
  | none ↦ kg
  | some r ↦ add_kg_data c entities relationships kg
]

unfoldable pub store_interaction :
    Controller
    → String
    → String
    → String
    → Option (List String × List Relationship)
    → Stored × Locks
    → Stored × Locks
unfolding store_conversation store_vector grown_graph get_lock
store_interaction c session_id query answer kg_data (s, locks) =
    let s1 = store_conversation c session_id query answer s in
    let s2 = store_vector c query answer s1 in
    (record s2 { graph = grown_graph c kg_data s2.graph }, (get_lock session_id locks).1)
