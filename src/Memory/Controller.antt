-- ===== src/Memory/Controller.antt =====
-- app/memory/memory_controller.py: the one interface of the three memories.
--
-- The services of the conversations and of the vectors are parameters, by what their calls answer or
-- raise; a retriever has its knowledge graph, which is that of KnowledgeGraph. A lock is a number, and
-- what one call does while it holds its session's lock is one step. Logging is left out.
mod FirstTold
mod Tests
mod Remembering
mod Failures
pub mod Storing
use ai_chatbot_platform.Prelude.{
  ℕ, suc, ◌+◌, Bool, true, false, ◌&&◌, Option, none, some, List, [], ◌∷◌, ◌++◌, map, String,
  if◌then◌else◌, take, length, Dict, lookup, put,
}
use ai_chatbot_platform.Reliability.FailureTracker.{Error}
use ai_chatbot_platform.Reliability.CircuitBreaker.{Outcome, returned, raised}
use ai_chatbot_platform.KnowledgeGraph.GraphStore.{
  Relationship, GraphStore, member, query, add_data,
}
use ai_chatbot_platform.Memory.Authority.{
  MemoryFact, MemorySource, vector, knowledge_graph, conversation, MemoryConflict, reconcile,
}
use ai_chatbot_platform.Memory.Merging.{merge_contexts}
use ai_chatbot_platform.Memory.Extraction
use ai_chatbot_platform.Memory.Extraction.{
  TextMethods, extract_facts_from_conversation, extract_facts_from_kg,
  extract_facts_from_vector_context,
}

-- A service of conversations; `add_message_raises` tells for a role and a content what is raised.
pub record MemoryService : Type 0 where
  pub get_messages : ℕ → Outcome (List Extraction.Message)
  pub add_message_raises : String → String → Option Error

pub record MemoryRetriever : Type 0 where
  pub retrieve_context : String → Outcome String
  pub store_turn_raises : String → String → Option Error

pub record Controller : Type 0 where
  pub memory_service_factory : Option (String → Outcome MemoryService)
  pub retriever : Option MemoryRetriever
  pub kg_confidence_threshold : ℕ
  pub texts : TextMethods
  -- `str.split` at white space
  pub split : String → List String
  -- a number of hundredths, as `:.2f` and as `str` write it
  pub two_places : ℕ → String
  pub plain_number : ℕ → String

-- The clocks that the three extractions read.
pub record Clocks : Type 0 where
  pub said_at : ℕ
  pub recalled : ℕ → ℕ
  pub related : ℕ → ℕ

-- `trust_scores` is never filled.
pub record UnifiedMemorySnapshot : Type 0 where
  pub conversation_history : List Extraction.Message
  pub vector_context : String
  pub kg_facts : List Relationship
  pub merged_context : String
  pub conflicts_resolved : ℕ
  pub resolved_facts : Dict MemoryFact
  pub conflicts : List MemoryConflict

-- `_get_lock`: the lock of a session, made where there is none.
pub record Locks : Type 0 where
  pub session_locks : Dict ℕ
  pub next_lock : ℕ

unfoldable pub get_lock : String → Locks → ℕ × Locks
get_lock session_id s = elim (lookup session_id s.session_locks) [
  | some lock ↦ (lock, s)
  | none ↦ (
    s.next_lock,
    record {
      session_locks = put session_id s.next_lock s.session_locks;
      next_lock = suc s.next_lock;
    },
  )
]

get_conversation : Controller → String → ℕ → List Extraction.Message
get_conversation c session_id limit = elim c.memory_service_factory [
  | none ↦ []
  | some make ↦ elim (make session_id) [
    | raised e ↦ []
    | returned svc ↦ elim (svc.get_messages limit) [ raised e ↦ [] | returned ms ↦ ms ]
  ]
]

get_vector_context : Controller → String → String
get_vector_context c text = elim c.retriever [
  | none ↦ ""
  | some r ↦ elim (r.retrieve_context text) [ raised e ↦ "" | returned context ↦ context ]
]

-- The facts about those of the words that are entities.
unfoldable pub facts_of_words : (String → String) → GraphStore → List String → List Relationship
facts_of_words lower kg [] = []
facts_of_words lower kg (word ∷ words) =
    let rest = facts_of_words lower kg words in
    if member kg.entities word then query lower word kg.relationships ++ rest else rest

unfoldable pub get_kg_facts : Controller → GraphStore → String → List Relationship
unfolding facts_of_words
get_kg_facts c kg text = elim c.retriever [
  | none ↦ []
  | some r ↦ facts_of_words c.texts.lower kg (c.split (c.texts.lower text))
]

unfoldable pub extract_all_facts :
    TextMethods → Clocks → List Extraction.Message → String → List Relationship → List MemoryFact
extract_all_facts t clocks history context kg_facts =
    extract_facts_from_conversation t clocks.said_at history
    ++ (extract_facts_from_vector_context t clocks.recalled context
        ++ extract_facts_from_kg t clocks.related 0 kg_facts)

-- The snapshot of what the layers gave.
unfoldable pub snapshot_of :
    Controller
    → Clocks
    → List Extraction.Message
    → String
    → List Relationship
    → UnifiedMemorySnapshot
unfolding extract_all_facts
snapshot_of c clocks history context kg_facts =
    let threshold = c.kg_confidence_threshold in
    let facts = extract_all_facts c.texts clocks history context kg_facts in
    let (resolved, conflicts) = reconcile c.texts.lower threshold facts in
    record {
      conversation_history = history;
      vector_context = context;
      kg_facts = kg_facts;
      merged_context =
          merge_contexts c.two_places c.plain_number threshold history context kg_facts resolved;
      conflicts_resolved = length conflicts;
      resolved_facts = resolved;
      conflicts = conflicts;
    }

unfoldable pub get_unified_context :
    Controller → Clocks → GraphStore → String → String → ℕ → Locks → UnifiedMemorySnapshot × Locks
unfolding get_lock get_conversation get_vector_context get_kg_facts snapshot_of
get_unified_context c clocks kg text session_id limit locks = (
  snapshot_of c clocks (get_conversation c session_id limit) (get_vector_context c text)
      (get_kg_facts c kg text),
  (get_lock session_id locks).1,
)
