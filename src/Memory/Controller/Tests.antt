-- ===== src/Memory/Controller/Tests.antt =====
-- A user who corrects himself, a service that fails, and a relationship that is remembered.
use ai_chatbot_platform.Prelude.{
  ◌≡◌, refl, true, inl, Option, none, some, List, [], ◌∷◌, String, str_eq, if◌then◌else◌, In,
  lookup,
}
use ai_chatbot_platform.Reliability.FailureTracker.{Error}
use ai_chatbot_platform.Reliability.CircuitBreaker.{Outcome, returned, raised}
use ai_chatbot_platform.KnowledgeGraph.GraphStore.{Relationship, GraphStore, same_triple}
use ai_chatbot_platform.Memory.Authority.{MemoryFact, conversation, select}
use ai_chatbot_platform.Memory.Extraction
use ai_chatbot_platform.Memory.Extraction.{
  TextMethods, is_profile_key, facts_of_pairs, extract_facts_from_conversation,
}
use ai_chatbot_platform.Memory.Controller.{
  Controller, MemoryService, MemoryRetriever, Clocks, Locks, get_unified_context,
}
use ai_chatbot_platform.Memory.Controller.Storing.{grown_graph, store_interaction}
use ai_chatbot_platform.Memory.Controller.FirstTold.{get_unified_context-first}
use ai_chatbot_platform.Memory.Controller.Failures.{untouched, Written, store_interaction-Written}
use ai_chatbot_platform.Memory.Controller.Remembering.{get_unified_context-store_interaction}

abbrev boom : Error
boom = record { name = "ConnectionError"; text = [] }

abbrev texts : TextMethods
texts = record {
  lower = λ s. s;
  strip = λ s. s;
  rstrip_dot = λ s. s;
  underscores = λ s. s;
  find_pairs = λ s.
      if str_eq s "my language is Go"
      then ("language", "Go") ∷ []
      else if str_eq s "my language is Rust"
      then ("language", "Rust") ∷ []
      else [];
}

abbrev corrections : List Extraction.Message
corrections =
    record { role = "user"; content = "my language is Go" }
    ∷ record { role = "user"; content = "my language is Rust" }
    ∷ []

-- It takes the query and refuses the answer.
abbrev answer_refused : String → String → Option Error
answer_refused role content = if str_eq role "assistant" then some boom else none

abbrev service : MemoryService
service = record { get_messages = λ n. returned corrections; add_message_raises = answer_refused }

abbrev make_service : String → Outcome MemoryService
make_service session_id = returned service

abbrev recalls : MemoryRetriever
recalls = record { retrieve_context = λ s. raised boom; store_turn_raises = λ query answer. none }

abbrev controller : Controller
controller = record {
  memory_service_factory = some make_service;
  retriever = some recalls;
  kg_confidence_threshold = 80;
  texts = texts;
  split = λ s. s ∷ [];
  two_places = λ n. "1.00";
  plain_number = λ n. "0.8";
}

abbrev clocks : Clocks
clocks = record { said_at = 5; recalled = λ n. 6; related = λ n. 7 }

abbrev likes : Relationship
likes = record { subject = "ann"; relation = "likes"; object = "tea"; trust_score = none }

abbrev kg : GraphStore
kg = record { entities = []; relationships = []; disk = ([], []) }

abbrev locks : Locks
locks = record { session_locks = []; next_lock = 0 }

abbrev said : String → MemoryFact
said language = record {
  key = "language";
  value = language;
  source = conversation;
  timestamp = 5;
  confidence = 100;
}

-- The user's correction is not believed.
get_unified_context-first_example :
    lookup "language" (get_unified_context controller clocks kg "tea" "s" 6 locks).0.resolved_facts
    ≡ some (said "Go")
unfolding get_unified_context extract_facts_from_conversation select is_profile_key
get_unified_context-first_example =
    get_unified_context-first controller clocks kg "tea" "s" 6 locks "language" (said "Go")
      (said "Rust" ∷ []) refl

store_interaction-Written_example :
    Written "s" "hello" "hi"
      (grown_graph controller (some ("ann" ∷ [], likes ∷ [])) kg)
      (store_interaction controller "s" "hello" "hi"
        (some ("ann" ∷ [], likes ∷ []))
        (untouched kg, locks)).0
store_interaction-Written_example =
    store_interaction-Written controller make_service recalls "s" "hello" "hi"
      (some ("ann" ∷ [], likes ∷ [])) kg locks refl refl

get_unified_context-store_interaction_example :
    (x : Relationship) × In x
      (get_unified_context controller clocks
        (store_interaction controller "s" "hello" "hi"
          (some ("ann" ∷ [], likes ∷ []))
          (untouched kg, locks)).0.graph
        "ann"
        "t"
        6
        locks).0.kg_facts
    × same_triple texts.lower x likes ≡ true
get_unified_context-store_interaction_example =
    get_unified_context-store_interaction controller recalls clocks ("ann" ∷ []) (likes ∷ [])
      (untouched kg, locks) "s" "hello" "hi" "t" "ann" 6 locks "ann" likes refl (inl refl)
      (inl refl) (inl refl) refl
