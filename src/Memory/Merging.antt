-- ===== src/Memory/Merging.antt =====
-- app/memory/memory_controller.py: `_merge_contexts`, the text that is made of a snapshot.
--
-- How a number of hundredths is written, as `:.2f` and as `str` do it, is a parameter.
use Prim.Native.Nat.{Ordering}
use Prim.Native.String
use ai_chatbot_platform.Prelude.{
  ℕ, Bool, true, false, List, [], ◌∷◌, ◌++◌, map, String, if◌then◌else◌, take, Dict,
}
use ai_chatbot_platform.KnowledgeGraph.GraphStore.{Relationship, get_trusted_relationships}
use ai_chatbot_platform.Memory.Authority.{
  MemoryFact, MemorySource, vector, knowledge_graph, conversation,
}
use ai_chatbot_platform.Memory.Extraction.{Message}

-- `separator.join(parts)`
unfoldable pub join : String → List String → String
join separator [] = ""
join separator (p ∷ []) = p
join separator (p ∷ q ∷ ps) = String.◌++◌ p (String.◌++◌ separator (join separator (q ∷ ps)))

abbrev source_name : MemorySource → String
source_name vector = "VECTOR"
source_name knowledge_graph = "KNOWLEDGE_GRAPH"
source_name conversation = "CONVERSATION"

-- `sorted(resolved_facts.items())`, whose keys are distinct.
abbrev not_after : Ordering → Bool
not_after Ordering.lt = true
not_after Ordering.eq = true
not_after Ordering.gt = false

unfoldable insert_item : String × MemoryFact → Dict MemoryFact → Dict MemoryFact
insert_item item [] = item ∷ []
insert_item item (other ∷ items) =
    if not_after (String.compare item.0 other.0)
    then item ∷ (other ∷ items)
    else other ∷ insert_item item items

unfoldable sort_items : Dict MemoryFact → Dict MemoryFact
unfolding insert_item
sort_items [] = []
sort_items (item ∷ items) = insert_item item (sort_items items)

abbrev message_line : Message → String
message_line m = String.◌++◌ m.role (String.◌++◌ ": " m.content)

abbrev relationship_line : Relationship → String
relationship_line f = join " → " (f.subject ∷ f.relation ∷ f.object ∷ [])

-- A part of the merged context, and none where its source is empty.
abbrev conversation_part : List Message → List String
conversation_part [] = []
conversation_part (m ∷ ms) =
    String.◌++◌ "--- CONVERSATION HISTORY ---\n" (join "\n" (map message_line (m ∷ ms))) ∷ []

abbrev vector_part : String → List String
vector_part String.[] = []
vector_part (String.◌∷◌ c s) = String.◌∷◌ c s ∷ []

-- The facts that are trusted, ten at most.
kg_part : (ℕ → String) → ℕ → List Relationship → List String
kg_part plain_number threshold [] = []
kg_part plain_number threshold (f ∷ fs) =
    String.◌++◌ "--- KNOWLEDGE GRAPH FACTS (confidence ≥ " (
      String.◌++◌ (plain_number threshold)
        (String.◌++◌ ") ---\n" (join "\n" (map relationship_line (take 10 (f ∷ fs))))))
    ∷ []

resolved_line : (ℕ → String) → String × MemoryFact → String
resolved_line two_places (key, fact) = String.◌++◌ key (
    String.◌++◌ " = " (
      String.◌++◌ fact.value (
        String.◌++◌ "  (source: " (
          String.◌++◌ (source_name fact.source)
            (String.◌++◌ ", confidence: " (String.◌++◌ (two_places fact.confidence) ")"))))))

resolved_part : (ℕ → String) → Dict MemoryFact → List String
unfolding resolved_line sort_items
resolved_part two_places [] = []
resolved_part two_places (item ∷ items) =
    String.◌++◌ "--- RESOLVED FACTS ---\n"
      (join "\n" (map (resolved_line two_places) (sort_items (item ∷ items))))
    ∷ []

module _ (two_places plain_number : ℕ → String) where
  unfoldable pub merge_contexts :
      ℕ → List Message → String → List Relationship → Dict MemoryFact → String
  unfolding join kg_part resolved_part
  merge_contexts threshold history context kg_facts resolved = join "\n\n" (
      conversation_part history
      ++ (vector_part context
          ++ (kg_part plain_number threshold (get_trusted_relationships threshold kg_facts)
              ++ resolved_part two_places resolved)))
