-- ===== src/KnowledgeGraph/GraphStore/Tests.antt =====
-- A store with one relationship, to which the same and another one are added.
use ai_chatbot_platform.Prelude.{◌≡◌, refl, none, some, [], ◌∷◌, String}
use ai_chatbot_platform.KnowledgeGraph.GraphStore.{
  Relationship, GraphStore, is_known, add_data, add_entities, add_relationships,
}

abbrev plain : String → String
plain s = s

abbrev likes : Relationship
likes = record { subject = "ann"; relation = "likes"; object = "tea"; trust_score = none }

abbrev knows : Relationship
knows = record { subject = "ann"; relation = "knows"; object = "bob"; trust_score = some 40 }

abbrev store : GraphStore
store = record {
  entities = "ann" ∷ [];
  relationships = likes ∷ [];
  disk = ("ann" ∷ [], likes ∷ []);
}

-- The known relationship stays as it is, the new one gets the score, and the file has both.
added_twice :
    (add_data plain plain ("bob" ∷ []) (likes ∷ knows ∷ []) (some 70) store).disk
    ≡ ("ann" ∷ "bob" ∷ [], likes ∷ record knows { trust_score = some 70 } ∷ [])
unfolding add_data add_entities add_relationships is_known
added_twice = refl
