-- ===== src/Memory/Controller/Remembering.antt =====
-- What an interaction stores in the knowledge graph is found for later queries.
use mathlib.Core.Path.{subst}
use ai_chatbot_platform.Prelude.{
  ◌≡◌, refl, ℕ, true, inl, inr, none, some, List, [], ◌∷◌, ◌++◌, String, Bool-cases, In, arith,
}
use ai_chatbot_platform.KnowledgeGraph.GraphStore.{
  Relationship, GraphStore, member, same_triple, is_known, query, add_data,
}
use ai_chatbot_platform.KnowledgeGraph.GraphStore.Additions.{is_known-add_relationships}
use ai_chatbot_platform.KnowledgeGraph.GraphStore.Found.{
  member-add_entities, In-is_known, query-is_known,
}
use ai_chatbot_platform.Memory.Controller.{
  Controller, MemoryRetriever, Clocks, Locks, facts_of_words, get_kg_facts, get_unified_context,
  snapshot_of,
}
use ai_chatbot_platform.Memory.Controller.Storing.{
  Stored, add_kg_data, grown_graph, store_interaction, store_vector, store_conversation,
}

In-append_left : {A : Type 0} (x : A) (xs ys : List A) → In x xs → In x (xs ++ ys)
In-append_left x [] ys h = absurd h
In-append_left x (y ∷ xs) ys (inl e) = inl e
In-append_left x (y ∷ xs) ys (inr h) = inr (In-append_left x xs ys h)

In-append_right : {A : Type 0} (x : A) (xs ys : List A) → In x ys → In x (xs ++ ys)
In-append_right x [] ys h = h
In-append_right x (y ∷ xs) ys h = inr (In-append_right x xs ys h)

facts_of_words-In :
    (lower : String → String) (kg : GraphStore) (words : List String) (w : String)
    (r : Relationship)
    → In w words
    → member kg.entities w ≡ true
    → In r (query lower w kg.relationships)
    → In r (facts_of_words lower kg words)
unfolding facts_of_words
facts_of_words-In lower kg [] w r h m q = absurd h
facts_of_words-In lower kg (v ∷ words) w r (inl same) m q =
    rw (subst (λ x. member kg.entities x ≡ true) same m) (
      In-append_left r (query lower v kg.relationships) _
        (subst (λ x. In r (query lower x kg.relationships)) same q))
facts_of_words-In lower kg (v ∷ words) w r (inr later) m q =
    let rest = facts_of_words-In lower kg words w r later m q in
    elim (Bool-cases (member kg.entities v)) [
      | inl hit ↦ rw hit (In-append_right r (query lower v kg.relationships) _ rest)
      | inr miss ↦ rw miss rest
    ]

-- Where a relationship is given there is something to add.
add_kg_data-In :
    (c : Controller) (es : List String) (rels : List Relationship) (kg : GraphStore)
    (r : Relationship)
    → In r rels
    → add_kg_data c es rels kg ≡ add_data c.texts.lower c.texts.strip es rels none kg
unfolding add_kg_data
add_kg_data-In c [] [] kg r h = absurd h
add_kg_data-In c (e ∷ es) rels kg r h = refl
add_kg_data-In c [] (x ∷ rels) kg r h = refl

module _ (lower strip : String → String) where
  add_data_entities :
      (es : List String) (rels : List Relationship) (kg : GraphStore) (e : String)
      → In e es
      → member (add_data lower strip es rels none kg).entities (lower (strip e)) ≡ true
  unfolding add_data
  add_data_entities es rels kg e h = member-add_entities lower strip kg.entities es e h

  add_data_relationships :
      (es : List String) (rels : List Relationship) (kg : GraphStore) (r : Relationship)
      → In r rels
      → is_known lower (add_data lower strip es rels none kg).relationships r ≡ true
  unfolding add_data
  add_data_relationships es rels kg r h = ground (
    arith,
    is_known-add_relationships lower none kg.relationships rels r,
    In-is_known lower rels r h,
  )

  facts_of_words-add_data :
      (es : List String) (rels : List Relationship) (kg : GraphStore) (words : List String)
      (e : String) (r : Relationship)
      → In e es
      → In r rels
      → In (lower (strip e)) words
      → lower r.subject ≡ lower (lower (strip e))
      → (x : Relationship) × In x
          (facts_of_words lower (add_data lower strip es rels none kg) words)
        × same_triple lower x r ≡ true
  facts_of_words-add_data es rels kg words e r he hr hw subject =
      let kg' = add_data lower strip es rels none kg in
      let (x, inside, same) =
        query-is_known lower kg'.relationships r (lower (strip e))
          (add_data_relationships es rels kg r hr) subject in
      (
        x,
        facts_of_words-In lower kg' words (lower (strip e)) x hw (add_data_entities es rels kg e he)
            inside,
        same,
      )

grown_graph-In :
    (c : Controller) (mr : MemoryRetriever) (es : List String) (rels : List Relationship)
    (kg : GraphStore) (r : Relationship)
    → c.retriever ≡ some mr
    → In r rels
    → grown_graph c (some (es, rels)) kg ≡ add_data c.texts.lower c.texts.strip es rels none kg
unfolding grown_graph
grown_graph-In c mr es rels kg r has h = simp (grown_graph, has) (add_kg_data-In c es rels kg r h)

get_kg_facts-step :
    (c : Controller) (mr : MemoryRetriever) (kg : GraphStore) (text : String)
    → c.retriever ≡ some mr
    → get_kg_facts c kg text ≡ facts_of_words c.texts.lower kg (c.split (c.texts.lower text))
unfolding get_kg_facts
get_kg_facts-step c mr kg text has = simp (get_kg_facts, has) refl

get_kg_facts-grown_graph :
    (c : Controller) (mr : MemoryRetriever) (es : List String) (rels : List Relationship)
    (kg : GraphStore) (text e : String) (r : Relationship)
    → c.retriever ≡ some mr
    → In e es
    → In r rels
    → In (c.texts.lower (c.texts.strip e)) (c.split (c.texts.lower text))
    → c.texts.lower r.subject ≡ c.texts.lower (c.texts.lower (c.texts.strip e))
    → (x : Relationship) × In x (get_kg_facts c (grown_graph c (some (es, rels)) kg) text)
      × same_triple c.texts.lower x r ≡ true
get_kg_facts-grown_graph c mr es rels kg text e r has he hr hw subject =
    rw (get_kg_facts-step c mr (grown_graph c (some (es, rels)) kg) text has) (
      rw (grown_graph-In c mr es rels kg r has hr) (
        facts_of_words-add_data c.texts.lower c.texts.strip es rels kg
          (c.split (c.texts.lower text)) e r he hr hw subject))

-- After an interaction is stored with entities and relationships, whatever else its layers raised and
-- whatever was stored before, a query of any session that has a given entity among its lowered words
-- gets from the knowledge graph, for each given relationship of which the entity is the subject, one with
-- the same triple up to case.
pub get_unified_context-store_interaction :
    (c : Controller) (mr : MemoryRetriever) (clocks : Clocks) (es : List String)
    (rels : List Relationship) (before : Stored × Locks)
    (session_id asked answer later_session text : String) (limit : ℕ) (locks : Locks) (e : String)
    (r : Relationship)
    → c.retriever ≡ some mr
    → In e es
    → In r rels
    → In (c.texts.lower (c.texts.strip e)) (c.split (c.texts.lower text))
    → c.texts.lower r.subject ≡ c.texts.lower (c.texts.lower (c.texts.strip e))
    → (x : Relationship) × In x
        (get_unified_context c clocks
          (store_interaction c session_id asked answer (some (es, rels)) before).0.graph
          text
          later_session
          limit
          locks).0.kg_facts
      × same_triple c.texts.lower x r ≡ true
unfolding store_interaction get_unified_context snapshot_of
get_unified_context-store_interaction c mr clocks es rels (s, old) session_id asked answer
      later_session text limit locks e r has he hr hw subject =
    get_kg_facts-grown_graph c mr es rels
      (store_vector c asked answer (store_conversation c session_id asked answer s)).graph text e r
      has he hr hw subject
