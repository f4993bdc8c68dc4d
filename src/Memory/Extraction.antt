-- ===== src/Memory/Extraction.antt =====
-- app/memory/authority.py: the facts that the texts of the memories hold.
--
-- What `_KV_PATTERN.finditer` finds in a text is a parameter, as its pairs of groups; so are Python's
-- methods of texts and `re.sub(r"\s+", "_", …)`. `created` is the clock where a fact is made, by the facts
-- that its function made before. A confidence is a number of hundredths.
use Prim.Native.String
use ai_chatbot_platform.Prelude.{
  ℕ, suc, Bool, false, ◌||◌, Option, none, some, List, [], ◌∷◌, ◌++◌, String, leb, str_eq,
  if◌then◌else◌,
}
use ai_chatbot_platform.KnowledgeGraph.GraphStore.{Relationship}
use ai_chatbot_platform.Memory.Authority.{
  MemoryFact, MemorySource, vector, knowledge_graph, conversation,
}

pub record TextMethods : Type 0 where
  pub lower : String → String
  pub strip : String → String
  -- `rstrip(".")`
  pub rstrip_dot : String → String
  -- `re.sub(r"\s+", "_", …)`
  pub underscores : String → String
  pub find_pairs : String → List (String × String)

pub record Message : Type 0 where
  pub role : String
  pub content : String

-- `needle in text`
abbrev pub contains : String → String → Bool
contains needle text = leb (String.find text needle) (String.len text)

abbrev pub profile_keys : List String
profile_keys =
    "name" ∷ "language" ∷ "preferred language" ∷ "programming language" ∷ "location" ∷ "timezone"
    ∷ "role" ∷ "job" ∷ "company" ∷ "email" ∷ "framework" ∷ "editor" ∷ "os" ∷ "operating system"
    ∷ "favorite language" ∷ "favourite language" ∷ []

unfoldable pub is_profile_key : List String → String → Bool
is_profile_key [] raw_key = false
is_profile_key (pk ∷ pks) raw_key = contains pk raw_key || is_profile_key pks raw_key

-- `rel.get("trust_score", 0.5)`
abbrev pub trust_of : Option ℕ → ℕ
trust_of none = 50
trust_of (some t) = t

module _ (t : TextMethods) where
  normalise_key : String → String
  normalise_key raw = t.underscores (t.lower (t.strip raw))

  -- The loop over the matches in one text; `made` counts the facts that are made before.
  unfoldable pub facts_of_pairs :
      MemorySource → ℕ → (ℕ → ℕ) → ℕ → List (String × String) → List MemoryFact
  unfolding normalise_key
  facts_of_pairs source confidence created made [] = []
  facts_of_pairs source confidence created made ((group1, group2) ∷ pairs) =
      let raw_key = t.lower (t.strip group1) in
      let after = facts_of_pairs source confidence created (suc made) pairs in
      let skipped = facts_of_pairs source confidence created made pairs in
      if is_profile_key profile_keys raw_key
      then record {
        key = normalise_key raw_key;
        value = t.rstrip_dot (t.strip group2);
        source = source;
        timestamp = created made;
        confidence = confidence;
      }
        ∷ after
      else skipped

  -- All its facts have the time at which the function was called.
  unfoldable pub extract_facts_from_conversation : ℕ → List Message → List MemoryFact
  unfolding facts_of_pairs
  extract_facts_from_conversation now [] = []
  extract_facts_from_conversation now (msg ∷ messages) =
      let rest = extract_facts_from_conversation now messages in
      if str_eq msg.role "user"
      then facts_of_pairs conversation 100 (λ _. now) 0 (t.find_pairs msg.content) ++ rest
      else rest

  unfoldable pub extract_facts_from_kg : (ℕ → ℕ) → ℕ → List Relationship → List MemoryFact
  unfolding normalise_key
  extract_facts_from_kg created made [] = []
  extract_facts_from_kg created made (rel ∷ rels) =
      record {
        key = normalise_key (String.◌++◌ rel.subject (String.◌++◌ "_" rel.relation));
        value = rel.object;
        source = knowledge_graph;
        timestamp = created made;
        confidence = trust_of rel.trust_score;
      }
      ∷ extract_facts_from_kg created (suc made) rels

  unfoldable pub extract_facts_from_vector_context : (ℕ → ℕ) → String → List MemoryFact
  unfolding facts_of_pairs
  extract_facts_from_vector_context created context =
      facts_of_pairs vector 70 created 0 (t.find_pairs context)
