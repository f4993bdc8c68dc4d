-- ===== src/KnowledgeGraph/GraphStore.antt =====
-- app/knowledge_graph/graph_store.py: entities and relationships without duplicates.
--
-- The set of entities is a list, `lower` is Python's `str.lower`, and `strip` is `str.strip`. A trust
-- score is a number of hundredths. `disk` is what the file holds; a save succeeds, as `_save` only logs
-- where it does not.
pub mod Additions
pub mod Found
mod Tests
use ai_chatbot_platform.Prelude.{
  ℕ, Bool, true, false, ◌&&◌, ◌||◌, Option, none, some, List, [], ◌∷◌, ◌++◌, String, str_eq, leb,
  if◌then◌else◌,
}

pub record Relationship : Type 0 where
  pub subject : String
  pub relation : String
  pub object : String
  pub trust_score : Option ℕ

pub record GraphStore : Type 0 where
  pub entities : List String
  pub relationships : List Relationship
  pub disk : List String × List Relationship

abbrev pub member : List String → String → Bool
member [] e = false
member (x ∷ xs) e = str_eq x e || member xs e

-- `if trust_score is not None: enriched["trust_score"] = trust_score`
abbrev pub enriched : Option ℕ → Relationship → Relationship
enriched none r = r
enriched (some t) r = record r { trust_score = some t }

-- `r.get("trust_score", 1.0) >= min_trust`
abbrev pub trusted : ℕ → Option ℕ → Bool
trusted min_trust none = leb min_trust 100
trusted min_trust (some t) = leb min_trust t

module _ (lower strip : String → String) where
  -- The `for` loop over the entities, with whether it added one.
  unfoldable pub add_entities : List String → List String → List String × Bool
  add_entities known [] = (known, false)
  add_entities known (e ∷ es) =
      let clean = lower (strip e) in
      let (same, changed) = add_entities known es in
      let (grown, _) = add_entities (known ++ clean ∷ []) es in
      if member known clean then (same, changed) else (grown, true)

module _ (lower : String → String) where
  -- Two relationships with the same lowered triple.
  unfoldable pub same_triple : Relationship → Relationship → Bool
  same_triple r s =
      str_eq (lower r.subject) (lower s.subject)
      && str_eq (lower r.relation) (lower s.relation)
      && str_eq (lower r.object) (lower s.object)

  unfoldable pub is_known : List Relationship → Relationship → Bool
  unfolding same_triple
  is_known [] r = false
  is_known (x ∷ xs) r = same_triple x r || is_known xs r

  unfoldable pub add_relationships :
      Option ℕ → List Relationship → List Relationship → List Relationship × Bool
  unfolding is_known
  add_relationships trust rs [] = (rs, false)
  add_relationships trust rs (r ∷ new) =
      let (same, changed) = add_relationships trust rs new in
      let (grown, _) = add_relationships trust (rs ++ enriched trust r ∷ []) new in
      if is_known rs r then (same, changed) else (grown, true)

  unfoldable pub query : String → List Relationship → List Relationship
  query entity [] = []
  query entity (r ∷ rs) =
      let rest = query entity rs in
      if str_eq (lower r.subject) (lower entity) || str_eq (lower r.object) (lower entity)
      then r ∷ rest
      else rest

unfoldable pub get_trusted_relationships : ℕ → List Relationship → List Relationship
get_trusted_relationships min_trust [] = []
get_trusted_relationships min_trust (r ∷ rs) =
    let rest = get_trusted_relationships min_trust rs in
    if trusted min_trust r.trust_score then r ∷ rest else rest

unfoldable pub add_data :
    (String → String)
    → (String → String)
    → List String
    → List Relationship
    → Option ℕ
    → GraphStore
    → GraphStore
unfolding add_entities add_relationships
add_data lower strip es rs trust g =
    let (entities, new_entity) = add_entities lower strip g.entities es in
    let (relationships, new_rel) = add_relationships lower trust g.relationships rs in
    record {
      entities = entities;
      relationships = relationships;
      disk = if new_entity || new_rel then (entities, relationships) else g.disk;
    }
