-- ===== src/KnowledgeGraph/GraphStore/Additions.antt =====
-- What `add_data` adds.
use ai_chatbot_platform.Prelude.{
  ◌≡◌, refl, ap, ◌∙◌, ℕ, true, false, ◌||◌, inl, inr, Option, none, some, List, [], ◌∷◌, ◌++◌,
  String, arith, eq_iff, Bool-cases,
}
use ai_chatbot_platform.KnowledgeGraph.GraphStore.{
  Relationship, GraphStore, enriched, same_triple, is_known, add_relationships, add_entities,
  add_data,
}

module _ (lower : String → String) where
  same_triple_trans :
      (r s t : Relationship)
      → same_triple lower r s ≡ true
      → same_triple lower s t ≡ true
      → same_triple lower r t ≡ true
  unfolding same_triple
  same_triple_trans r s t e f = ground (
    arith,
    eq_iff (lower r.subject) (lower s.subject),
    eq_iff (lower s.subject) (lower t.subject),
    eq_iff (lower r.subject) (lower t.subject),
    eq_iff (lower r.relation) (lower s.relation),
    eq_iff (lower s.relation) (lower t.relation),
    eq_iff (lower r.relation) (lower t.relation),
    eq_iff (lower r.object) (lower s.object),
    eq_iff (lower s.object) (lower t.object),
    eq_iff (lower r.object) (lower t.object),
  )

  is_known_same :
      (rs : List Relationship) (r s : Relationship)
      → is_known lower rs r ≡ true
      → same_triple lower r s ≡ true
      → is_known lower rs s ≡ true
  unfolding is_known
  is_known_same [] r s e f = ground arith
  is_known_same (x ∷ xs) r s e f = ground (arith, same_triple_trans x r s, is_known_same xs r s)

  same_triple-enriched :
      (trust : Option ℕ) (r s : Relationship)
      → same_triple lower (enriched trust r) s ≡ same_triple lower r s
  unfolding same_triple
  same_triple-enriched none r s = refl
  same_triple-enriched (some t) r s = refl

  is_known-append :
      (rs : List Relationship) (x r : Relationship)
      → is_known lower (rs ++ x ∷ []) r ≡ (is_known lower rs r || same_triple lower x r)
  unfolding is_known
  is_known-append [] x r = ground arith
  is_known-append (y ∷ rs) x r = ground (arith, is_known-append rs x r)

  -- The relationships that are known afterwards.
  pub is_known-add_relationships :
      (trust : Option ℕ) (rs new : List Relationship) (q : Relationship)
      → is_known lower (add_relationships lower trust rs new).0 q
        ≡ (is_known lower rs q || is_known lower new q)
  unfolding add_relationships is_known
  is_known-add_relationships trust rs [] q = ground arith
  is_known-add_relationships trust rs (r ∷ new) q = ground (
    arith,
    is_known-add_relationships trust rs new q,
    is_known-add_relationships trust (rs ++ enriched trust r ∷ []) new q,
    is_known-append rs (enriched trust r) q,
    same_triple-enriched trust r q,
    is_known_same rs r q,
  )

  -- No two of some relationships have the same triple.
  abbrev pub AllNew : List Relationship → Type 0
  AllNew [] = Unit
  AllNew (r ∷ rs) = (is_known lower rs r ≡ false) × AllNew rs

  unchanged_relationships :
      (trust : Option ℕ) (rs new : List Relationship)
      → (add_relationships lower trust rs new).1 ≡ false
      → (add_relationships lower trust rs new).0 ≡ rs
  unfolding add_relationships
  unchanged_relationships trust rs [] e = refl
  unchanged_relationships trust rs (r ∷ new) e =
      ground (arith, unchanged_relationships trust rs new)

  same_triple_sym : (r s : Relationship) → same_triple lower r s ≡ same_triple lower s r
  unfolding same_triple
  same_triple_sym r s = ground (
    arith,
    eq_iff (lower r.subject) (lower s.subject),
    eq_iff (lower s.subject) (lower r.subject),
    eq_iff (lower r.relation) (lower s.relation),
    eq_iff (lower s.relation) (lower r.relation),
    eq_iff (lower r.object) (lower s.object),
    eq_iff (lower s.object) (lower r.object),
  )

  append-AllNew :
      (rs : List Relationship) (x : Relationship)
      → AllNew rs
      → is_known lower rs x ≡ false
      → AllNew (rs ++ x ∷ [])
  unfolding is_known
  append-AllNew [] x a e = (refl, tt)
  append-AllNew (r ∷ rs) x a e = (
    ground (arith, a.0, is_known-append rs x r, same_triple_sym r x),
    append-AllNew rs x a.1 (ground arith),
  )

  is_known-enriched :
      (trust : Option ℕ) (rs : List Relationship) (r : Relationship)
      → is_known lower rs (enriched trust r) ≡ is_known lower rs r
  unfolding is_known same_triple
  is_known-enriched none rs r = refl
  is_known-enriched (some t) [] r = refl
  is_known-enriched (some t) (x ∷ rs) r =
      ap (λ b. same_triple lower x r || b) (is_known-enriched (some t) rs r)

  add_relationships-AllNew :
      (trust : Option ℕ) (rs new : List Relationship)
      → AllNew rs
      → AllNew (add_relationships lower trust rs new).0
  unfolding add_relationships
  add_relationships-AllNew trust rs [] a = a
  add_relationships-AllNew trust rs (r ∷ new) a = elim (Bool-cases (is_known lower rs r)) [
    | inl old ↦ rw (old, add_relationships) (add_relationships-AllNew trust rs new a)
    | inr fresh ↦
        rw (fresh, add_relationships)
          (add_relationships-AllNew trust (rs ++ enriched trust r ∷ []) new
            (append-AllNew rs (enriched trust r) a (is_known-enriched trust rs r ∙ fresh)))
  ]

unchanged_entities :
    (lower strip : String → String) (known es : List String)
    → (add_entities lower strip known es).1 ≡ false
    → (add_entities lower strip known es).0 ≡ known
unfolding add_entities
unchanged_entities lower strip known [] e = refl
unchanged_entities lower strip known (x ∷ es) e =
    ground (arith, unchanged_entities lower strip known es)

-- `add_data` keeps the relationships free of two with the same triple up to case; a triple is known
-- afterwards exactly if it was known before or is among the given ones; and a file that held the store
-- before holds it afterwards.
pub add_data_exact :
    (lower strip : String → String) (es : List String) (rs : List Relationship) (trust : Option ℕ)
    (g : GraphStore) (q : Relationship)
    → AllNew lower g.relationships
    → g.disk ≡ (g.entities, g.relationships)
    → AllNew lower (add_data lower strip es rs trust g).relationships
      × (is_known lower (add_data lower strip es rs trust g).relationships q
          ≡ (is_known lower g.relationships q || is_known lower rs q))
      × ((add_data lower strip es rs trust g).disk ≡ (
        (add_data lower strip es rs trust g).entities,
        (add_data lower strip es rs trust g).relationships,
      ))
unfolding add_data
add_data_exact lower strip es rs trust g q a d = (
  add_relationships-AllNew lower trust g.relationships rs a,
  is_known-add_relationships lower trust g.relationships rs q,
  ground (
    arith,
    unchanged_entities lower strip g.entities es,
    unchanged_relationships lower trust g.relationships rs,
  ),
)
