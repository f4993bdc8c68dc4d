-- ===== src/KnowledgeGraph/GraphStore/Found.antt =====
-- What was added is found by its entities.
use ai_chatbot_platform.Prelude.{
  ◌≡◌, refl, sym, ◌∙◌, true, ◌||◌, inl, inr, List, [], ◌∷◌, ◌++◌, String, arith, str_eq, eq_iff,
  Bool-cases, In,
}
use ai_chatbot_platform.KnowledgeGraph.GraphStore.{
  Relationship, member, same_triple, is_known, query, add_entities,
}

str_eq_refl : (s : String) → str_eq s s ≡ true
str_eq_refl s = (eq_iff s s).1 refl

member-append_left :
    (known : List String) (x w : String) → member known w ≡ true → member (known ++ x ∷ []) w ≡ true
member-append_left [] x w h = ground arith
member-append_left (k ∷ known) x w h = ground (arith, member-append_left known x w)

member-append_last : (known : List String) (x : String) → member (known ++ x ∷ []) x ≡ true
member-append_last [] x = ground (arith, str_eq_refl x)
member-append_last (k ∷ known) x = ground (arith, member-append_last known x)

module _ (lower strip : String → String) where
  member-add_entities_old :
      (known es : List String) (w : String)
      → member known w ≡ true
      → member (add_entities lower strip known es).0 w ≡ true
  unfolding add_entities
  member-add_entities_old known [] w h = h
  member-add_entities_old known (e ∷ es) w h = ground (
    arith,
    member-add_entities_old known es w h,
    member-add_entities_old (known ++ lower (strip e) ∷ []) es w
        (member-append_left known (lower (strip e)) w h),
  )

  member-add_entities_head :
      (known : List String) (e : String) (es : List String)
      → member (add_entities lower strip known (e ∷ es)).0 (lower (strip e)) ≡ true
  unfolding add_entities
  member-add_entities_head known e es = elim (Bool-cases (member known (lower (strip e)))) [
    | inl old ↦ rw (old, add_entities) (member-add_entities_old known es (lower (strip e)) old)
    | inr fresh ↦
        rw (fresh, add_entities)
          (member-add_entities_old (known ++ lower (strip e) ∷ []) es (lower (strip e))
            (member-append_last known (lower (strip e))))
  ]

  -- A new entity is among the entities afterwards, stripped and lowered.
  pub member-add_entities :
      (known es : List String) (e : String)
      → In e es
      → member (add_entities lower strip known es).0 (lower (strip e)) ≡ true
  unfolding add_entities
  member-add_entities known [] e h = absurd h
  member-add_entities known (x ∷ es) e (inl same) = rw same (member-add_entities_head known x es)
  member-add_entities known (x ∷ es) e (inr later) =
      elim (Bool-cases (member known (lower (strip x)))) [
        | inl old ↦ rw (old, add_entities) (member-add_entities known es e later)
        | inr fresh ↦
            rw (fresh, add_entities)
              (member-add_entities (known ++ lower (strip x) ∷ []) es e later)
      ]

module _ (lower : String → String) where
  same_triple_refl : (r : Relationship) → same_triple lower r r ≡ true
  unfolding same_triple
  same_triple_refl r =
      rw
        (
          str_eq_refl (lower r.subject),
          str_eq_refl (lower r.relation),
          str_eq_refl (lower r.object),
        )
        refl

  pub In-is_known :
      (rs : List Relationship) (r : Relationship) → In r rs → is_known lower rs r ≡ true
  unfolding is_known
  In-is_known [] r h = absurd h
  In-is_known (x ∷ rs) r (inl e) = rw (sym e, same_triple_refl r) refl
  In-is_known (x ∷ rs) r (inr h) = ground (arith, In-is_known rs r h)

  same_triple_subject :
      (x r : Relationship) → same_triple lower x r ≡ true → lower x.subject ≡ lower r.subject
  unfolding same_triple
  same_triple_subject x r h = ground (arith, eq_iff (lower x.subject) (lower r.subject))

  -- A known relationship is found by its subject.
  pub query-is_known :
      (rs : List Relationship) (r : Relationship) (w : String)
      → is_known lower rs r ≡ true
      → lower r.subject ≡ lower w
      → (x : Relationship) × In x (query lower w rs) × same_triple lower x r ≡ true
  unfolding is_known query
  query-is_known [] r w h e = absurd (ground arith)
  query-is_known (y ∷ rs) r w h e = elim (Bool-cases (same_triple lower y r)) [
    | inl same ↦
        let found = (eq_iff (lower y.subject) (lower w)).1 (same_triple_subject y r same ∙ e) in
        rw found (y, inl refl, same)
    | inr other ↦
        let (x, inside, same) = query-is_known rs r w (ground arith) e in
        elim (Bool-cases
          (str_eq (lower y.subject) (lower w) || str_eq (lower y.object) (lower w))) [
            | inl hit ↦ rw hit (x, inr inside, same)
            | inr miss ↦ rw miss (x, inside, same)
          ]
  ]
