-- ===== src/Memory/Controller/FirstTold.antt =====
-- What the conversation says first of a key is what the unified context believes.
use mathlib.Core.Path.{subst}
use ai_chatbot_platform.Prelude.{
  ◌≡◌, refl, ℕ, suc, Bool, true, inl, inr, some, List, [], ◌∷◌, ◌++◌, String, arith, str_eq, All,
  All-append, All-map, Bool-cases, lookup, ltb,
}
use ai_chatbot_platform.KnowledgeGraph.GraphStore.{Relationship, GraphStore}
use ai_chatbot_platform.Memory.Authority.{
  MemoryFact, MemorySource, vector, conversation, rank, qualifies, select, resolve_all, reconcile,
}
use ai_chatbot_platform.Memory.Authority.Groups.{about}
use ai_chatbot_platform.Memory.Authority.Winner.{Below, pick_winner-first}
use ai_chatbot_platform.Memory.Authority.Resolution.{lookup-resolve_all}
use ai_chatbot_platform.Memory.Extraction
use ai_chatbot_platform.Memory.Extraction.{
  TextMethods, is_profile_key, profile_keys, facts_of_pairs, extract_facts_from_conversation,
  extract_facts_from_kg, extract_facts_from_vector_context,
}
use ai_chatbot_platform.Memory.Controller.{
  Controller, Clocks, Locks, extract_all_facts, snapshot_of, get_unified_context,
}

-- A fact that the user told, and one that some other layer has.
abbrev Told : ℕ → MemoryFact → Type 0
Told now f = (f.source ≡ conversation) × (f.timestamp ≡ now) × (f.confidence ≡ 100)

abbrev Learned : MemoryFact → Type 0
Learned f = ltb (rank f.source) 3 ≡ true

select-append :
    (p : MemoryFact → Bool) (xs ys : List MemoryFact)
    → select p (xs ++ ys) ≡ select p xs ++ select p ys
unfolding select
select-append p [] ys = refl
select-append p (x ∷ xs) ys = elim (Bool-cases (p x)) [
  | inl e ↦ rw (e, select-append p xs ys) refl
  | inr e ↦ rw (e, select-append p xs ys) refl
]

select-All :
    (P : MemoryFact → Type 0) (p : MemoryFact → Bool) (xs : List MemoryFact)
    → All P xs
    → All P (select p xs)
unfolding select
select-All P p [] a = tt
select-All P p (x ∷ xs) a = elim (Bool-cases (p x)) [
  | inl e ↦ rw e (a.0, select-All P p xs a.1)
  | inr e ↦ rw e (select-All P p xs a.1)
]

Told-qualifies : (threshold now : ℕ) (f : MemoryFact) → Told now f → qualifies threshold f ≡ true
Told-qualifies threshold now f h = rw h.0 refl

select-Told :
    (threshold now : ℕ) (fs : List MemoryFact)
    → All (Told now) fs
    → select (qualifies threshold) fs ≡ fs
unfolding select
select-Told threshold now [] a = refl
select-Told threshold now (f ∷ fs) a =
    rw (Told-qualifies threshold now f a.0, select-Told threshold now fs a.1) refl

Told-Below : (now : ℕ) (f g : MemoryFact) → Told now f → Told now g → Below f g
Told-Below now f g h k = rw (h.0, k.0, h.1, k.1, h.2, k.2) (ground arith)

Learned-Below : (now : ℕ) (f g : MemoryFact) → Told now f → Learned g → Below f g
Learned-Below now f g h k = rw (h.0, k) refl

module _ (t : TextMethods) where
  facts_of_pairs-All :
      (P : MemoryFact → Type 0) (source : MemorySource) (confidence : ℕ) (created : ℕ → ℕ)
      (made : ℕ) (pairs : List (String × String))
      → ((key value : String) (n : ℕ)
          → P (record {
            key = key;
            value = value;
            source = source;
            timestamp = created n;
            confidence = confidence;
          }))
      → All P (facts_of_pairs t source confidence created made pairs)
  unfolding facts_of_pairs
  facts_of_pairs-All P source confidence created made [] h = tt
  facts_of_pairs-All P source confidence created made ((g1, g2) ∷ pairs) h =
      elim (Bool-cases (is_profile_key profile_keys (t.lower (t.strip g1)))) [
        | inl e ↦
            rw e (h _ _ made, facts_of_pairs-All P source confidence created (suc made) pairs h)
        | inr e ↦ rw e (facts_of_pairs-All P source confidence created made pairs h)
      ]

  conversation-Told :
      (now : ℕ) (ms : List Extraction.Message)
      → All (Told now) (extract_facts_from_conversation t now ms)
  unfolding extract_facts_from_conversation
  conversation-Told now [] = tt
  conversation-Told now (m ∷ ms) = elim (Bool-cases (str_eq m.role "user")) [
    | inl e ↦ rw e (
        All-append (Told now) _ _
          (facts_of_pairs-All (Told now) conversation 100 (λ _. now) 0 (t.find_pairs m.content)
            (λ key value n. (refl, refl, refl)))
          (conversation-Told now ms))
    | inr e ↦ rw e (conversation-Told now ms)
  ]

  kg-Learned :
      (created : ℕ → ℕ) (made : ℕ) (rels : List Relationship)
      → All Learned (extract_facts_from_kg t created made rels)
  unfolding extract_facts_from_kg
  kg-Learned created made [] = tt
  kg-Learned created made (r ∷ rels) = (refl, kg-Learned created (suc made) rels)

  vector-Learned :
      (created : ℕ → ℕ) (context : String)
      → All Learned (extract_facts_from_vector_context t created context)
  unfolding extract_facts_from_vector_context
  vector-Learned created context =
      facts_of_pairs-All Learned vector 70 created 0 (t.find_pairs context) (λ key value n. refl)

-- The fact that stands first among those of a list that the user told wins over the others and over
-- what the other layers learned.
resolve_all-first :
    (threshold now : ℕ) (k : String) (told learned : List MemoryFact) (f : MemoryFact)
    (later : List MemoryFact)
    → All (Told now) told
    → All Learned learned
    → select (about k) told ≡ f ∷ later
    → lookup k (resolve_all threshold (told ++ learned)) ≡ some f
resolve_all-first threshold now k told learned f later a b e =
    let mine : All (Told now) (f ∷ later) =
      subst (All (Told now)) e (select-All (Told now) (about k) told a) in
    let others = select (about k) (select (qualifies threshold) learned) in
    rw
      (
        lookup-resolve_all threshold (told ++ learned) k,
        select-append (qualifies threshold) told learned,
        select-Told threshold now told a,
        select-append (about k) told (select (qualifies threshold) learned),
        e,
      )
      (pick_winner-first f (later ++ others) (
        All-append (Below f) later others
          (All-map (λ g h. Told-Below now f g mine.0 h) later mine.1)
          (All-map (λ g h. Learned-Below now f g mine.0 h) others
            (select-All Learned (about k) (select (qualifies threshold) learned)
              (select-All Learned (qualifies threshold) learned b)))))

snapshot_of-first :
    (c : Controller) (clocks : Clocks) (history : List Extraction.Message) (context : String)
    (kg_facts : List Relationship) (k : String) (f : MemoryFact) (later : List MemoryFact)
    → select (about k) (extract_facts_from_conversation c.texts clocks.said_at history) ≡ f ∷ later
    → lookup k (snapshot_of c clocks history context kg_facts).resolved_facts ≡ some f
unfolding snapshot_of extract_all_facts reconcile
snapshot_of-first c clocks history context kg_facts k f later e =
    resolve_all-first c.kg_confidence_threshold clocks.said_at k
      (extract_facts_from_conversation c.texts clocks.said_at history)
      (extract_facts_from_vector_context c.texts clocks.recalled context
        ++ extract_facts_from_kg c.texts clocks.related 0 kg_facts)
      f later (conversation-Told c.texts clocks.said_at history)
      (All-append Learned _ _ (vector-Learned c.texts clocks.recalled context)
        (kg-Learned c.texts clocks.related 0 kg_facts))
      e

-- Of the facts about a key that the user's messages in the snapshot state, the unified context believes
-- the one that stands first, whatever the later messages, the vector memory and the knowledge graph say
-- about the key, whichever of them raised, and whatever the confidence threshold is.
pub get_unified_context-first :
    (c : Controller) (clocks : Clocks) (kg : GraphStore) (text session_id : String) (limit : ℕ)
    (locks : Locks) (k : String) (f : MemoryFact) (later : List MemoryFact)
    → select (about k) (
        extract_facts_from_conversation c.texts clocks.said_at
          (get_unified_context c clocks kg text session_id limit locks).0.conversation_history)
      ≡ f ∷ later
    → lookup k (get_unified_context c clocks kg text session_id limit locks).0.resolved_facts
      ≡ some f
unfolding get_unified_context
get_unified_context-first c clocks kg text session_id limit locks k f later e =
    snapshot_of-first c clocks _ _ _ k f later e
