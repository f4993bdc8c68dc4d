-- ===== src/Memory/Authority/Standing.antt =====
-- The order of authority, the facts that count, and the facts about a key, said of the facts alone.
use ai_chatbot_platform.Prelude.{
  ◌≡◌, ◌≢◌, refl, ap, ◌∙◌, ℕ, ◌≤◌, ◌<◌, ◌+◌, Bool, true, false, not, ◌&&◌, ◌||◌, ◌⊎◌, inl, inr,
  List, [], ◌∷◌, String, arith, ltb, leb, ◌==◌, str_eq, All, In, Bool-cases, if◌then◌else◌,
}
use ai_chatbot_platform.Memory.Authority.{
  MemoryFact, MemorySource, vector, knowledge_graph, conversation, rank, at_most, qualifies, select,
}
use ai_chatbot_platform.Memory.Authority.Groups.{about}

-- The user's own words stand above the knowledge graph, and that above what was learned.
abbrev pub authority_of : MemorySource → ℕ
authority_of vector = 0
authority_of knowledge_graph = 1
authority_of conversation = 2

-- A fact is not above another: the other's source has more authority, or as much and the other is later,
-- or is as late and no less certain.
abbrev pub IsBelow : MemoryFact → MemoryFact → Type 0
IsBelow f w =
    (authority_of f.source < authority_of w.source)
    ⊎ ((authority_of f.source ≡ authority_of w.source)
        × ((f.timestamp < w.timestamp)
            ⊎ ((f.timestamp ≡ w.timestamp) × (f.confidence ≤ w.confidence))))

-- An uncertain fact of the knowledge graph, and any other.
abbrev pub IsWeak : ℕ → MemoryFact → Type 0
IsWeak threshold f = (f.source ≡ knowledge_graph) × (f.confidence < threshold)

abbrev pub Counts : ℕ → MemoryFact → Type 0
Counts threshold f = (f.source ≢ knowledge_graph) ⊎ (threshold ≤ f.confidence)

-- The facts about a key, in their order.
unfoldable pub of_key : String → List MemoryFact → List MemoryFact
of_key k [] = []
of_key k (f ∷ fs) = let rest = of_key k fs in if str_eq f.key k then f ∷ rest else rest

pub select-about : (k : String) (fs : List MemoryFact) → select (about k) fs ≡ of_key k fs
unfolding select of_key
select-about k [] = refl
select-about k (f ∷ fs) = ap (λ rest. if str_eq f.key k then f ∷ rest else rest) (select-about k fs)

rank_lem : (s : MemorySource) → rank s ≡ authority_of s + 1
rank_lem vector = refl
rank_lem knowledge_graph = refl
rank_lem conversation = refl

ordered :
    (a b t u c d : ℕ)
    → (ltb (a + 1) (b + 1) || ((a + 1) == (b + 1)) && (ltb t u || (t == u) && leb c d)) ≡ true
    → (a < b) ⊎ ((a ≡ b) × ((t < u) ⊎ ((t ≡ u) × (c ≤ d))))
ordered a b t u c d h = ground arith

pub at_most-IsBelow : (f w : MemoryFact) → at_most f w ≡ true → IsBelow f w
at_most-IsBelow f w h =
    ordered (authority_of f.source) (authority_of w.source) f.timestamp w.timestamp f.confidence
      w.confidence (rw (rank_lem f.source, rank_lem w.source) at h)

weak_source :
    (threshold confidence : ℕ) (s : MemorySource)
    → not ((rank s == 2) && ltb confidence threshold) ≡ false
    → (s ≡ knowledge_graph) × (confidence < threshold)
weak_source threshold confidence vector h = ground arith
weak_source threshold confidence knowledge_graph h = (refl, ground arith)
weak_source threshold confidence conversation h = ground arith

is_graph : MemorySource → Bool
is_graph vector = false
is_graph knowledge_graph = true
is_graph conversation = false

no_graph : (s : MemorySource) → is_graph s ≡ false → s ≢ knowledge_graph
unfolding is_graph
no_graph s h e = ground (arith, ap is_graph e)

strong_source :
    (threshold confidence : ℕ) (s : MemorySource)
    → not ((rank s == 2) && ltb confidence threshold) ≡ true
    → (s ≢ knowledge_graph) ⊎ (threshold ≤ confidence)
unfolding is_graph
strong_source threshold confidence vector h = inl (no_graph vector refl)
strong_source threshold confidence knowledge_graph h = inr (ground arith)
strong_source threshold confidence conversation h = inl (no_graph conversation refl)

pub qualifies-IsWeak :
    (threshold : ℕ) (f : MemoryFact) → qualifies threshold f ≡ false → IsWeak threshold f
qualifies-IsWeak threshold f h = weak_source threshold f.confidence f.source h

pub qualifies-Counts :
    (threshold : ℕ) (f : MemoryFact) → qualifies threshold f ≡ true → Counts threshold f
qualifies-Counts threshold f h = strong_source threshold f.confidence f.source h

pub In-select :
    (p : MemoryFact → Bool) (w : MemoryFact) (xs : List MemoryFact)
    → In w (select p xs)
    → In w xs × (p w ≡ true)
unfolding select
In-select p w [] h = absurd h
In-select p w (x ∷ xs) h = elim (Bool-cases (p x)) [
  | inl yes' ↦ elim (rw yes' at h) [
    | inl e ↦ (inl e, ap p e ∙ yes')
    | inr later ↦ let (i, q) = In-select p w xs later in (inr i, q)
  ]
  | inr no' ↦ let (i, q) = In-select p w xs (rw no' at h) in (inr i, q)
]

pub All-select :
    (P : MemoryFact → Type 0) (p : MemoryFact → Bool) (xs : List MemoryFact)
    → All P (select p xs)
    → All (λ x. (p x ≡ false) ⊎ P x) xs
unfolding select
All-select P p [] a = tt
All-select P p (x ∷ xs) a = elim (Bool-cases (p x)) [
  | inl yes' ↦ let b = rw yes' at a in (inr b.0, All-select P p xs b.1)
  | inr no' ↦ (inl no', All-select P p xs (rw no' at a))
]
