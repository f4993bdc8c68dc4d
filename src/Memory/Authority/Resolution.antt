-- ===== src/Memory/Authority/Resolution.antt =====
-- What `resolve_all` decides for each key.
use mathlib.Core.Path.{subst}
use ai_chatbot_platform.Prelude.{
  ◌≡◌, ◌≢◌, refl, sym, ◌∙◌, ℕ, true, false, ◌⊎◌, inl, inr, none, some, List, [], ◌∷◌, String,
  str_eq, eq_iff, arith, All, All-map, In, Dict, lookup, keys, Distinct, lookup-absent, Bool-cases,
  Option-cases, if◌then◌else◌,
}
use ai_chatbot_platform.Memory.Authority.{
  MemoryFact, group_of, group_by_key, pick_winner, judge, sort_facts, qualifies, select, winners,
  resolve_all,
}
use ai_chatbot_platform.Memory.Authority.Groups.{about, lookup-group_by_key, group_by_key-Distinct}
use ai_chatbot_platform.Memory.Authority.Standing.{
  IsBelow, IsWeak, Counts, at_most-IsBelow, qualifies-IsWeak, qualifies-Counts, In-select,
  All-select,
}
use ai_chatbot_platform.Memory.Authority.Winner.{pick_winner_cases}

pick_winner_nil : (pick_winner []).0 ≡ none
unfolding pick_winner judge sort_facts
pick_winner_nil = refl

lookup-winners_nil : (k : String) → lookup k (winners []) ≡ (pick_winner (group_of (lookup k []))).0
unfolding lookup winners
lookup-winners_nil k = sym pick_winner_nil

pub absent_group :
    (k j : String) (d : Dict (List MemoryFact))
    → Distinct (j ∷ keys d)
    → str_eq j k ≡ true
    → lookup k d ≡ none
absent_group k j d h same =
    subst (λ x. lookup x d ≡ none) ((eq_iff j k).0 same) (lookup-absent j d h.0)

winners-none :
    (j : String) (fs : List MemoryFact) (d : Dict (List MemoryFact))
    → (pick_winner fs).0 ≡ none
    → winners ((j, fs) ∷ d) ≡ winners d
unfolding winners
winners-none j fs d e = rw (winners, e) refl

winners-some :
    (j : String) (fs : List MemoryFact) (d : Dict (List MemoryFact)) (w : MemoryFact)
    → (pick_winner fs).0 ≡ some w
    → winners ((j, fs) ∷ d) ≡ (j, w) ∷ winners d
unfolding winners
winners-some j fs d w e = rw (winners, e) refl

pub lookup_cons :
    {V : Type 0} (k j : String) (v : V) (d : Dict V)
    → lookup k ((j, v) ∷ d) ≡ (if str_eq j k then some v else lookup k d)
unfolding lookup
lookup_cons k j v d = refl

lookup-winners :
    (k : String) (d : Dict (List MemoryFact))
    → Distinct (keys d)
    → lookup k (winners d) ≡ (pick_winner (group_of (lookup k d))).0
lookup-winners k [] h = lookup-winners_nil k
lookup-winners k ((j, fs) ∷ d) h = elim (Bool-cases (str_eq j k)) [
  | inl same ↦ elim (Option-cases (pick_winner fs).0) [
    | inl e ↦
        rw (lookup_cons k j fs d, same, e, winners-none j fs d e)
          (lookup-winners k d h.1 ∙ rw (absent_group k j d h same) pick_winner_nil)
    | inr (w, e) ↦
        rw
          (
            lookup_cons k j fs d,
            same,
            e,
            winners-some j fs d w e,
            lookup_cons k j w (winners d),
            same,
          )
          refl
  ]
  | inr other ↦ elim (Option-cases (pick_winner fs).0) [
    | inl e ↦ rw (lookup_cons k j fs d, other, winners-none j fs d e) (lookup-winners k d h.1)
    | inr (w, e) ↦
        rw
          (
            lookup_cons k j fs d,
            other,
            winners-some j fs d w e,
            lookup_cons k j w (winners d),
            other,
          )
          (lookup-winners k d h.1)
  ]
]

pub lookup-resolve_all :
    (threshold : ℕ) (facts : List MemoryFact) (k : String)
    → lookup k (resolve_all threshold facts)
      ≡ (pick_winner (select (about k) (select (qualifies threshold) facts))).0
unfolding resolve_all
lookup-resolve_all threshold facts k =
    let qualified = select (qualifies threshold) facts in
    rw
      (
        lookup-winners k (group_by_key qualified) (group_by_key-Distinct qualified),
        lookup-group_by_key k qualified,
      )
      refl

-- A fact about another key, or one that does not count.
abbrev pub IsAside : ℕ → String → MemoryFact → Type 0
IsAside threshold k f = (f.key ≢ k) ⊎ IsWeak threshold f

-- What the tests of a fact leave, over the facts that they are made of.
All-counting :
    (P : MemoryFact → Type 0) (threshold : ℕ) (facts : List MemoryFact) (k : String)
    → All P (select (about k) (select (qualifies threshold) facts))
    → All (λ f. IsAside threshold k f ⊎ P f) facts
All-counting P threshold facts k a =
    All-map
      (λ f h. elim h [
        | inl weak ↦ inl (inr (qualifies-IsWeak threshold f weak))
        | inr (inl other) ↦ inl (inl (λ e. ground (arith, eq_iff f.key k, other, e)))
        | inr (inr p) ↦ inr p
      ])
      facts
      (All-select (λ f. (about k f ≡ false) ⊎ P f) (qualifies threshold) facts
        (All-select P (about k) (select (qualifies threshold) facts) a))

no_counting :
    (threshold : ℕ) (facts : List MemoryFact) (k : String)
    → select (about k) (select (qualifies threshold) facts) ≡ []
    → All (IsAside threshold k) facts
no_counting threshold facts k e =
    All-map (λ f h. elim h [ inl aside ↦ aside | inr never ↦ absurd never ]) facts
      (All-counting (λ f. ⊥) threshold facts k (subst (All (λ f. ⊥)) (sym e) tt))

-- For each key: either every fact is about another key, or of the knowledge graph with a confidence below
-- the threshold, and the resolved dictionary has no entry for the key; or its entry is one of the facts
-- about the key that is not so, and every other such fact is below it: its source has less authority,
-- where the conversation stands above the knowledge graph and that above the vector memory, or as much
-- and it is earlier, or of the same time and no more certain.
pub resolve_all-Wins :
    (threshold : ℕ) (facts : List MemoryFact) (k : String)
    → (lookup k (resolve_all threshold facts) ≡ none) × All (IsAside threshold k) facts
      ⊎ ((w : MemoryFact) × lookup k (resolve_all threshold facts) ≡ some w
          × In w facts
          × w.key ≡ k
          × Counts threshold w
          × All (λ f. IsAside threshold k f ⊎ IsBelow f w) facts)
resolve_all-Wins threshold facts k =
    let counting = select (about k) (select (qualifies threshold) facts) in
    rw (lookup-resolve_all threshold facts k) (elim (pick_winner_cases counting) [
      | inl (nothing, e) ↦ inl (e, no_counting threshold facts k nothing)
      | inr (w, e, (inside, above)) ↦
          let (among, hit) = In-select (about k) w (select (qualifies threshold) facts) inside in
          let (given, counts) = In-select (qualifies threshold) w facts among in
          inr (
            w,
            e,
            given,
            (eq_iff w.key k).0 hit,
            qualifies-Counts threshold w counts,
            All-counting (λ f. IsBelow f w) threshold facts k
                (All-map (λ f h. at_most-IsBelow f w h) counting above),
          )
    ])
