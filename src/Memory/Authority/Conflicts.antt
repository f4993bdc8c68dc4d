-- ===== src/Memory/Authority/Conflicts.antt =====
-- What `detect_conflicts` reports for each key.
use ai_chatbot_platform.Prelude.{
  ◌≡◌, ◌≢◌, refl, sym, ◌∙◌, true, false, ◌⊎◌, inl, inr, some, List, [], ◌∷◌, String, str_eq, eq_iff,
  arith, All, All-map, In, Dict, lookup, keys, Distinct, Bool-cases, if◌then◌else◌,
}
use ai_chatbot_platform.Memory.Authority.{
  MemoryFact, MemoryConflict, group_of, group_by_key, differs, disagree, conflict_among,
  conflicts_of, detect_conflicts,
}
use ai_chatbot_platform.Memory.Authority.Groups.{lookup-group_by_key, group_by_key-Distinct}
use ai_chatbot_platform.Memory.Authority.Winner.{pick_winner_cases}
use ai_chatbot_platform.Memory.Authority.Standing.{IsBelow, at_most-IsBelow, of_key, select-about}
use ai_chatbot_platform.Memory.Authority.Resolution.{absent_group, lookup_cons}

-- The conflicts of a list that are about a key.
unfoldable pub conflicts_about : String → List MemoryConflict → List MemoryConflict
conflicts_about k [] = []
conflicts_about k (c ∷ cs) =
    let rest = conflicts_about k cs in if str_eq c.key k then c ∷ rest else rest

module _ (lower : String → String) where
  -- What is to be reported of the facts about a key.
  unfoldable pub report : String → List MemoryFact → List MemoryConflict
  report k fs = if disagree lower fs then conflict_among k fs ∷ [] else []

  report_nil : (k : String) → report k [] ≡ []
  unfolding report disagree
  report_nil k = refl

  conflicts_of_step :
      (k j : String) (fs : List MemoryFact) (d : Dict (List MemoryFact))
      → conflicts_about k (conflicts_of lower ((j, fs) ∷ d)) ≡ (
          if str_eq j k
          then (if disagree lower fs
              then conflict_among j fs ∷ conflicts_about k (conflicts_of lower d)
              else conflicts_about k (conflicts_of lower d))
          else conflicts_about k (conflicts_of lower d))
  unfolding conflicts_about conflicts_of
  conflicts_of_step k j fs d = elim (Bool-cases (disagree lower fs)) [
    | inl e ↦ rw e refl
    | inr e ↦ rw e (elim (Bool-cases (str_eq j k)) [ inl f ↦ rw f refl | inr f ↦ rw f refl ])
  ]

  conflicts_of_nil :
      (k : String) → conflicts_about k (conflicts_of lower []) ≡ report k (group_of (lookup k []))
  unfolding conflicts_about conflicts_of lookup report disagree
  conflicts_of_nil k = refl

  report_group :
      (k j : String) (fs : List MemoryFact)
      → j ≡ k
      → (if disagree lower fs then conflict_among j fs ∷ [] else []) ≡ report k fs
  unfolding report
  report_group k j fs e = rw e refl

  conflicts_of_about :
      (k : String) (d : Dict (List MemoryFact))
      → Distinct (keys d)
      → conflicts_about k (conflicts_of lower d) ≡ report k (group_of (lookup k d))
  conflicts_of_about k [] h = conflicts_of_nil k
  conflicts_of_about k ((j, fs) ∷ d) h = elim (Bool-cases (str_eq j k)) [
    | inl same ↦
        rw (conflicts_of_step k j fs d, lookup_cons k j fs d, same)
          (rw (conflicts_of_about k d h.1, absent_group k j d h same, report_nil k)
            (report_group k j fs ((eq_iff j k).0 same)))
    | inr other ↦
        rw (conflicts_of_step k j fs d, lookup_cons k j fs d, other) (conflicts_of_about k d h.1)
  ]

-- All of some facts have the same value up to case.
abbrev pub Agree : (String → String) → List MemoryFact → Type 0
Agree lower fs = All (λ f. All (λ g. lower f.value ≡ lower g.value) fs) fs

-- Two of some facts have different values.
abbrev pub Disagree : (String → String) → List MemoryFact → Type 0
Disagree lower fs =
    (f : MemoryFact) × (g : MemoryFact) × In f fs × In g fs × (lower f.value ≢ lower g.value)

-- A conflict about a key among some facts: it has all of them, and its winner is one of them that all the
-- others are below.
abbrev pub IsConflict : String → List MemoryFact → MemoryConflict → Type 0
IsConflict k fs c =
    (c.key ≡ k)
    × (c.facts ≡ fs)
    × ((w : MemoryFact) × (c.winner ≡ some w) × In w fs × All (λ f. IsBelow f w) fs)

module _ (lower : String → String) where
  differs-false :
      (v : String) (fs : List MemoryFact)
      → differs lower v fs ≡ false
      → All (λ g. lower v ≡ lower g.value) fs
  unfolding differs
  differs-false v [] h = tt
  differs-false v (g ∷ fs) h =
      (ground (arith, eq_iff (lower v) (lower g.value)), differs-false v fs (ground arith))

  differs-true :
      (v : String) (fs : List MemoryFact)
      → differs lower v fs ≡ true
      → (g : MemoryFact) × In g fs × (lower v ≢ lower g.value)
  unfolding differs
  differs-true v [] h = absurd (ground arith)
  differs-true v (g ∷ fs) h = elim (Bool-cases (str_eq (lower v) (lower g.value))) [
    | inr other ↦ (g, inl refl, λ e. ground (arith, eq_iff (lower v) (lower g.value), other, e))
    | inl same ↦
        let (x, inside, ne) = differs-true v fs (ground (arith, same)) in (x, inr inside, ne)
  ]

  same-All :
      (v : String) (fs : List MemoryFact) → All (λ g. lower v ≡ lower g.value) fs → Agree lower fs
  same-All v fs a = All-map (λ f e. All-map (λ g e'. sym e ∙ e') fs a) fs a

  report_cases :
      (k : String) (fs : List MemoryFact)
      → Agree lower fs × (report lower k fs ≡ [])
        ⊎ (Disagree lower fs
            × ((c : MemoryConflict) × (report lower k fs ≡ c ∷ []) × IsConflict k fs c))
  unfolding report disagree
  report_cases k [] = inl (tt, refl)
  report_cases k (f ∷ fs) = elim (Bool-cases (differs lower f.value fs)) [
    | inr same ↦ inl (same-All f.value (f ∷ fs) (refl, differs-false f.value fs same), rw same refl)
    | inl other ↦ elim (pick_winner_cases (f ∷ fs)) [
      | inl (empty, e) ↦ absurd (ground (arith, empty))
      | inr (w, e, (inside, above)) ↦
          let (g, later, ne) = differs-true f.value fs other in
          inr (
            (f, g, inl refl, inr later, ne),
            (
              conflict_among k (f ∷ fs),
              rw other refl,
              (refl, refl, (w, e, inside, All-map (λ x h. at_most-IsBelow x w h) (f ∷ fs) above)),
            ),
          )
    ]
  ]

-- For each key: either all facts about it have the same value up to case, and no conflict is reported for
-- it; or two of them differ, and exactly one is, with all the facts about the key in their order and with
-- a winner among them, which none of them is above in authority, time and confidence.
pub detect_conflicts-report :
    (lower : String → String) (facts : List MemoryFact) (k : String)
    → Agree lower (of_key k facts) × (conflicts_about k (detect_conflicts lower facts) ≡ [])
      ⊎ (Disagree lower (of_key k facts)
          × ((c : MemoryConflict) × (conflicts_about k (detect_conflicts lower facts) ≡ c ∷ [])
              × IsConflict k (of_key k facts) c))
unfolding detect_conflicts
detect_conflicts-report lower facts k =
    rw
      (
        conflicts_of_about lower k (group_by_key facts) (group_by_key-Distinct facts),
        lookup-group_by_key k facts,
        select-about k facts,
      )
      (report_cases lower k (of_key k facts))
