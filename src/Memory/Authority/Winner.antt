-- ===== src/Memory/Authority/Winner.antt =====
-- The winner among facts about one key.
use ai_chatbot_platform.Prelude.{
  ◌≡◌, refl, ◌⊎◌, inl, inr, true, false, none, some, List, [], ◌∷◌, arith, All, All-map, In, All-In,
  Bool-cases,
}
use ai_chatbot_platform.Memory.Authority.{
  MemoryFact, at_most, insert_sorted, sort_facts, judge, pick_winner,
}

abbrev pub Below : MemoryFact → MemoryFact → Type 0
Below b a = at_most a b ≡ true

at_most_refl : (a : MemoryFact) → at_most a a ≡ true
at_most_refl a = ground arith

at_most_total : (a b : MemoryFact) → at_most a b ≡ false → at_most b a ≡ true
at_most_total a b h = ground arith

at_most_trans : (a b c : MemoryFact) → at_most a b ≡ true → at_most b c ≡ true → at_most a c ≡ true
at_most_trans a b c h k = ground arith

insert_sorted-All :
    (P : MemoryFact → Type 0) (f : MemoryFact) (gs : List MemoryFact)
    → P f
    → All P gs
    → All P (insert_sorted f gs)
unfolding insert_sorted
insert_sorted-All P f [] h a = (h, tt)
insert_sorted-All P f (g ∷ gs) h a = elim (Bool-cases (at_most g f)) [
  | inl low ↦ rw low (h, a)
  | inr high ↦ rw high (a.0, insert_sorted-All P f gs h a.1)
]

All-insert_sorted :
    (P : MemoryFact → Type 0) (f : MemoryFact) (gs : List MemoryFact)
    → All P (insert_sorted f gs)
    → P f × All P gs
unfolding insert_sorted
All-insert_sorted P f [] a = (a.0, tt)
All-insert_sorted P f (g ∷ gs) a = elim (Bool-cases (at_most g f)) [
  | inl low ↦ rw low at a
  | inr high ↦
      let a' = rw high at a in let (h, rest) = All-insert_sorted P f gs a'.1 in (h, (a'.0, rest))
]

sort_facts-All : (P : MemoryFact → Type 0) (fs : List MemoryFact) → All P fs → All P (sort_facts fs)
unfolding sort_facts
sort_facts-All P [] a = tt
sort_facts-All P (f ∷ fs) a = insert_sorted-All P f (sort_facts fs) a.0 (sort_facts-All P fs a.1)

All-sort_facts : (P : MemoryFact → Type 0) (fs : List MemoryFact) → All P (sort_facts fs) → All P fs
unfolding sort_facts
All-sort_facts P [] a = tt
All-sort_facts P (f ∷ fs) a =
    let (h, rest) = All-insert_sorted P f (sort_facts fs) a in (h, All-sort_facts P fs rest)

-- The head of a sorted list is above all of it.
Headed : List MemoryFact → Type 0
Headed [] = Unit
Headed (h ∷ t) = All (Below h) (h ∷ t)

insert_sorted-Headed :
    (f : MemoryFact) (gs : List MemoryFact) → Headed gs → Headed (insert_sorted f gs)
unfolding insert_sorted Headed
insert_sorted-Headed f [] h = (at_most_refl f, tt)
insert_sorted-Headed f (g ∷ gs) h = elim (Bool-cases (at_most g f)) [
  | inl low ↦ rw low (at_most_refl f, All-map (λ x e. at_most_trans x g f e low) (g ∷ gs) h)
  | inr high ↦ rw high (h.0, insert_sorted-All (Below g) f gs (at_most_total g f high) h.1)
]

sort_facts-Headed : (fs : List MemoryFact) → Headed (sort_facts fs)
unfolding sort_facts Headed
sort_facts-Headed [] = tt
sort_facts-Headed (f ∷ fs) = insert_sorted-Headed f (sort_facts fs) (sort_facts-Headed fs)

Headed-All : (h : MemoryFact) (t : List MemoryFact) → Headed (h ∷ t) → All (Below h) (h ∷ t)
unfolding Headed
Headed-All h t a = a

judge_head : (h : MemoryFact) (t : List MemoryFact) → (judge (h ∷ t)).0 ≡ some h
unfolding judge
judge_head h [] = refl
judge_head h (r ∷ t) = refl

-- A winner among some facts is one of them, above them all.
abbrev pub Wins : MemoryFact → List MemoryFact → Type 0
Wins w fs = In w fs × All (Below w) fs

insert_sorted-some :
    (f : MemoryFact) (gs : List MemoryFact)
    → (h : MemoryFact) × (t : List MemoryFact) × insert_sorted f gs ≡ h ∷ t
unfolding insert_sorted
insert_sorted-some f [] = (f, [], refl)
insert_sorted-some f (g ∷ gs) = elim (Bool-cases (at_most g f)) [
  | inl low ↦ rw low (f, g ∷ gs, refl)
  | inr high ↦ rw high (g, insert_sorted f gs, refl)
]

sort_facts-some :
    (f : MemoryFact) (fs : List MemoryFact)
    → (h : MemoryFact) × (t : List MemoryFact) × sort_facts (f ∷ fs) ≡ h ∷ t
unfolding sort_facts
sort_facts-some f fs = insert_sorted-some f (sort_facts fs)

pick_winner-some :
    (f : MemoryFact) (fs : List MemoryFact)
    → (w : MemoryFact) × (pick_winner (f ∷ fs)).0 ≡ some w × Wins w (f ∷ fs)
unfolding pick_winner
pick_winner-some f fs =
    let (h, t, e) = sort_facts-some f fs in
    let inside = sort_facts-All (λ x. In x (f ∷ fs)) (f ∷ fs) (All-In (f ∷ fs)) in
    let above = sort_facts-Headed (f ∷ fs) in
    (
      h,
      rw e (judge_head h t),
      (
        (rw e at inside).0,
        All-sort_facts (Below h) (f ∷ fs) (rw e (Headed-All h t (rw e at above))),
      ),
    )

-- There is a winner exactly if there are facts.
pub pick_winner_cases :
    (fs : List MemoryFact)
    → fs ≡ [] × (pick_winner fs).0 ≡ none
      ⊎ ((w : MemoryFact) × (pick_winner fs).0 ≡ some w × Wins w fs)
unfolding pick_winner judge sort_facts
pick_winner_cases [] = inl (refl, refl)
pick_winner_cases (f ∷ fs) = inr (pick_winner-some f fs)

insert_sorted-first :
    (f : MemoryFact) (gs : List MemoryFact) → All (Below f) gs → insert_sorted f gs ≡ f ∷ gs
unfolding insert_sorted
insert_sorted-first f [] a = refl
insert_sorted-first f (g ∷ gs) a = rw a.0 refl

-- A fact that no later one is above wins.
pub pick_winner-first :
    (f : MemoryFact) (fs : List MemoryFact) → All (Below f) fs → (pick_winner (f ∷ fs)).0 ≡ some f
unfolding pick_winner sort_facts
pick_winner-first f fs a =
    rw (insert_sorted-first f (sort_facts fs) (sort_facts-All (Below f) fs a))
      (judge_head f (sort_facts fs))
