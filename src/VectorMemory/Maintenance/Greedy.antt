-- ===== src/VectorMemory/Maintenance/Greedy.antt =====
-- The memories without near-duplicates: each is compared with those before it that stay.
use ai_chatbot_platform.Prelude.{
  ◌≡◌, refl, Bool, true, false, ◌||◌, ◌⊎◌, inl, inr, List, [], ◌∷◌, arith, if◌then◌else◌,
  Bool-cases, All, All-map, In,
}
use mathlib.Core.Path.{subst}
use ai_chatbot_platform.VectorMemory.Maintenance.{Memory, Environment}

module _ {V : Type 0} (e : Environment V) where
  abbrev pub any_similar : List V → V → Bool
  any_similar [] w = false
  any_similar (u ∷ us) w = e.similar u w || any_similar us w

  -- The pairs that are similar to no vector of `kept` and to no pair before them that stays.
  abbrev pub greedy : List V → List (Memory × V) → List (Memory × V)
  greedy kept [] = []
  greedy kept (p ∷ ps) =
      let without = greedy kept ps in
      let with' = p ∷ greedy (p.1 ∷ kept) ps in if any_similar kept p.1 then without else with'

  -- No vector of the list is similar to one before it.
  abbrev pub Apart : List (Memory × V) → Type 0
  Apart [] = Unit
  Apart (p ∷ ps) = All (λ q. e.similar p.1 q.1 ≡ false) ps × Apart ps

  greedy-Apart_from :
      (kept : List V) (ps : List (Memory × V))
      → All (λ q. any_similar kept q.1 ≡ false) (greedy kept ps) × Apart (greedy kept ps)
  greedy-Apart_from kept [] = (tt, tt)
  greedy-Apart_from kept (p ∷ ps) = elim (Bool-cases (any_similar kept p.1)) [
    | inl yes' ↦ rw yes' (greedy-Apart_from kept ps)
    | inr no' ↦
        let (far, apart) = greedy-Apart_from (p.1 ∷ kept) ps in
        rw no' (
          (no', All-map (λ q h. ground (arith, h)) _ far),
          (All-map (λ q h. ground (arith, h)) _ far, apart),
        )
  ]

  abbrev CoveredBy : List V → List (Memory × V) → Memory × V → Type 0
  CoveredBy kept qs p =
      In p qs
      ⊎ ((q : Memory × V) × In q qs × (e.similar q.1 p.1 ≡ true))
      ⊎ (any_similar kept p.1 ≡ true)

  CoveredBy-cons :
      (kept : List V) (q p : Memory × V) (qs : List (Memory × V))
      → CoveredBy (q.1 ∷ kept) qs p
      → CoveredBy kept (q ∷ qs) p
  CoveredBy-cons kept q p qs (inl m) = inl (inr m)
  CoveredBy-cons kept q p qs (inr (inl (r, m, same))) = inr (inl (r, inr m, same))
  CoveredBy-cons kept q p qs (inr (inr h)) = elim (Bool-cases (e.similar q.1 p.1)) [
    | inl same ↦ inr (inl (q, inl refl, same))
    | inr other ↦ inr (inr (ground (arith, h, other)))
  ]

  greedy-Covered_from :
      (kept : List V) (ps : List (Memory × V)) → All (CoveredBy kept (greedy kept ps)) ps
  greedy-Covered_from kept [] = tt
  greedy-Covered_from kept (p ∷ ps) = elim (Bool-cases (any_similar kept p.1)) [
    | inl yes' ↦
        let same : greedy kept ps ≡ greedy kept (p ∷ ps) = rw yes' refl in
        subst (λ qs. All (CoveredBy kept qs) (p ∷ ps)) same
          (inr (inr yes'), greedy-Covered_from kept ps)
    | inr no' ↦
        let same : p ∷ greedy (p.1 ∷ kept) ps ≡ greedy kept (p ∷ ps) = rw no' refl in
        subst (λ qs. All (CoveredBy kept qs) (p ∷ ps)) same
          (
            inl (inl refl),
            All-map (λ q h. CoveredBy-cons kept p q (greedy (p.1 ∷ kept) ps) h) ps
                (greedy-Covered_from (p.1 ∷ kept) ps),
          )
  ]

  pub greedy-Apart : (ps : List (Memory × V)) → Apart (greedy [] ps)
  greedy-Apart ps = (greedy-Apart_from [] ps).1

  -- Each pair stays, or is similar to one that stays.
  abbrev pub Covered : List (Memory × V) → List (Memory × V) → Type 0
  Covered qs ps = All (λ p. In p qs ⊎ ((q : Memory × V) × In q qs × (e.similar q.1 p.1 ≡ true))) ps

  uncovered :
      (p : Memory × V) (qs : List (Memory × V))
      → CoveredBy [] qs p
      → In p qs ⊎ ((q : Memory × V) × In q qs × (e.similar q.1 p.1 ≡ true))
  uncovered p qs (inl m) = inl m
  uncovered p qs (inr (inl r)) = inr r
  uncovered p qs (inr (inr h)) = absurd (ground (arith, h))

  pub greedy-Covered : (ps : List (Memory × V)) → Covered (greedy [] ps) ps
  greedy-Covered ps = All-map (λ p h. uncovered p (greedy [] ps) h) ps (greedy-Covered_from [] ps)
