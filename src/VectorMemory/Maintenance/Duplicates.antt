-- ===== src/VectorMemory/Maintenance/Duplicates.antt =====
-- The marks of the two loops against the list of the vectors that are kept.
use ai_chatbot_platform.Prelude.{
  ◌≡◌, refl, sym, ap, ◌∙◌, ℕ, suc, ◌+◌, ◌-◌, ◌<◌, inl, inr, some, List, [], ◌∷◌, map, arith,
  if◌then◌else◌, length, Bool-cases,
}
use mathlib.Core.Path.{ap₂}
use ai_chatbot_platform.VectorMemory.Maintenance.{
  Memory, Environment, is_in, mark, mark_all, unmarked, kept_by, drop_duplicates,
}
use ai_chatbot_platform.VectorMemory.Maintenance.Greedy.{any_similar, greedy}

module _ {V : Type 0} (e : Environment V) where
  abbrev Marked : List V → ℕ → List V → List ℕ → Type 0
  Marked kept i [] ds = Unit
  Marked kept i (w ∷ ws) ds = (is_in i ds ≡ any_similar e kept w) × Marked kept (i + 1) ws ds

  abbrev free : List V → List V → ℕ
  free kept [] = 0
  free kept (w ∷ ws) = (if any_similar e kept w then 0 else 1) + free kept ws

  is_in-cons : (k j : ℕ) (ds : List ℕ) → k < j → is_in k (j ∷ ds) ≡ is_in k ds
  is_in-cons k j ds h = ground arith

  Marked-cons :
      (kept : List V) (i k : ℕ) (ws : List V) (ds : List ℕ)
      → k < i
      → Marked kept i ws ds
      → Marked kept i ws (k ∷ ds)
  Marked-cons kept i k [] ds h ok = ok
  Marked-cons kept i k (w ∷ ws) ds h (here', rest) =
      (ground (arith, here'), Marked-cons kept (i + 1) k ws ds (omega arith) rest)

  mark-below :
      (v : V) (j k : ℕ) (ws : List V) (ds : List ℕ)
      → k < j
      → is_in k (mark e v j ws ds) ≡ is_in k ds
  unfolding mark
  mark-below v j k [] ds h = refl
  mark-below v j k (w ∷ ws) ds h =
      let ds' = if is_in j ds then ds else if e.similar v w then j ∷ ds else ds in
      mark-below v (j + 1) k ws ds' (omega arith) ∙ ground (arith, is_in-cons k j ds h)

  mark_all-below :
      (i k : ℕ) (vs : List V) (ds : List ℕ) → k < i → is_in k (mark_all e i vs ds) ≡ is_in k ds
  unfolding mark_all
  mark_all-below i k [] ds h = refl
  mark_all-below i k (v ∷ vs) ds h =
      let ds' = if is_in i ds then ds else mark e v (i + 1) vs ds in
      mark_all-below (i + 1) k vs ds' (omega arith)
      ∙ ground (arith, mark-below v (i + 1) k vs ds (omega arith))

  -- One run of the inner loop adds its vector to those that are kept.
  mark-Marked :
      (kept : List V) (v : V) (j : ℕ) (ws : List V) (ds : List ℕ)
      → Marked kept j ws ds
      → Marked (v ∷ kept) j ws (mark e v j ws ds)
        × (length (mark e v j ws ds) + free (v ∷ kept) ws ≡ length ds + free kept ws)
  unfolding mark
  mark-Marked kept v j [] ds ok = (ok, refl)
  mark-Marked kept v j (w ∷ ws) ds (here', rest) = elim (Bool-cases (is_in j ds)) [
    | inl old ↦
        let (m, n) = mark-Marked kept v (j + 1) ws ds rest in
        rw old (
          (ground (arith, mark-below v (j + 1) j ws ds (omega arith), old, here'), m),
          ground (arith, n, old, here'),
        )
    | inr new ↦ elim (Bool-cases (e.similar v w)) [
      | inl same ↦
          let (m, n) =
            mark-Marked kept v (j + 1) ws (j ∷ ds)
              (Marked-cons kept (j + 1) j ws ds (omega arith) rest) in
          rw (new, same)
            (
              (ground (arith, mark-below v (j + 1) j ws (j ∷ ds) (omega arith), new, same), m),
              ground (arith, n, new, here', same),
            )
      | inr other ↦
          let (m, n) = mark-Marked kept v (j + 1) ws ds rest in
          rw (new, other)
            (
              (ground (arith, mark-below v (j + 1) j ws ds (omega arith), new, other, here'), m),
              ground (arith, n, new, here', other),
            )
    ]
  ]

  -- Both loops leave the memories of the pairs that are kept, and mark each other pair once.
  mark_all-greedy :
      (kept : List V) (i : ℕ) (ps : List (Memory × V)) (ds : List ℕ)
      → Marked kept i (map (λ p. p.1) ps) ds
      → (unmarked e i (map (λ p. p.0) ps) (mark_all e i (map (λ p. p.1) ps) ds)
          ≡ map (λ p. p.0) (greedy e kept ps))
        × (length (mark_all e i (map (λ p. p.1) ps) ds) + length (greedy e kept ps)
            ≡ length ds + free kept (map (λ p. p.1) ps))
  unfolding mark_all unmarked
  mark_all-greedy kept i [] ds ok = (refl, refl)
  mark_all-greedy kept i (p ∷ ps) ds (here', rest) =
      let vs = map (λ q. q.1) ps in
      elim (Bool-cases (is_in i ds)) [
        | inl old ↦
            let below = mark_all-below (i + 1) i vs ds (omega arith) in
            let (u, n) = mark_all-greedy kept (i + 1) ps ds rest in
            let similar = sym here' ∙ old in
            rw (old, mark_all, below ∙ old, similar, unmarked) (u, omega (arith, n))
        | inr new ↦
            let ds' = mark e p.1 (i + 1) vs ds in
            let below =
              mark_all-below (i + 1) i vs ds' (omega arith)
              ∙ mark-below p.1 (i + 1) i vs ds (omega arith) in
            let (m, k) = mark-Marked kept p.1 (i + 1) vs ds rest in
            let (u, n) = mark_all-greedy (p.1 ∷ kept) (i + 1) ps ds' m in
            let apart = sym here' ∙ new in
            rw (new, mark_all, below ∙ new, apart, unmarked)
              (ap (λ ms. p.0 ∷ ms) u, omega (arith, n, k))
      ]

  Marked-nil : (i : ℕ) (vs : List V) → Marked [] i vs []
  Marked-nil i [] = tt
  Marked-nil i (v ∷ vs) = (refl, Marked-nil (i + 1) vs)

  free-nil : (vs : List V) → free [] vs ≡ length vs
  free-nil [] = refl
  free-nil (v ∷ vs) = omega (arith, free-nil vs)

  unmarked-nil : (i : ℕ) (ms : List Memory) → unmarked e i ms [] ≡ ms
  unfolding unmarked
  unmarked-nil i [] = refl
  unmarked-nil i (m ∷ ms) = ap (λ ns. m ∷ ns) (unmarked-nil (i + 1) ms)

  kept_by-unmarked :
      (ms : List Memory) (ds : List ℕ) → kept_by e ms ds ≡ (unmarked e 0 ms ds, length ds)
  kept_by-unmarked ms [] = rw (unmarked-nil 0 ms) refl
  kept_by-unmarked ms (d ∷ ds) = refl

  length-pairs : (ps : List (Memory × V)) → length (map (λ p. p.0) ps) ≡ length (map (λ p. p.1) ps)
  length-pairs [] = refl
  length-pairs (p ∷ ps) = ap suc (length-pairs ps)

  pub length-vectors : (ps : List (Memory × V)) → length (map (λ p. p.1) ps) ≡ length ps
  length-vectors [] = refl
  length-vectors (p ∷ ps) = ap suc (length-vectors ps)

  drop_duplicates_marked :
      (vs : List V) (ms : List Memory)
      → 1 < length vs
      → length ms ≡ length vs
      → e.reconstruct vs ≡ some vs
      → drop_duplicates e vs ms ≡ kept_by e ms (mark_all e 0 vs [])
  unfolding drop_duplicates
  drop_duplicates_marked vs ms h same r = rw (r, same) (ground arith)

  pub drop_duplicates-greedy :
      (ps : List (Memory × V))
      → e.reconstruct (map (λ p. p.1) ps) ≡ some (map (λ p. p.1) ps)
      → drop_duplicates e (map (λ p. p.1) ps) (map (λ p. p.0) ps)
        ≡ (map (λ p. p.0) (greedy e [] ps), length ps - length (greedy e [] ps))
  unfolding drop_duplicates
  drop_duplicates-greedy [] r = refl
  drop_duplicates-greedy (p ∷ []) r = refl
  drop_duplicates-greedy (p ∷ q ∷ ps) r =
      let all' = p ∷ q ∷ ps in
      let vs = map (λ x. x.1) all' in
      let ms = map (λ x. x.0) all' in
      let (u, n) = mark_all-greedy [] 0 all' [] (Marked-nil 0 vs) in
      drop_duplicates_marked vs ms (omega arith) (length-pairs all') r
      ∙ kept_by-unmarked ms (mark_all e 0 vs [])
      ∙ ap₂ (λ x k. (x, k)) u (omega (arith, n, free-nil vs, length-vectors all'))
