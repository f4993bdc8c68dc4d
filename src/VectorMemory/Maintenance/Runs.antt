-- ===== src/VectorMemory/Maintenance/Runs.antt =====
-- What a run leaves in the store and counts in its summary.
use ai_chatbot_platform.Prelude.{
  ◌≡◌, refl, sym, ap, ◌∙◌, ℕ, suc, ◌+◌, ◌-◌, ◌≤◌, ◌≢◌, Bool, true, false, ◌||◌, inl, inr, some,
  List, [], ◌∷◌, map, String, arith, ltb, if◌then◌else◌, length, Bool-cases,
}
use mathlib.Core.Path.{ap₂}
use native.Mathlib.Decide.{ℕ_discrete}
use ai_chatbot_platform.VectorMemory.Maintenance.{
  Memory, Environment, Manager, Store, drop_duplicates, drop_before, drop_stale, rebuilt,
  flag_before, compress, maintained, seconds,
}
use ai_chatbot_platform.VectorMemory.Maintenance.Greedy.{greedy}
use ai_chatbot_platform.VectorMemory.Maintenance.Duplicates.{drop_duplicates-greedy}

-- Both files are there, and the index has a vector for each memory.
abbrev pub InStep : {V : Type 0} → Store V → Type 0
InStep {V} s =
    (vs : List V) × (ms : List Memory) × (s.index ≡ some vs)
    × (s.metadata ≡ some ms)
    × (length vs ≡ length ms)

-- The environment's index returns the vectors it holds, and the model gives one vector for each text.
pub record IsSound {V : Type 0} (e : Environment V) : Type 0 where
  pub reconstructs : (vs : List V) → e.reconstruct vs ≡ some vs
  pub encodes : (texts : List String) → length (e.encode texts) ≡ length texts

module _ {V : Type 0} (e : Environment V) where
  pub drop_before-length :
      (cutoff : ℕ) (ms : List Memory)
      → length (drop_before e cutoff ms).0 + (drop_before e cutoff ms).1 ≡ length ms
  unfolding drop_before
  drop_before-length cutoff [] = refl
  drop_before-length cutoff (m ∷ ms) = ground (arith, drop_before-length cutoff ms)

  -- Where nothing is counted, nothing is dropped.
  pub drop_before_none :
      (cutoff : ℕ) (ms : List Memory)
      → (drop_before e cutoff ms).1 ≡ 0
      → (drop_before e cutoff ms).0 ≡ ms
  unfolding drop_before
  drop_before_none cutoff [] h = refl
  drop_before_none cutoff (m ∷ ms) h = ground (arith, drop_before_none cutoff ms, h)

  flag_before-length :
      (cutoff : ℕ) (ms : List Memory) → length (flag_before e cutoff ms).0 ≡ length ms
  unfolding flag_before
  flag_before-length cutoff [] = refl
  flag_before-length cutoff (m ∷ ms) = ground (arith, flag_before-length cutoff ms)

  length-texts : (ms : List Memory) → length (map (λ m. m.text) ms) ≡ length ms
  length-texts [] = refl
  length-texts (m ∷ ms) = ap suc (length-texts ms)

  pub rebuilt-InStep :
      (ms : List Memory)
      → IsSound e
      → (vs : List V) × ((rebuilt e ms).index ≡ some vs)
        × ((rebuilt e ms).metadata ≡ some ms)
        × (length vs ≡ length ms)
  unfolding rebuilt
  rebuilt-InStep [] ok = ([], refl, refl, refl)
  rebuilt-InStep (m ∷ ms) ok = (
    e.encode (map (λ x. x.text) (m ∷ ms)),
    refl,
    refl,
    ok.encodes (map (λ x. x.text) (m ∷ ms)) ∙ length-texts (m ∷ ms),
  )

  compress-InStep :
      (now days : ℕ) (kept ms : List Memory) (vs : List V) (s : Store V)
      → s.index ≡ some vs
      → s.metadata ≡ some ms
      → length vs ≡ length ms
      → length kept ≡ length ms
      → InStep (compress e now days kept s).0
  unfolding compress
  compress-InStep now days kept ms vs s i d n k =
      let (flagged, count) = flag_before e (now - seconds days) kept in
      elim (Bool-cases (ltb 0 (flag_before e (now - seconds days) kept).1)) [
        | inl yes' ↦ rw yes' (
          vs,
          (flag_before e (now - seconds days) kept).0,
          i,
          refl,
          n ∙ sym k ∙ sym (flag_before-length (now - seconds days) kept),
        )
        | inr no' ↦ rw no' (vs, ms, i, d, n)
      ]

  zipped :
      (vs : List V) (ms : List Memory)
      → length vs ≡ length ms
      → (ps : List (Memory × V)) × (map (λ p. p.1) ps ≡ vs) × (map (λ p. p.0) ps ≡ ms)
  zipped [] [] h = ([], refl, refl)
  zipped [] (m ∷ ms) h = absurd (ground (arith, h))
  zipped (v ∷ vs) [] h = absurd (ground (arith, h))
  zipped (v ∷ vs) (m ∷ ms) h =
      let (ps, a, b) = zipped vs ms (omega (arith, h)) in
      ((m, v) ∷ ps, ap (λ xs. v ∷ xs) a, ap (λ xs. m ∷ xs) b)

  greedy-le : (kept : List V) (ps : List (Memory × V)) → length (greedy e kept ps) ≤ length ps
  greedy-le kept [] = omega arith
  greedy-le kept (p ∷ ps) = ground (arith, greedy-le kept ps, greedy-le (p.1 ∷ kept) ps)

  length-first : (ps : List (Memory × V)) → length (map (λ p. p.0) ps) ≡ length ps
  length-first [] = refl
  length-first (p ∷ ps) = ap suc (length-first ps)

  pub drop_duplicates_unequal :
      (vs : List V) (ms : List Memory) → length vs ≢ length ms → drop_duplicates e vs ms ≡ (ms, 0)
  unfolding drop_duplicates
  drop_duplicates_unequal vs ms h = ground (arith, h)

  drop_duplicates-counts :
      (vs : List V) (ms : List Memory)
      → IsSound e
      → length (drop_duplicates e vs ms).0 + (drop_duplicates e vs ms).1 ≡ length ms
  drop_duplicates-counts vs ms ok = elim (ℕ_discrete (length vs) (length ms)) [
    | yes same ↦
        let (ps, a, b) = zipped vs ms same in
        let exact =
          sym (ap₂ (λ xs ys. drop_duplicates e xs ys) a b)
          ∙ drop_duplicates-greedy e ps (ok.reconstructs (map (λ p. p.1) ps)) in
        rw exact (
          omega (
            arith,
            length-first (greedy e [] ps),
            greedy-le [] ps,
            length-first ps,
            ap (λ xs. length xs) b,
          ))
    | no other ↦ rw (drop_duplicates_unequal vs ms other) (omega arith)
  ]

  compressed-InStep :
      (b : Bool) (now days : ℕ) (kept ms : List Memory) (vs : List V) (s : Store V)
      → IsSound e
      → s.index ≡ some vs
      → s.metadata ≡ some ms
      → length vs ≡ length ms
      → (b ≡ false → length kept ≡ length ms)
      → InStep (compress e now days kept (if b then rebuilt e kept else s)).0
  compressed-InStep true now days kept ms vs s ok i d n h =
      let (vs', i', d', n') = rebuilt-InStep kept ok in
      compress-InStep now days kept kept vs' (rebuilt e kept) i' d' n' refl
  compressed-InStep false now days kept ms vs s ok i d n h =
      compress-InStep now days kept ms vs s i d n (h refl)

  -- The duplicates step of a run.
  unfoldable pub thinned : List V → List Memory → List Memory × ℕ
  thinned vs fresh = if ltb 1 (length fresh) then drop_duplicates e vs fresh else (fresh, 0)

  thinned-counts :
      (vs : List V) (fresh : List Memory)
      → IsSound e
      → length (thinned vs fresh).0 + (thinned vs fresh).1 ≡ length fresh
  unfolding thinned
  thinned-counts vs fresh ok = ground (arith, drop_duplicates-counts vs fresh ok)

  pub maintained-InStep :
      (p : Manager) (now : ℕ) (vs : List V) (ms : List Memory) (s : Store V)
      → IsSound e
      → s.index ≡ some vs
      → s.metadata ≡ some ms
      → length vs ≡ length ms
      → InStep (maintained e p now vs ms s).0
        × ((maintained e p now vs ms s).1.before_count
            ≡ (maintained e p now vs ms s).1.after_count
              + (maintained e p now vs ms s).1.stale_removed
              + (maintained e p now vs ms s).1.duplicates_removed)
  unfolding maintained thinned
  maintained-InStep p now vs ms s ok i d n =
      let fresh = (drop_stale e now p.stale_days ms).0 in
      let stale = (drop_stale e now p.stale_days ms).1 in
      let kept = (thinned vs fresh).0 in
      let duplicates = (thinned vs fresh).1 in
      let a = drop_before-length (now - seconds p.stale_days) ms in
      let b = thinned-counts vs fresh ok in
      (
        compressed-InStep (ltb 0 stale || ltb 0 duplicates) now p.compress_days kept ms vs s ok i d
            n (λ h. ground (arith, h, a, b)),
        omega (arith, a, b),
      )
