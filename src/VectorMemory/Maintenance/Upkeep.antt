-- ===== src/VectorMemory/Maintenance/Upkeep.antt =====
-- The public methods on a store whose index and memories agree.
use ai_chatbot_platform.Prelude.{
  ◌≡◌, refl, ap, ◌∙◌, ℕ, ◌+◌, ◌-◌, ◌<◌, ◌≤◌, ◌≢◌, true, ◌⊎◌, inl, inr, Option, some, List, [], ◌∷◌,
  map, arith, ltb, leb, length, if◌then◌else◌, Bool-cases, List-cases,
}
use native.Mathlib.Decide.{dec_lt}
use ai_chatbot_platform.VectorMemory.Maintenance.{
  Memory, Environment, Manager, Store, skipped, memories_of, drop_duplicates, drop_before,
  drop_stale, deduplicate, remove_stale, stored, rebuilt, reindex, maintained, run_full_maintenance,
  seconds,
}
use ai_chatbot_platform.VectorMemory.Maintenance.Greedy.{
  greedy, Apart, Covered, greedy-Apart, greedy-Covered,
}
use ai_chatbot_platform.VectorMemory.Maintenance.Duplicates.{drop_duplicates-greedy}
use ai_chatbot_platform.VectorMemory.Maintenance.Runs.{
  InStep, IsSound, rebuilt-InStep, maintained-InStep, drop_before_none, drop_before-length,
  drop_duplicates_unequal, thinned,
}

module _ {V : Type 0} (e : Environment V) where
  stored-InStep :
      (kept : List Memory) (n : ℕ) (s : Store V)
      → IsSound e
      → InStep s
      → InStep (stored e kept n s).0
  unfolding stored
  stored-InStep kept n s ok h = elim (Bool-cases (ltb 0 n)) [
    | inl yes' ↦ let (vs, i, d, l) = rebuilt-InStep e kept ok in rw yes' (vs, kept, i, d, l)
    | inr no' ↦ rw no' h
  ]

  remove_stale-InStep :
      (p : Manager) (now : ℕ) (days : Option ℕ) (s : Store V)
      → IsSound e
      → InStep s
      → InStep (remove_stale e p now days s).0
  unfolding remove_stale
  remove_stale-InStep p now days s ok h = stored-InStep _ _ s ok h

  deduplicate-InStep : (s : Store V) → IsSound e → InStep s → InStep (deduplicate e s).0
  unfolding deduplicate
  deduplicate-InStep s ok h =
      let (vs, ms, i, d, l) = h in
      elim (Bool-cases (leb (length (memories_of s.metadata)) 1)) [
        | inl few ↦ rw (i, few, deduplicate) h
        | inr many ↦ rw (i, many, deduplicate) (stored-InStep _ _ s ok h)
      ]

  reindex-InStep : (s : Store V) → IsSound e → InStep s → InStep (reindex e s).0
  unfolding reindex
  reindex-InStep s ok h = elim (List-cases (memories_of s.metadata)) [
    | inl empty ↦ rw (empty, reindex) h
    | inr (m, ms, e') ↦
        let (vs, i, d, l) = rebuilt-InStep e (m ∷ ms) ok in rw (e', reindex) (vs, m ∷ ms, i, d, l)
  ]

  -- What a run of all steps is.
  run_full_maintenance_cases :
      (p : Manager) (now : ℕ) (vs : List V) (ms : List Memory) (s : Store V)
      → s.index ≡ some vs
      → s.metadata ≡ some ms
      → (run_full_maintenance e p now s ≡ (s, skipped e))
        ⊎ (run_full_maintenance e p now s ≡ maintained e p now vs ms s)
  unfolding run_full_maintenance
  run_full_maintenance_cases p now vs [] s i d = inl (simp (i, d, run_full_maintenance) refl)
  run_full_maintenance_cases p now vs (m ∷ ms) s i d = inr (simp (i, d, run_full_maintenance) refl)

  run_full_maintenance-InStep :
      (p : Manager) (now : ℕ) (s : Store V)
      → IsSound e
      → InStep s
      → InStep (run_full_maintenance e p now s).0
        × (((run_full_maintenance e p now s).1.skipped ≡ true)
            ⊎ ((run_full_maintenance e p now s).1.before_count
                ≡ (run_full_maintenance e p now s).1.after_count
                  + (run_full_maintenance e p now s).1.stale_removed
                  + (run_full_maintenance e p now s).1.duplicates_removed))
  run_full_maintenance-InStep p now s ok h =
      let (vs, ms, i, d, l) = h in
      let (m, counts) = maintained-InStep e p now vs ms s ok i d l in
      elim (run_full_maintenance_cases p now vs ms s i d) [
        | inl skips ↦ rw skips (h, inl refl)
        | inr runs ↦ rw runs (m, inr counts)
      ]

  -- With a faithful index and a model that gives one vector for each text, each of the four public methods
  -- leaves an index with a vector for each memory where it found one, and a full run that is not skipped
  -- counts each memory that it found as kept, as stale or as a duplicate.
  pub maintenance-InStep :
      (p : Manager) (now : ℕ) (days : Option ℕ) (s : Store V)
      → IsSound e
      → InStep s
      → InStep (run_full_maintenance e p now s).0
        × InStep (deduplicate e s).0
        × InStep (remove_stale e p now days s).0
        × InStep (reindex e s).0
        × (((run_full_maintenance e p now s).1.skipped ≡ true)
            ⊎ ((run_full_maintenance e p now s).1.before_count
                ≡ (run_full_maintenance e p now s).1.after_count
                  + (run_full_maintenance e p now s).1.stale_removed
                  + (run_full_maintenance e p now s).1.duplicates_removed))
  maintenance-InStep p now days s ok h =
      let (run, counts) = run_full_maintenance-InStep p now s ok h in
      (
        run,
        deduplicate-InStep s ok h,
        remove_stale-InStep p now days s ok h,
        reindex-InStep s ok h,
        counts,
      )

  deduplicate_few :
      (vs : List V) (ms : List Memory)
      → length ms ≤ 1
      → (deduplicate e (record { index = some vs; metadata = some ms })).1 ≡ 0
  unfolding deduplicate stored
  deduplicate_few vs ms h = ground (arith, h)

  deduplicate_many :
      (vs : List V) (ms : List Memory)
      → 1 < length ms
      → deduplicate e (record { index = some vs; metadata = some ms })
        ≡ stored e
            (drop_duplicates e vs ms).0
            (drop_duplicates e vs ms).1
            (record { index = some vs; metadata = some ms })
  unfolding deduplicate
  deduplicate_many vs ms h = ground (arith, h)

  stored_count : (kept : List Memory) (n : ℕ) (s : Store V) → (stored e kept n s).1 ≡ n
  unfolding stored
  stored_count kept n s = ground arith

  -- The two files of a store with just some memories, which has a vector for the text of each.
  abbrev pub store_of : List Memory → Store V
  store_of [] = record { index = some []; metadata = some [] }
  store_of (m ∷ ms) = record {
    index = some (e.encode (map (λ x. x.text) (m ∷ ms)));
    metadata = some (m ∷ ms);
  }

  stored_lem :
      (kept : List Memory) (n : ℕ) (s : Store V)
      → stored e kept n s ≡ (if ltb 0 n then store_of kept else s, n)
  unfolding stored rebuilt
  stored_lem [] n s = ground arith
  stored_lem (m ∷ kept) n s = ground arith

  deduplicate-stored :
      (ps : List (Memory × V))
      → e.reconstruct (map (λ p. p.1) ps) ≡ some (map (λ p. p.1) ps)
      → deduplicate e
          (record { index = some (map (λ p. p.1) ps); metadata = some (map (λ p. p.0) ps) })
        ≡ stored e
            (map (λ p. p.0) (greedy e [] ps))
            (length ps - length (greedy e [] ps))
            (record { index = some (map (λ p. p.1) ps); metadata = some (map (λ p. p.0) ps) })
  unfolding deduplicate stored
  deduplicate-stored [] r = refl
  deduplicate-stored (p ∷ []) r = refl
  deduplicate-stored (p ∷ q ∷ ps) r =
      let all' = p ∷ q ∷ ps in
      let vs = map (λ x. x.1) all' in
      let ms = map (λ x. x.0) all' in
      deduplicate_many vs ms (omega arith)
      ∙ ap (λ r. stored e r.0 r.1 (record { index = some vs; metadata = some ms }))
          (drop_duplicates-greedy e all' r)

  -- Where the memories and the vectors of a faithful index are those of `ps`: `deduplicate` keeps, in
  -- order, the memories of the pairs that are not similar to one kept before them, and returns how many
  -- others there were. If there were any, the two files hold the kept memories and a new vector for the
  -- text of each, and else they stay as they were. Of the pairs that are kept no two are similar, and
  -- each other pair is similar to one of them.
  pub deduplicate-greedy :
      (ps : List (Memory × V))
      → e.reconstruct (map (λ p. p.1) ps) ≡ some (map (λ p. p.1) ps)
      → let s : Store V = record {
        index = some (map (λ p. p.1) ps);
        metadata = some (map (λ p. p.0) ps);
      } in
        let others = length ps - length (greedy e [] ps) in
        (deduplicate e s
          ≡ (if ltb 0 others then store_of (map (λ p. p.0) (greedy e [] ps)) else s, others))
        × Apart e (greedy e [] ps)
        × Covered e (greedy e [] ps) ps
  deduplicate-greedy ps r = (
    deduplicate-stored ps r ∙ stored_lem (map (λ p. p.0) (greedy e [] ps)) _ _,
    greedy-Apart e ps,
    greedy-Covered e ps,
  )

  run_counts :
      (p : Manager) (now : ℕ) (vs : List V) (m : Memory) (ms : List Memory)
      → let s : Store V = record { index = some vs; metadata = some (m ∷ ms) } in
        let summary = (run_full_maintenance e p now s).1 in
        (summary.stale_removed ≡ (drop_stale e now p.stale_days (m ∷ ms)).1)
        × (summary.duplicates_removed ≡ (thinned e vs (drop_stale e now p.stale_days (m ∷ ms)).0).1)
  unfolding run_full_maintenance maintained thinned
  run_counts p now vs m ms = (refl, refl)

  thinned_unequal :
      (vs : List V) (ms : List Memory) → length vs ≢ length ms → (thinned e vs ms).1 ≡ 0
  unfolding thinned
  thinned_unequal vs ms h = ground (arith, drop_duplicates_unequal e vs ms h)

  thinned-deduplicate :
      (vs : List V) (ms : List Memory)
      → (thinned e vs ms).1 ≡ (deduplicate e (record { index = some vs; metadata = some ms })).1
  unfolding thinned
  thinned-deduplicate vs ms = elim (dec_lt 1 (length ms)) [
    | yes many ↦
        rw
          (
            deduplicate_many vs ms many,
            stored_count (drop_duplicates e vs ms).0 (drop_duplicates e vs ms).1
                (record { index = some vs; metadata = some ms }),
          )
          (ground (arith, many))
    | no few ↦ rw (deduplicate_few vs ms (omega (arith, few))) (ground (arith, few))
  ]

  -- A run whose files agree and hold a memory: where it removes a stale memory it removes no duplicate;
  -- where it removes none, it removes as many duplicates as `deduplicate` would.
  pub run_full_maintenance-duplicates :
      (p : Manager) (now : ℕ) (vs : List V) (m : Memory) (ms : List Memory)
      → length vs ≡ length (m ∷ ms)
      → let s : Store V = record { index = some vs; metadata = some (m ∷ ms) } in
        let summary = (run_full_maintenance e p now s).1 in
        ((0 < summary.stale_removed) × (summary.duplicates_removed ≡ 0))
        ⊎ ((summary.stale_removed ≡ 0) × (summary.duplicates_removed ≡ (deduplicate e s).1))
  run_full_maintenance-duplicates p now vs m ms h =
      let (a, b) = run_counts p now vs m ms in
      let cutoff = now - seconds p.stale_days in
      let fresh = (drop_stale e now p.stale_days (m ∷ ms)).0 in
      let n = drop_before-length e cutoff (m ∷ ms) in
      elim (dec_lt 0 (drop_before e cutoff (m ∷ ms)).1) [
        | yes stale ↦ inl (
          omega (arith, a, stale),
          b ∙ thinned_unequal vs fresh (λ same. ground (arith, same, n, h, stale)),
        )
        | no fresh' ↦
            let same = drop_before_none e cutoff (m ∷ ms) (omega (arith, fresh')) in
            inr (
              omega (arith, a, fresh'),
              b ∙ ap (λ xs. (thinned e vs xs).1) same ∙ thinned-deduplicate vs (m ∷ ms),
            )
      ]
