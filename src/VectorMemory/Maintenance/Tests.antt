-- ===== src/VectorMemory/Maintenance/Tests.antt =====
-- Three memories, of which two have the same vector.
use ai_chatbot_platform.Prelude.{
  ◌≡◌, refl, ap, ℕ, suc, ◌+◌, ◌-◌, ◌<◌, true, false, ◌⊎◌, none, some, List, [], ◌∷◌, map, String,
  str_eq, ◌==◌, length, if◌then◌else◌, ltb,
}
use ai_chatbot_platform.VectorMemory.Maintenance.{
  Memory, Environment, Manager, Store, mark, mark_all, unmarked, stored, deduplicate, remove_stale,
  reindex, drop_duplicates, run_full_maintenance,
}
use ai_chatbot_platform.VectorMemory.Maintenance.Greedy.{greedy, Apart, Covered}
use ai_chatbot_platform.VectorMemory.Maintenance.Runs.{InStep, IsSound}
use ai_chatbot_platform.VectorMemory.Maintenance.Upkeep.{
  store_of, maintenance-InStep, deduplicate-greedy, run_full_maintenance-duplicates,
}

abbrev seven : ℕ
seven = 7

abbrev example : Environment ℕ
example = record {
  fromisoformat = λ s. if str_eq s "old" then some 0 else some 100000000;
  similar = λ v w. v == w;
  reconstruct = λ vs. some vs;
  encode = map (λ s. seven);
}

length-encoded : (texts : List String) → length (map (λ (s : String). seven) texts) ≡ length texts
length-encoded [] = refl
length-encoded (s ∷ texts) = ap suc (length-encoded texts)

abbrev example_IsSound : IsSound example
example_IsSound = record { reconstructs = λ vs. refl; encodes = length-encoded }

abbrev manager : Manager
manager = record { stale_days = 90; compress_days = 30 }

abbrev remembered : String → String → Memory
remembered text timestamp = record { text = text; timestamp = timestamp; compressed = false }

abbrev pairs : List (Memory × ℕ)
pairs =
    (remembered "tea" "new", 4) ∷ (remembered "rain" "new", 5) ∷ (remembered "Tea" "new", 4) ∷ []

abbrev kept_store : Store ℕ
kept_store = record { index = some (4 ∷ 5 ∷ 4 ∷ []); metadata = some (map (λ p. p.0) pairs) }

abbrev kept_store_InStep : InStep kept_store
kept_store_InStep = (4 ∷ 5 ∷ 4 ∷ [], map (λ p. p.0) pairs, refl, refl, refl)

removes_one : (deduplicate example kept_store).1 ≡ 1
unfolding deduplicate drop_duplicates stored mark_all mark unmarked
removes_one = refl

maintenance-InStep_example :
    InStep (run_full_maintenance example manager 100000001 kept_store).0
    × InStep (deduplicate example kept_store).0
    × InStep (remove_stale example manager 100000001 none kept_store).0
    × InStep (reindex example kept_store).0
    × (((run_full_maintenance example manager 100000001 kept_store).1.skipped ≡ true)
        ⊎ ((run_full_maintenance example manager 100000001 kept_store).1.before_count
            ≡ (run_full_maintenance example manager 100000001 kept_store).1.after_count
              + (run_full_maintenance example manager 100000001 kept_store).1.stale_removed
              + (run_full_maintenance example manager 100000001 kept_store).1.duplicates_removed))
maintenance-InStep_example =
    maintenance-InStep example manager 100000001 none kept_store example_IsSound kept_store_InStep

deduplicate-greedy_example :
    (deduplicate example kept_store ≡ (
      if ltb 0 (length pairs - length (greedy example [] pairs))
          then store_of example (map (λ p. p.0) (greedy example [] pairs))
          else kept_store,
      length pairs - length (greedy example [] pairs),
    ))
    × Apart example (greedy example [] pairs)
    × Covered example (greedy example [] pairs) pairs
deduplicate-greedy_example = deduplicate-greedy example pairs refl

abbrev old_store : Store ℕ
old_store = record {
  index = some (4 ∷ 4 ∷ []);
  metadata = some (remembered "tea" "old" ∷ remembered "Tea" "new" ∷ []);
}

run_full_maintenance-duplicates_example :
    ((0 < (run_full_maintenance example manager 100000001 old_store).1.stale_removed)
      × ((run_full_maintenance example manager 100000001 old_store).1.duplicates_removed ≡ 0))
    ⊎ (((run_full_maintenance example manager 100000001 old_store).1.stale_removed ≡ 0)
        × ((run_full_maintenance example manager 100000001 old_store).1.duplicates_removed
            ≡ (deduplicate example old_store).1))
run_full_maintenance-duplicates_example =
    run_full_maintenance-duplicates example manager 100000001 (4 ∷ 4 ∷ []) (remembered "tea" "old")
      (remembered "Tea" "new" ∷ []) refl
