-- ===== src/VectorMemory/Maintenance.antt =====
-- app/vector_memory/maintenance.py: stale memories and near-duplicates are removed, and the index is rebuilt.
--
-- The two files are the store: an index, which is the list of its vectors, and the memories. A file that
-- is missing or cannot be read is `none`; the metadata then loads as no memories. A write succeeds. Of a
-- memory the text, the timestamp and whether its metadata says `compressed` are kept. Times are in
-- seconds since the first date that Python has. The embedding model, faiss, `np.dot` with the comparison
-- to the threshold and `fromisoformat` are the environment's.
mod Greedy
mod Duplicates
mod Runs
mod Upkeep
mod Tests
use ai_chatbot_platform.Prelude.{
  ℕ, ◌+◌, ◌-◌, ◌*◌, Bool, true, false, not, ◌&&◌, ◌||◌, Option, none, some, List, [], ◌∷◌, map,
  String, ltb, leb, ◌==◌, if◌then◌else◌, length,
}

pub record Memory : Type 0 where
  pub text : String
  pub timestamp : String
  pub compressed : Bool

pub record Environment (V : Type 0) : Type 1 where
  -- `fromisoformat`, in UTC where the text names no zone; `none` is a `ValueError` or a `TypeError`.
  pub fromisoformat : String → Option ℕ
  -- `np.dot(v, w) >= dedup_threshold`
  pub similar : V → V → Bool
  -- `index.reconstruct` for each number; `none` is an exception.
  pub reconstruct : List V → Option (List V)
  pub encode : List String → List V

pub record Manager : Type 0 where
  pub stale_days : ℕ
  pub compress_days : ℕ

pub record Store (V : Type 0) : Type 0 where
  pub index : Option (List V)
  pub metadata : Option (List Memory)

pub record Summary : Type 0 where
  pub stale_removed : ℕ
  pub duplicates_removed : ℕ
  pub reindexed : Bool
  pub compressed : ℕ
  pub skipped : Bool
  pub before_count : ℕ
  pub after_count : ℕ

abbrev pub is_in : ℕ → List ℕ → Bool
is_in i [] = false
is_in i (j ∷ js) = i == j || is_in i js

abbrev pub memories_of : Option (List Memory) → List Memory
memories_of none = []
memories_of (some memories) = memories

abbrev pub seconds : ℕ → ℕ
seconds days = days * 86400

-- The test of a memory by its stamp; one without a readable stamp is never older.
abbrev pub is_before : ℕ → Option ℕ → Bool
is_before cutoff none = false
is_before cutoff (some ts) = ltb ts cutoff

module _ {V : Type 0} (e : Environment V) where
  -- The inner loop of `_deduplicate`: the vectors from number `j` on against the vector `v`.
  unfoldable pub mark : V → ℕ → List V → List ℕ → List ℕ
  mark v j [] duplicates = duplicates
  mark v j (w ∷ ws) duplicates = mark v (j + 1) ws (
      if is_in j duplicates
      then duplicates
      else if e.similar v w
      then j ∷ duplicates
      else duplicates)

  -- The outer loop, from number `i` on.
  unfoldable pub mark_all : ℕ → List V → List ℕ → List ℕ
  mark_all i [] duplicates = duplicates
  mark_all i (v ∷ vs) duplicates =
      mark_all (i + 1) vs (if is_in i duplicates then duplicates else mark v (i + 1) vs duplicates)

  -- `[m for idx, m in enumerate(memories) if idx not in duplicates]`
  unfoldable pub unmarked : ℕ → List Memory → List ℕ → List Memory
  unmarked i [] duplicates = []
  unmarked i (m ∷ ms) duplicates =
      let rest = unmarked (i + 1) ms duplicates in if is_in i duplicates then rest else m ∷ rest

  abbrev pub kept_by : List Memory → List ℕ → List Memory × ℕ
  kept_by memories [] = (memories, 0)
  kept_by memories (d ∷ ds) = (unmarked 0 memories (d ∷ ds), length (d ∷ ds))

  -- `_deduplicate`
  unfoldable pub drop_duplicates : List V → List Memory → List Memory × ℕ
  unfolding mark_all
  drop_duplicates index memories =
      if leb (length index) 1 || not (length index == length memories)
      then (memories, 0)
      else elim (e.reconstruct index) [
        | none ↦ (memories, 0)
        | some vectors ↦ kept_by memories (mark_all 0 vectors [])
      ]

  -- The loop of `_remove_stale`.
  unfoldable pub drop_before : ℕ → List Memory → List Memory × ℕ
  drop_before cutoff [] = ([], 0)
  drop_before cutoff (m ∷ ms) =
      let (kept, removed) = drop_before cutoff ms in
      if is_before cutoff (e.fromisoformat m.timestamp)
      then (kept, removed + 1)
      else (m ∷ kept, removed)

  -- `_remove_stale`
  abbrev pub drop_stale : ℕ → ℕ → List Memory → List Memory × ℕ
  drop_stale now stale_days memories = drop_before (now - seconds stale_days) memories

  -- `_reindex`
  unfoldable pub rebuilt : List Memory → Store V
  rebuilt [] = record { index = some []; metadata = some [] }
  rebuilt (m ∷ ms) = record {
    index = some (e.encode (map (λ x. x.text) (m ∷ ms)));
    metadata = some (m ∷ ms);
  }

  -- The loop of `_compress_old_vectors`.
  unfoldable pub flag_before : ℕ → List Memory → List Memory × ℕ
  flag_before cutoff [] = ([], 0)
  flag_before cutoff (m ∷ ms) =
      let (flagged, compressed) = flag_before cutoff ms in
      if is_before cutoff (e.fromisoformat m.timestamp) && not m.compressed
      then (record m { compressed = true } ∷ flagged, compressed + 1)
      else (m ∷ flagged, compressed)

  -- `_compress_old_vectors`
  unfoldable pub compress : ℕ → ℕ → List Memory → Store V → Store V × ℕ
  unfolding flag_before
  compress now compress_days memories s =
      let (flagged, compressed) = flag_before (now - seconds compress_days) memories in
      if ltb 0 compressed
      then (record s { metadata = some flagged }, compressed)
      else (s, compressed)

  -- What `deduplicate` and `remove_stale` end with.
  unfoldable pub stored : List Memory → ℕ → Store V → Store V × ℕ
  unfolding rebuilt
  stored kept count s = if ltb 0 count then (rebuilt kept, count) else (s, count)

  -- `deduplicate`
  unfoldable pub deduplicate : Store V → Store V × ℕ
  unfolding drop_duplicates stored
  deduplicate s = elim s.index [
    | none ↦ (s, 0)
    | some index ↦
        let memories = memories_of s.metadata in
        let (kept, count) = drop_duplicates index memories in
        if leb (length memories) 1 then (s, 0) else stored kept count s
  ]

  abbrev pub or_default : Option ℕ → ℕ → ℕ
  or_default none days = days
  or_default (some max_age_days) days = max_age_days

  -- `remove_stale`
  unfoldable pub remove_stale : Manager → ℕ → Option ℕ → Store V → Store V × ℕ
  unfolding drop_before stored
  remove_stale p now max_age_days s =
      let (kept, count) =
        drop_stale now (or_default max_age_days p.stale_days) (memories_of s.metadata) in
      stored kept count s

  abbrev reindexed_from : List Memory → Store V → Store V × Bool
  reindexed_from [] s = (s, false)
  reindexed_from (m ∷ ms) s = (rebuilt (m ∷ ms), true)

  -- `reindex`
  unfoldable pub reindex : Store V → Store V × Bool
  unfolding rebuilt
  reindex s = reindexed_from (memories_of s.metadata) s

  abbrev pub skipped : Summary
  skipped = record {
    stale_removed = 0;
    duplicates_removed = 0;
    reindexed = false;
    compressed = 0;
    skipped = true;
    before_count = 0;
    after_count = 0;
  }

  -- The steps of `run_full_maintenance` on what it has loaded.
  unfoldable pub maintained : Manager → ℕ → List V → List Memory → Store V → Store V × Summary
  unfolding drop_before drop_duplicates rebuilt compress
  maintained p now index memories s =
      let (fresh, stale_count) = drop_stale now p.stale_days memories in
      let (kept, dedup_count) =
        if ltb 1 (length fresh) then drop_duplicates index fresh else (fresh, 0) in
      let reindexed = ltb 0 stale_count || ltb 0 dedup_count in
      let (s', compress_count) =
        compress now p.compress_days kept (if reindexed then rebuilt kept else s) in
      (
        s',
        record {
          stale_removed = stale_count;
          duplicates_removed = dedup_count;
          reindexed = reindexed;
          compressed = compress_count;
          skipped = false;
          before_count = length memories;
          after_count = length kept;
        },
      )

  unfoldable pub run_full_maintenance : Manager → ℕ → Store V → Store V × Summary
  unfolding maintained
  run_full_maintenance p now s = elim s.index [
    | none ↦ (s, skipped)
    | some index ↦ elim (memories_of s.metadata) [
      | [] ↦ (s, skipped)
      | m ∷ ms ↦ maintained p now index (m ∷ ms) s
    ]
  ]
