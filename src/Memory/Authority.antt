-- ===== src/Memory/Authority.antt =====
-- app/memory/authority.py: which of several facts about one key is believed.
--
-- A time stamp is a number of ticks, and a confidence a number of hundredths. `lower`, Python's
-- `str.lower`, is a parameter. `sorted` is a stable insertion sort.
pub mod Groups
mod Standing
pub mod Winner
pub mod Resolution
pub mod Conflicts
mod Tests
use ai_chatbot_platform.Prelude.{
  ℕ, suc, Bool, true, false, not, ◌&&◌, ◌||◌, Option, none, some, List, [], ◌∷◌, ◌++◌, map, String,
  ltb, leb, ◌==◌, str_eq, length, if◌then◌else◌, Dict, lookup, put,
}

pub data MemorySource : Type 0 where
  vector knowledge_graph conversation : MemorySource

-- The values of the `IntEnum`.
abbrev pub rank : MemorySource → ℕ
rank vector = 1
rank knowledge_graph = 2
rank conversation = 3

pub record MemoryFact : Type 0 where
  pub key : String
  pub value : String
  pub source : MemorySource
  pub timestamp : ℕ
  pub confidence : ℕ

pub data Reason : Type 0 where
  no_facts single_source latest_timestamp highest_confidence : Reason
  authority : MemorySource → MemorySource → Reason

pub record MemoryConflict : Type 0 where
  pub key : String
  pub facts : List MemoryFact
  pub winner : Option MemoryFact
  pub resolution_reason : Reason

-- The order of the sort keys `(source.value, timestamp, confidence)`: `a` is not above `b`.
abbrev pub at_most : MemoryFact → MemoryFact → Bool
at_most a b =
    ltb (rank a.source) (rank b.source)
    || (rank a.source == rank b.source)
      && (ltb a.timestamp b.timestamp
          || (a.timestamp == b.timestamp) && leb a.confidence b.confidence)

-- `sorted(facts, key=…, reverse=True)`: descending, and equal facts stay in their order.
unfoldable pub insert_sorted : MemoryFact → List MemoryFact → List MemoryFact
insert_sorted f [] = f ∷ []
insert_sorted f (g ∷ gs) = if at_most g f then f ∷ (g ∷ gs) else g ∷ insert_sorted f gs

unfoldable pub sort_facts : List MemoryFact → List MemoryFact
unfolding insert_sorted
sort_facts [] = []
sort_facts (f ∷ fs) = insert_sorted f (sort_facts fs)

-- `_group_by_key`: `groups.setdefault(f.key, []).append(f)` for each fact.
abbrev group_of : Option (List MemoryFact) → List MemoryFact
group_of none = []
group_of (some fs) = fs

unfoldable pub add_to_group : Dict (List MemoryFact) → MemoryFact → Dict (List MemoryFact)
add_to_group groups f = put f.key (group_of (lookup f.key groups) ++ f ∷ []) groups

unfoldable pub group_from : Dict (List MemoryFact) → List MemoryFact → Dict (List MemoryFact)
unfolding add_to_group
group_from groups [] = groups
group_from groups (f ∷ fs) = group_from (add_to_group groups f) fs

unfoldable pub group_by_key : List MemoryFact → Dict (List MemoryFact)
unfolding group_from
group_by_key fs = group_from [] fs

same_source : MemorySource → MemorySource → Bool
same_source a b = rank a == rank b

reason_between : MemoryFact → MemoryFact → Reason
unfolding same_source
reason_between winner runner_up =
    if same_source winner.source runner_up.source
    then (if winner.timestamp == runner_up.timestamp then highest_confidence else latest_timestamp)
    else authority winner.source runner_up.source

unfoldable pub judge : List MemoryFact → Option MemoryFact × Reason
unfolding reason_between
judge [] = (none, no_facts)
judge (w ∷ []) = (some w, single_source)
judge (w ∷ r ∷ rest) = (some w, reason_between w r)

unfoldable pub pick_winner : List MemoryFact → Option MemoryFact × Reason
unfolding judge sort_facts
pick_winner fs = judge (sort_facts fs)

-- Low-confidence facts of the knowledge graph are left out.
abbrev pub qualifies : ℕ → MemoryFact → Bool
qualifies threshold f = not ((rank f.source == 2) && ltb f.confidence threshold)

unfoldable pub select : (MemoryFact → Bool) → List MemoryFact → List MemoryFact
select p [] = []
select p (f ∷ fs) = let rest = select p fs in if p f then f ∷ rest else rest

-- One winner per group.
unfoldable pub winners : Dict (List MemoryFact) → Dict MemoryFact
winners [] = []
winners ((k, fs) ∷ groups) =
    let rest = winners groups in elim (pick_winner fs).0 [ none ↦ rest | some w ↦ (k, w) ∷ rest ]

unfoldable pub resolve_all : ℕ → List MemoryFact → Dict MemoryFact
resolve_all threshold facts = winners (group_by_key (select (qualifies threshold) facts))

abbrev pub conflict_among : String → List MemoryFact → MemoryConflict
conflict_among k fs = record {
  key = k;
  facts = fs;
  winner = (pick_winner fs).0;
  resolution_reason = (pick_winner fs).1;
}

module _ (lower : String → String) where
  unfoldable pub differs : String → List MemoryFact → Bool
  differs v [] = false
  differs v (g ∷ gs) = not (str_eq (lower v) (lower g.value)) || differs v gs

  -- `len({f.value.lower() for f in facts}) > 1`: some value is not that of the first fact.
  unfoldable pub disagree : List MemoryFact → Bool
  unfolding differs
  disagree [] = false
  disagree (f ∷ fs) = differs f.value fs

  unfoldable pub conflicts_of : Dict (List MemoryFact) → List MemoryConflict
  conflicts_of [] = []
  conflicts_of ((k, fs) ∷ groups) =
      let rest = conflicts_of groups in if disagree fs then conflict_among k fs ∷ rest else rest

  unfoldable pub detect_conflicts : List MemoryFact → List MemoryConflict
  detect_conflicts facts = conflicts_of (group_by_key facts)

  unfoldable pub reconcile : ℕ → List MemoryFact → Dict MemoryFact × List MemoryConflict
  reconcile threshold facts = (resolve_all threshold facts, detect_conflicts facts)
