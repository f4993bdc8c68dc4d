-- ===== src/Memory/Authority/Groups.antt =====
-- Grouping by key.
use ai_chatbot_platform.Prelude.{
  ◌≡◌, sym, Bool, List, [], ◌∷◌, ◌++◌, String, arith, str_eq, eq_iff, if◌then◌else◌, Dict, lookup,
  lookup-put, Bool-cases, inl, inr, keys, Distinct, Distinct-put,
}
use mathlib.Core.List.{append-nil, append_assoc}
use ai_chatbot_platform.Memory.Authority.{
  MemoryFact, group_of, add_to_group, group_from, group_by_key, select,
}

abbrev pub about : String → MemoryFact → Bool
about k f = str_eq f.key k

lookup-add_to_group :
    (k : String) (groups : Dict (List MemoryFact)) (f : MemoryFact)
    → group_of (lookup k (add_to_group groups f))
      ≡ (if about k f then group_of (lookup k groups) ++ f ∷ [] else group_of (lookup k groups))
unfolding add_to_group
lookup-add_to_group k groups f =
    ground
      (arith, eq_iff f.key k, lookup-put f.key k (group_of (lookup f.key groups) ++ f ∷ []) groups)

-- The group of a key is what is looked up, and the empty list where nothing is.
lookup-group_from :
    (k : String) (groups : Dict (List MemoryFact)) (fs : List MemoryFact)
    → group_of (lookup k (group_from groups fs)) ≡ group_of (lookup k groups) ++ select (about k) fs
unfolding group_from select
lookup-group_from k groups [] = sym (append-nil _)
lookup-group_from k groups (f ∷ fs) = elim (Bool-cases (about k f)) [
  | inl same ↦
      rw (lookup-group_from k (add_to_group groups f) fs, lookup-add_to_group k groups f, same)
        (append_assoc (group_of (lookup k groups)) (f ∷ []) (select (about k) fs))
  | inr other ↦
      rw (lookup-group_from k (add_to_group groups f) fs, lookup-add_to_group k groups f, other)
]

-- Grouping by key keeps, for each key, exactly the facts about it, in their order.
pub lookup-group_by_key :
    (k : String) (fs : List MemoryFact)
    → group_of (lookup k (group_by_key fs)) ≡ select (about k) fs
unfolding group_by_key lookup
lookup-group_by_key k fs = lookup-group_from k [] fs

group_from-Distinct :
    (groups : Dict (List MemoryFact)) (fs : List MemoryFact)
    → Distinct (keys groups)
    → Distinct (keys (group_from groups fs))
unfolding group_from add_to_group
group_from-Distinct groups [] d = d
group_from-Distinct groups (f ∷ fs) d =
    group_from-Distinct (add_to_group groups f) fs
      (Distinct-put f.key (group_of (lookup f.key groups) ++ f ∷ []) groups d)

pub group_by_key-Distinct : (fs : List MemoryFact) → Distinct (keys (group_by_key fs))
unfolding group_by_key
group_by_key-Distinct fs = group_from-Distinct [] fs tt
