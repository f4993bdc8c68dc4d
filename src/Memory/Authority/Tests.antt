-- ===== src/Memory/Authority/Tests.antt =====
-- Facts of the three memories about two keys, and what is decided about them.
use ai_chatbot_platform.Prelude.{
  ◌≡◌, refl, ◌⊎◌, none, some, List, [], ◌∷◌, String, lookup, put, All, In,
}
use ai_chatbot_platform.Memory.Authority.{
  MemoryFact, MemoryConflict, vector, knowledge_graph, conversation, select, resolve_all,
  detect_conflicts, conflict_among, winners, group_by_key, pick_winner, conflicts_of, disagree,
}
use ai_chatbot_platform.Memory.Authority.Standing.{IsBelow, Counts, of_key}
use ai_chatbot_platform.Memory.Authority.Resolution.{IsAside, resolve_all-Wins}
use ai_chatbot_platform.Memory.Authority.Conflicts.{
  conflicts_about, Agree, Disagree, IsConflict, detect_conflicts-report,
}

abbrev learned : MemoryFact
learned = record { key = "language"; value = "Go"; source = vector; timestamp = 9; confidence = 70 }

abbrev guessed : MemoryFact
guessed = record {
  key = "language";
  value = "Rust";
  source = knowledge_graph;
  timestamp = 5;
  confidence = 60;
}

abbrev related : MemoryFact
related = record {
  key = "os";
  value = "Linux";
  source = knowledge_graph;
  timestamp = 5;
  confidence = 80;
}

abbrev told : MemoryFact
told = record {
  key = "os";
  value = "macOS";
  source = conversation;
  timestamp = 1;
  confidence = 100;
}

abbrev known : List MemoryFact
known = learned ∷ guessed ∷ related ∷ told ∷ []

abbrev same_text : String → String
same_text s = s

-- The uncertain fact of the knowledge graph does not count, though it stands above the other.
resolve_language : lookup "language" (resolve_all 80 known) ≡ some learned
unfolding resolve_all lookup winners group_by_key select put pick_winner
resolve_language = refl

-- It does count where conflicts are looked for, and wins there.
conflict_language :
    conflicts_about "language" (detect_conflicts same_text known)
    ≡ conflict_among "language" (learned ∷ guessed ∷ []) ∷ []
unfolding detect_conflicts conflicts_about conflicts_of group_by_key put disagree lookup
conflict_language = refl

-- A fact of the knowledge graph at the threshold itself counts.
resolve_threshold : lookup "os" (resolve_all 80 (related ∷ [])) ≡ some related
unfolding resolve_all lookup winners group_by_key select put pick_winner
resolve_threshold = refl

resolve_all-Wins_example :
    (lookup "os" (resolve_all 80 known) ≡ none) × All (IsAside 80 "os") known
    ⊎ ((w : MemoryFact) × lookup "os" (resolve_all 80 known) ≡ some w
        × In w known
        × w.key ≡ "os"
        × Counts 80 w
        × All (λ f. IsAside 80 "os" f ⊎ IsBelow f w) known)
resolve_all-Wins_example = resolve_all-Wins 80 known "os"

detect_conflicts-report_example :
    Agree same_text (of_key "os" known)
      × (conflicts_about "os" (detect_conflicts same_text known) ≡ [])
    ⊎ (Disagree same_text (of_key "os" known)
        × ((c : MemoryConflict) × (conflicts_about "os" (detect_conflicts same_text known) ≡ c ∷ [])
            × IsConflict "os" (of_key "os" known) c))
detect_conflicts-report_example = detect_conflicts-report same_text known "os"
