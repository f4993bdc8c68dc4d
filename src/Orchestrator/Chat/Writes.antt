-- ===== src/Orchestrator/Chat/Writes.antt =====
-- What a chat is to read and to write for one answer, said without its code.
use ai_chatbot_platform.Prelude.{
  ◌≡◌, ◌≢◌, ℕ, ◌≤◌, Bool, true, false, ◌⊎◌, Option, none, some, List, [], ◌∷◌, ◌++◌, String, length,
  take, All, map, if◌then◌else◌, false,
}
use ai_chatbot_platform.Reliability.CircuitBreaker.{Outcome, returned, raised}
use ai_chatbot_platform.Reliability.LoadGuard.{Fraction}
use ai_chatbot_platform.Orchestrator.AgentLoop.{Looped}
use ai_chatbot_platform.Orchestrator.Chat.{
  Event, cache_read, routed, context_retrieved, agents_run, extracted, context_gathered,
  model_asked, feedback, logged, stored, message_added, cache_written, knowledge_added, graded,
  Services, Request, Gathered, Reply, answered, streamed, Chat,
}

abbrev pub is_read : Event → Bool
is_read (cache_read q) = true
is_read (routed q) = true
is_read (context_retrieved q) = true
is_read (agents_run q) = true
is_read (extracted text) = true
is_read (context_gathered q c) = true
is_read (model_asked model) = true
is_read e = false

abbrev pub AllReads : List Event → Type 0
AllReads es = All (λ e. is_read e ≡ true) es

-- What is stored behind an answer: the knowledge, the grade, the feedback for each version, the dataset,
-- the memory, the messages if there is a memory service, and the cache.
abbrev pub writes :
    Services → Request → String → String → List (String × String) → Fraction → List Event
writes sv req answer kg_data versions score =
    knowledge_added kg_data
      ∷ graded req.question answer
      ∷ map (λ v. feedback v.0 v.1 score) versions
    ++ logged req.question answer
      ∷ stored req.session_id req.question answer
      ∷ (if sv.has_memory_service
          then message_added "user" req.question ∷ message_added "assistant" answer ∷ []
          else [])
    ++ cache_written req.question answer ∷ []

-- What the agents returned, or the model where they did not.
abbrev pub RanWith : Services → Request → Looped → Type 0
RanWith sv req run =
    ((h : List Event) × (sv.execute_agent_loop h req.question req.session_id ≡ returned (some run)))
    ⊎ ((h : List Event) × (data' : Gathered) × (model text : String) × (sv.safe_llm_ask h data'
            model
          ≡ returned text)
        × (run ≡ record {
          answer = text;
          hallucinations_detected = false;
          steps = 0;
          used_versions = [];
        }))

-- The text that the validation made of an answer, or the answer where it made none.
abbrev pub Cleaned : Option String → String → String → Type 0
Cleaned none raw answer = answer ≡ raw
Cleaned (some s) raw answer = ((s ≡ "") × (answer ≡ raw)) ⊎ ((s ≢ "") × (answer ≡ s))

-- The score of a grade, which is 0 where there is none.
abbrev pub Scored : Option Fraction → Fraction → Type 0
Scored none score = score ≡ record { num = 0; den = 1 }
Scored (some s) score = score ≡ s

-- An answer is of a run, its knowledge was extracted from it with the question, and its score is that of
-- the grade it got, unless the grade is the last call.
abbrev pub IsOf : Services → Request → Looped → String → String → Fraction → ℕ → Type 0
IsOf sv req run answer kg_data score k =
    RanWith sv req run
    × Cleaned (sv.validate run.answer).sanitized_response run.answer answer
    × ((h : List Event) × (sv.extract h (sv.transcript req.question answer) ≡ returned kg_data))
    × ((k ≤ 2)
        ⊎ ((h : List Event) × (grade : Option Fraction) × (sv.grade h req.question answer
              ≡ returned grade)
            × Scored grade score))

-- An answer without details, a stream or an exception.
abbrev pub Early : Outcome Reply → Type 0
Early (raised e) = Unit
Early (returned (streamed p s m)) = Unit
Early (returned (answered a)) = a.details ≡ none

-- The answer is `answer` and all of the `n` writes are made, or an exception ends the chat.
abbrev pub Late : String → ℕ → ℕ → Outcome Reply → Type 0
Late answer n k (raised e) = Unit
Late answer n k (returned (streamed p s m)) = ⊥
Late answer n k (returned (answered a)) = (a.answer ≡ answer) × (n ≤ k)

abbrev pub Persists : Services → Request → List Event → Outcome Reply → Type 0
Persists sv req es o =
    (AllReads es × Early o)
    ⊎ ((reads : List Event) × (k : ℕ) × (run : Looped) × (answer kg_data : String)
        × (score : Fraction) × (es
            ≡ reads ++ take k (writes sv req answer kg_data run.used_versions score))
        × AllReads reads
        × IsOf sv req run answer kg_data score k
        × Late answer (length (writes sv req answer kg_data run.used_versions score)) k o)

-- A chat adds events to those before it, with a property of them and of its outcome.
abbrev pub Adds : (List Event → Outcome Reply → Type 0) → Chat Reply → Type 0
Adds Q m = (h : List Event) → (es : List Event) × ((m h).1 ≡ h ++ es) × Q es (m h).0
