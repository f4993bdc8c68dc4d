-- ===== src/Prompts/Evolution/Tests.antt =====
-- A prompt that is created, scored badly ten times and served from then on.
use ai_chatbot_platform.Prelude.{◌≡◌, refl, ℕ, zero, suc, [], some, true, String, lookup, put}
use ai_chatbot_platform.Reliability.CircuitBreaker.{returned}
use ai_chatbot_platform.Reliability.LoadGuard.{Fraction}
use ai_chatbot_platform.Prompts.Evolution.{
  PromptEvolutionManager, Mutator, save, scored, review, mutate, evolve_prompt, after_score,
  record_feedback, initialize_prompt, get_prompt_with_id,
}

abbrev expert : Mutator
expert = record {
  ask = λ v feedback. returned "Answer with sources.";
  new_id = "v2";
  strip = λ s. s;
  text_length = λ s. 20;
  low_performance = λ a. "low";
}

abbrev fresh : PromptEvolutionManager
fresh = record { evolutions = []; disk = [] }

abbrev half : Fraction
half = record { num = 1; den = 2 }

abbrev created : PromptEvolutionManager
created = initialize_prompt "v1" "planner" "Answer." fresh

-- `n` bad scores for a version.
abbrev rated : ℕ → String → PromptEvolutionManager → PromptEvolutionManager
rated zero id m = m
rated (suc n) id m = (record_feedback expert "planner" id half (rated n id m)).0

mutated_after_ten :
    get_prompt_with_id true "planner" (rated 10 "v1" created) ≡ some ("Answer with sources.", "v2")
unfolding get_prompt_with_id record_feedback scored after_score save review mutate evolve_prompt
    initialize_prompt lookup put
mutated_after_ten = refl
