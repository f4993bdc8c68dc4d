-- ===== src/Llm/TokenBudget/Tests.antt =====
-- A limit of 120 tokens for texts of one token.
use ai_chatbot_platform.Prelude.{◌≡◌, refl, true, false, [], ◌∷◌}
use ai_chatbot_platform.Llm.TokenBudget.{
  AdaptiveTokenBudgeter, Texts, Context, calculate_budget, fit_to_budget, cut_context,
  build_final_prompt,
}

abbrev budgeter : AdaptiveTokenBudgeter
budgeter = record { max_tokens = 120; encode = λ text. 1 ∷ []; decode = λ tokens. "" }

abbrev texts : Texts
texts = record {
  strip = λ s. s;
  concat = λ s t. t;
  join = λ ps. "prompt";
  safety_rule = "";
  grounding_rule = "";
  enforce_grounding = false;
}

abbrev context : Context
context = record {
  question = "Why?";
  system_prompt = "You help.";
  memory_block = "user: hi";
  rag_context = "facts";
  web_context = "";
  memory_vector_context = "";
  use_rag = true;
  use_web = false;
}

ten_for_documents : (calculate_budget budgeter "You help." "Why?").rag ≡ 10
unfolding calculate_budget
ten_for_documents = refl

builds : (build_final_prompt budgeter texts context).0 ≡ "prompt"
unfolding build_final_prompt cut_context calculate_budget fit_to_budget
builds = refl
