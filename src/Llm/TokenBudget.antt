-- ===== src/Llm/TokenBudget.antt =====
-- app/llm/tokenizer/adaptive_budget.py, and its use in `build_final_prompt` of
-- app/orchestrator/context_builder.py.
--
-- The encoder of `tiktoken` and the operations on texts are parameters. `int(remaining * 0.6)` is
-- computed exactly; a remainder below 0 is 0 here, which the source treats in the same way.
mod Allowances
mod Tests
use ai_chatbot_platform.Prelude.{
  ℕ, ◌+◌, ◌-◌, ◌*◌, ◌/◌, Bool, true, false, not, ◌&&◌, ◌||◌, List, [], ◌∷◌, ◌++◌, String, str_eq,
  leb, ◌==◌, if◌then◌else◌, length, take,
}

pub record AdaptiveTokenBudgeter : Type 0 where
  pub max_tokens : ℕ
  pub encode : String → List ℕ
  pub decode : List ℕ → String

pub record Budget : Type 0 where
  pub system : ℕ
  pub user : ℕ
  pub memory : ℕ
  pub rag : ℕ

abbrev pub count_tokens : AdaptiveTokenBudgeter → String → ℕ
count_tokens b text = length (b.encode text)

-- The shares of what remains.
abbrev pub shares : ℕ → ℕ → ℕ → Budget
shares system user remaining =
    if leb remaining 0
    then record { system = system; user = user; memory = 0; rag = 0 }
    else record {
      system = system;
      user = user;
      memory = remaining - remaining * 6 / 10;
      rag = remaining * 6 / 10;
    }

-- The two context texts are parameters of the source that it does not read.
unfoldable pub calculate_budget : AdaptiveTokenBudgeter → String → String → Budget
calculate_budget b system_prompt user_query =
    let system = count_tokens b system_prompt in
    let user = count_tokens b user_query in
    shares system user (b.max_tokens - (system + user + 100))

unfoldable pub fit_to_budget : AdaptiveTokenBudgeter → String → ℕ → String
fit_to_budget b text budget =
    if str_eq text "" || leb budget 0
    then ""
    else if leb (length (b.encode text)) budget
    then text
    else b.decode (take budget (b.encode text))

pub record Texts : Type 0 where
  pub strip : String → String
  pub concat : String → String → String
  pub join : List String → String
  pub safety_rule : String
  pub grounding_rule : String
  pub enforce_grounding : Bool

pub record Context : Type 0 where
  pub question : String
  pub system_prompt : String
  pub memory_block : String
  pub rag_context : String
  pub web_context : String
  pub memory_vector_context : String
  pub use_rag : Bool
  pub use_web : Bool

abbrev or_text : String → String → String
or_text text other = if str_eq text "" then other else text

abbrev if_any : String → List String → List String
if_any text parts = if str_eq text "" then [] else parts

-- The system prompt with the two rules.
abbrev pub ruled : Texts → Context → String
ruled t c =
    let stripped = t.strip c.system_prompt in
    let safe = if c.use_rag || c.use_web then t.concat stripped t.safety_rule else stripped in
    if t.enforce_grounding && c.use_rag then t.concat safe t.grounding_rule else safe

-- The texts of the context after the cut: long-term, memory, documents and web.
pub record Cut : Type 0 where
  pub long_term : String
  pub memory : String
  pub rag : String
  pub web : String

unfoldable pub cut_context : AdaptiveTokenBudgeter → Texts → Context → Cut
unfolding calculate_budget fit_to_budget
cut_context b t c =
    let budget = calculate_budget b (ruled t c) c.question in
    record {
      long_term = fit_to_budget b c.memory_vector_context (budget.rag / 2);
      memory = fit_to_budget b c.memory_block budget.memory;
      rag = fit_to_budget b c.rag_context budget.rag;
      web = fit_to_budget b c.web_context (budget.rag / 2);
    }

abbrev without_blank : Texts → List String → List String
without_blank t [] = []
without_blank t (p ∷ ps) =
    let rest = without_blank t ps in if str_eq p "" || str_eq (t.strip p) "" then rest else p ∷ rest

unfoldable pub build_final_prompt : AdaptiveTokenBudgeter → Texts → Context → String × String
unfolding cut_context
build_final_prompt b t c =
    let safe = cut_context b t c in
    let parts =
      if_any safe.long_term ("Long-term Retrieval (Episodic/Semantic):" ∷ safe.long_term ∷ [])
      ++ (if_any safe.memory (safe.memory ∷ [])
          ++ ((if c.use_rag
                then "RAG context (documents):"
                  ∷ or_text safe.rag "(no document context available)"
                  ∷ []
                else [])
              ++ ((if c.use_web
                    then "Web context (untrusted; cite links):"
                      ∷ or_text safe.web "(no web context available)"
                      ∷ []
                    else [])
                  ++ (t.concat "Question: " c.question ∷ "Answer:" ∷ [])))) in
    (t.join (without_blank t parts), ruled t c)
