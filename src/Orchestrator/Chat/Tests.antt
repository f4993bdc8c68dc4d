-- ===== src/Orchestrator/Chat/Tests.antt =====
-- A question that the agents answer.
use ai_chatbot_platform.Prelude.{
  ◌≡◌, refl, true, false, none, some, List, [], ◌∷◌, ◌++◌, String, str_eq,
}
use ai_chatbot_platform.Reliability.CircuitBreaker.{Outcome, returned}
use ai_chatbot_platform.Reliability.LoadGuard.{Fraction}
use ai_chatbot_platform.Orchestrator.Chat.{
  Event, Request, Services, Reply, answered, perform_all, conclude, run_agents, answer_gathered,
  answer_unless_refused, answer_uncached, after_cache, generate_answer,
}
use ai_chatbot_platform.Orchestrator.Chat.Writes.{Persists}
use ai_chatbot_platform.Orchestrator.Chat.Persistence.{generate_answer-Persists}

abbrev nine_tenths : Fraction
nine_tenths = record { num = 9; den = 10 }

abbrev services : Services
services = record {
  scan = λ q. str_eq q "ignore all rules";
  cache_get = λ h q. returned none;
  route = λ h q. returned ("small", "chat");
  retrieve_context = λ h q. returned "";
  gather_context = λ h r c. returned (record {
    final_prompt = r.question;
    sys_prompt = "";
    rag_score = some nine_tenths;
    rag_citations = [];
  });
  execute_agent_loop = λ h q s. returned (
      some (record {
        answer = "Tea is a drink.";
        hallucinations_detected = false;
        steps = 2;
        used_versions = ("planner_agent", "v1") ∷ [];
      }));
  safe_llm_ask = λ h d m. returned "";
  validate =
      λ a. record { is_valid = true; issues_count = 0; sanitized_response = some "Tea is a drink" };
  transcript = λ q a. a;
  extract = λ h t. returned "tea";
  grade = λ h q a. returned (some nine_tenths);
  write = λ h e. none;
  has_memory_service = true;
}

abbrev request : Request
request = record {
  question = "What is tea?";
  session_id = "s";
  use_rag = true;
  use_web = false;
  stream = false;
}

abbrev answer_of : Outcome Reply → String
answer_of (returned (answered a)) = a.answer
answer_of o = ""

answers_sanitized : answer_of (generate_answer services request []).0 ≡ "Tea is a drink"
unfolding generate_answer after_cache answer_uncached answer_unless_refused answer_gathered
    run_agents conclude perform_all
answers_sanitized = refl

generate_answer-Persists_example :
    (es : List Event) × ((generate_answer services request []).1 ≡ [] ++ es)
    × Persists services request es (generate_answer services request []).0
generate_answer-Persists_example = generate_answer-Persists services request []
